-- ===== src/Execute/Executor.antt =====
-- executor.go: DefaultExecutor.Execute, over the host catalog and the provider.
use crane_oss.Base.{ℕ, String, Option, none, some, List, [], ◌∷◌, ◌++◌, Result, ok, err}
use crane_oss.Api.{ready, draining, unhealthy}
use crane_oss.Hosts.Catalog.{
  Hosts, CatalogHost, CatalogError, DbConnectionInfo, ensure_legacy_lifecycle, get_by_id,
  create_host, transition_state, update_host_provider_id, update_state, update_db_connection_info,
}
use crane_oss.Execute.Queue.{
  ActionType, drain_host, replace_host, create_lb, create_db, create_spire_instance, other_action,
}

-- The calls that go out to the provider, in the order in which they are made.
pub data ProviderCall : Type 0 where
  provision_host : String → ProviderCall
  terminate_host : String → ProviderCall
  provision_lb : ProviderCall
  provision_spire_db : ProviderCall
  provision_spire_host : String → DbConnectionInfo → ProviderCall
  register_targets : String → ProviderCall

pub data ExecuteError : Type 0 where
  catalog : CatalogError → ExecuteError
  provider_failed : String → ExecuteError

-- How the provider answers one execution.
pub record Provider : Type 0 where
  pub provision_host_answer : String → Result String String
  pub terminate_host_answer : String → Option String
  pub provision_lb_answer : Result String String
  pub provision_spire_db_answer : Result String DbConnectionInfo
  pub provision_spire_host_answer : String → Result String String
  pub register_targets_answer : String → Option String

pub record World : Type 0 where
  pub hosts : Hosts
  pub calls : List ProviderCall

-- An execution leaves a world behind, whether it fails or not.
abbrev pub Execution : Type 0
Execution = World → Option ExecuteError × World

abbrev pub finished : Execution
finished w = (none, w)

abbrev pub stop : ExecuteError → Execution
stop e w = (some e, w)

-- A call of the catalog that writes, and the rest where it succeeds.
abbrev pub write : (Hosts → Result CatalogError Hosts) → Execution → Execution
write f k w = elim (f w.hosts) [
  | ok hosts ↦ k (record w { hosts = hosts })
  | err e ↦ stop (catalog e) w
]

-- A call of the provider is recorded whether it succeeds or not.
abbrev pub call : {A : Type 0} → ProviderCall → Result String A → (A → Execution) → Execution
call c answer k w =
    let w' : World = record w { calls = w.calls ++ c ∷ [] } in
    elim answer [ ok a ↦ k a w' | err e ↦ stop (provider_failed e) w' ]

abbrev pub as_result : Option String → Result String (Unit {0})
as_result none = ok tt
as_result (some e) = err e

-- The guard of the actions on a host that exists, and the read of the host.
abbrev pub guarded : String → Execution → Execution
guarded host_id k w = elim (ensure_legacy_lifecycle host_id w.hosts) [
  | ok _ ↦ k w
  | err e ↦ stop (catalog e) w
]

abbrev pub read_host : String → (CatalogHost → Execution) → Execution
read_host host_id k w = elim (get_by_id host_id w.hosts) [
  | ok h ↦ k h w
  | err e ↦ stop (catalog e) w
]

module _ (p : Provider) (uuid : String) (now : ℕ) where
  unfoldable pub execute_create_host : Execution
  execute_create_host = write (create_host uuid now "aws") (
      call (provision_host uuid) (p.provision_host_answer uuid)
        (λ provider_id. write (update_host_provider_id uuid provider_id) finished))

  unfoldable pub execute_drain_host : String → Execution
  execute_drain_host host_id = write (transition_state host_id draining) finished

  unfoldable pub execute_replace_host : String → Execution
  execute_replace_host host_id = read_host host_id (λ h.
      call (terminate_host h.provider_id) (as_result (p.terminate_host_answer h.provider_id))
        (λ _. write (transition_state host_id unhealthy) finished))

  unfoldable pub execute_create_lb : Execution
  execute_create_lb = call provision_lb p.provision_lb_answer (λ dns. finished)

  -- The host of a database becomes READY without the states in between.
  unfoldable pub execute_create_db : Execution
  execute_create_db = write (create_host uuid now "aws") (
      call provision_spire_db p.provision_spire_db_answer (λ info.
        write (λ hosts. ok (update_db_connection_info uuid info hosts))
          (write (update_state uuid ready) finished)))

  unfoldable pub execute_create_spire_instance : Execution
  execute_create_spire_instance = write (create_host uuid now "aws") (
      call provision_spire_db p.provision_spire_db_answer (λ info.
        write (λ hosts. ok (update_db_connection_info uuid info hosts))
          (call provision_lb p.provision_lb_answer (λ dns.
            call (provision_spire_host uuid info) (p.provision_spire_host_answer uuid)
              (λ provider_id.
                call (register_targets provider_id)
                  (as_result (p.register_targets_answer provider_id))
                  (λ _. write (update_host_provider_id uuid provider_id) finished))))))

  unfoldable pub execute : String → ActionType → Execution
  execute host_id ActionType.create_host = execute_create_host
  execute host_id drain_host = guarded host_id (execute_drain_host host_id)
  execute host_id replace_host = guarded host_id (execute_replace_host host_id)
  execute host_id create_lb = execute_create_lb
  execute host_id create_db = execute_create_db
  execute host_id create_spire_instance = execute_create_spire_instance
  execute host_id (other_action name) = finished
