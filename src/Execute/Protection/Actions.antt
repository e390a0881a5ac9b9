-- ===== src/Execute/Protection/Actions.antt =====
-- Each action of the queue, and the whole of Execute, keeps the guarded hosts.
use crane_oss.Base.{ℕ, String, ◌≡◌, refl, ok}
use crane_oss.Base.Rows.{Grows, Grows-refl, Unique}
use crane_oss.Api.{ready, draining, unhealthy}
use crane_oss.Hosts.Catalog.{Hosts, create_host, update_host_provider_id}
use crane_oss.Execute.Queue.{
  ActionType, drain_host, replace_host, create_lb, create_db, create_spire_instance, other_action,
}
use crane_oss.Execute.Executor.{
  terminate_host, provision_lb, provision_spire_db, provision_spire_host, register_targets,
  Provider, World, finished, write, as_result, execute_create_host, execute_drain_host,
  execute_replace_host, execute_create_lb, execute_create_db, execute_create_spire_instance,
  execute,
}
use crane_oss.Execute.Protection.{
  KeepsGuarded, KeepsGuarded-refl, id_of, Kept, Free, Safe, write-Safe, call-Safe, finished-Safe,
  guarded-Safe, read_host-Safe, insert-Free, transition-Kept, update_provider-Free,
  update_state-Free, connection-Free,
}

module _ (base : Hosts) where
  Kept-Grows : (hosts : Hosts) → Kept base hosts → Grows KeepsGuarded base hosts
  Kept-Grows hosts k = k.grows

  Free-Grows : (id : String) (hosts : Hosts) → Free id base hosts → Grows KeepsGuarded base hosts
  Free-Grows id hosts s = s.kept.grows

  create-Free :
      (id provider : String) (now : ℕ) (hosts hosts' : Hosts)
      → Kept base hosts
      → create_host id now provider hosts ≡ ok hosts'
      → Free id base hosts'
  unfolding create_host
  create-Free id provider now hosts hosts' k h = insert-Free base _ hosts hosts' refl k h

  module _ (p : Provider) (uuid : String) (now : ℕ) where
    -- The last statement of two actions.
    set_provider-Safe :
        (provider_id : String)
        → Safe base (Free uuid base) (write (update_host_provider_id uuid provider_id) finished)
    set_provider-Safe provider_id =
        write-Safe base (Free uuid base) (Free-Grows uuid) (Free uuid base) _ finished
          (update_provider-Free uuid provider_id base)
          (finished-Safe base (Free uuid base) (Free-Grows uuid))

    create_host-Safe : Safe base (Kept base) (execute_create_host p uuid now)
    unfolding execute_create_host
    create_host-Safe =
        write-Safe base (Kept base) Kept-Grows (Free uuid base) _ _ (create-Free uuid "aws" now)
          (call-Safe base (Free uuid base) (Free-Grows uuid) _ _ _ set_provider-Safe)

    drain_host-Safe :
        (host_id : String) → Safe base (Kept base) (execute_drain_host p uuid now host_id)
    unfolding execute_drain_host
    drain_host-Safe host_id =
        write-Safe base (Kept base) Kept-Grows (Kept base) _ finished
          (transition-Kept base host_id draining) (finished-Safe base (Kept base) Kept-Grows)

    replace_host-Safe :
        (host_id : String) → Safe base (Kept base) (execute_replace_host p uuid now host_id)
    unfolding execute_replace_host
    replace_host-Safe host_id = read_host-Safe base (Kept base) Kept-Grows host_id _ (λ h.
        call-Safe base (Kept base) Kept-Grows (terminate_host h.provider_id)
          (as_result (p.terminate_host_answer h.provider_id)) _
          (λ _.
            write-Safe base (Kept base) Kept-Grows (Kept base) _ finished
              (transition-Kept base host_id unhealthy) (finished-Safe base (Kept base) Kept-Grows)))

    create_lb-Safe : Safe base (Kept base) (execute_create_lb p uuid now)
    unfolding execute_create_lb
    create_lb-Safe =
        call-Safe base (Kept base) Kept-Grows _ _ _
          (λ dns. finished-Safe base (Kept base) Kept-Grows)

    create_db-Safe : Safe base (Kept base) (execute_create_db p uuid now)
    unfolding execute_create_db
    create_db-Safe =
        write-Safe base (Kept base) Kept-Grows (Free uuid base) _ _ (create-Free uuid "aws" now) (
          call-Safe base (Free uuid base) (Free-Grows uuid) provision_spire_db
            p.provision_spire_db_answer _
            (λ info.
              write-Safe base (Free uuid base) (Free-Grows uuid) (Free uuid base) _ _
                (connection-Free uuid info base)
                (write-Safe base (Free uuid base) (Free-Grows uuid) (Free uuid base) _ finished
                  (update_state-Free uuid ready base)
                  (finished-Safe base (Free uuid base) (Free-Grows uuid)))))

    create_spire-Safe : Safe base (Kept base) (execute_create_spire_instance p uuid now)
    unfolding execute_create_spire_instance
    create_spire-Safe =
        write-Safe base (Kept base) Kept-Grows (Free uuid base) _ _ (create-Free uuid "aws" now) (
          call-Safe base (Free uuid base) (Free-Grows uuid) provision_spire_db
            p.provision_spire_db_answer _
            (λ info.
              write-Safe base (Free uuid base) (Free-Grows uuid) (Free uuid base) _ _
                (connection-Free uuid info base)
                (call-Safe base (Free uuid base) (Free-Grows uuid) provision_lb
                  p.provision_lb_answer _
                  (λ dns.
                    call-Safe base (Free uuid base) (Free-Grows uuid)
                      (provision_spire_host uuid info) (p.provision_spire_host_answer uuid) _
                      (λ provider_id.
                        call-Safe base (Free uuid base) (Free-Grows uuid)
                          (register_targets provider_id)
                          (as_result (p.register_targets_answer provider_id)) _
                          (λ _. set_provider-Safe provider_id))))))

    execute-Safe :
        (host_id : String) (action : ActionType)
        → Safe base (Kept base) (execute p uuid now host_id action)
    unfolding execute
    execute-Safe host_id ActionType.create_host = create_host-Safe
    execute-Safe host_id drain_host =
        guarded-Safe base (Kept base) Kept-Grows host_id _ (drain_host-Safe host_id)
    execute-Safe host_id replace_host =
        guarded-Safe base (Kept base) Kept-Grows host_id _ (replace_host-Safe host_id)
    execute-Safe host_id create_lb = create_lb-Safe
    execute-Safe host_id create_db = create_db-Safe
    execute-Safe host_id create_spire_instance = create_spire-Safe
    execute-Safe host_id (other_action name) = finished-Safe base (Kept base) Kept-Grows

-- An execution of the queue leaves every host that is protected, or managed by capacity operations,
-- exactly as it was, whatever the action is, whatever the provider answers, and wherever it fails.
-- Host ids are unique before it.
pub execute-KeepsGuarded :
    (p : Provider) (uuid : String) (now : ℕ) (host_id : String) (action : ActionType) (w : World)
    → Unique id_of w.hosts
    → Grows KeepsGuarded w.hosts (execute p uuid now host_id action w).1.hosts
unfolding Safe
execute-KeepsGuarded p uuid now host_id action w u =
    execute-Safe w.hosts p uuid now host_id action w
      (record { grows = Grows-refl KeepsGuarded KeepsGuarded-refl w.hosts; unique = u })
