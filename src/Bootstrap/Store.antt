-- ===== src/Bootstrap/Store.antt =====
-- catalog.go (BootstrapPhase), bootstrap_phases, bootstrap_worker, bootstrap_discovery,
-- bootstrap_host, bootstrap_dominator and bootstrap_target.go: the statements of a bootstrap.
use crane_oss.Base.{
  leb, ℕ, String, Bool, true, false, not, ◌&&◌, ◌||◌, ◌==◌, Option, none, some, List, eqb,
  if◌then◌else◌, Result, ok, ◌>>=◌, ◌>>◌, refuse_if, or_fail,
}
use crane_oss.Base.Tables.{any, find, filter, count, update, sort_by}
use crane_oss.Base.Sorting.{first}
use crane_oss.Api.{
  Kind, create_cluster, pending, succeeded, failed, Operation, same_kind, is_pending, is_held,
}
use crane_oss.Capacity.Db.{
  Error, forbidden, fenced, no_rows, conflict, external, Db, Zone, Cluster, ClusterZone,
  MembershipState, AccessState, OperationRow,
}
use crane_oss.Capacity.Policy.{Env}
use crane_oss.Capacity.Leases.{fenced_update, holds, oldest_first}

pub data ZoneBootstrapPhase : Type 0 where
  zone_requested infrastructure_provisioning control_plane_initializing : ZoneBootstrapPhase
  network_installing dominator_installing validating zone_ready zone_failed : ZoneBootstrapPhase

-- A row of zone_bootstrap_operations; a NULL cluster is the empty text.
pub record BootstrapRow : Type 0 where
  pub operation_id : String
  pub zone_id : String
  pub cluster_id : String
  pub phase : ZoneBootstrapPhase

-- The zones and the clusters whose lifecycle_state is 'initializing' are listed by their ids.
pub record BootstrapDb : Type 0 where
  pub db : Db
  pub bootstraps : List BootstrapRow
  pub initializing_zones : List String
  pub initializing_clusters : List String

pub record BootstrapStepResult : Type 0 where
  pub api_server_endpoint : String
  pub ca_cert_hash : String
  pub provider_host_id : String
  pub host_private_ip : String
  pub image_id : String
  pub dominator_endpoint : String
  pub dominator_identity : String

-- The sequence of a create_cluster operation.
abbrev pub phase_after : ZoneBootstrapPhase → Option ZoneBootstrapPhase
phase_after zone_requested = some infrastructure_provisioning
phase_after infrastructure_provisioning = some control_plane_initializing
phase_after control_plane_initializing = some network_installing
phase_after network_installing = some dominator_installing
phase_after dominator_installing = some validating
phase_after validating = some zone_ready
phase_after zone_ready = none
phase_after zone_failed = none

abbrev pub bootstrap_next : Kind → ZoneBootstrapPhase → Option ZoneBootstrapPhase
bootstrap_next create_cluster phase = phase_after phase
bootstrap_next _ phase = none

abbrev pub same_phase : ZoneBootstrapPhase → ZoneBootstrapPhase → Bool
same_phase zone_requested zone_requested = true
same_phase infrastructure_provisioning infrastructure_provisioning = true
same_phase control_plane_initializing control_plane_initializing = true
same_phase network_installing network_installing = true
same_phase dominator_installing dominator_installing = true
same_phase validating validating = true
same_phase zone_ready zone_ready = true
same_phase zone_failed zone_failed = true
same_phase _ _ = false

abbrev pub is_final : ZoneBootstrapPhase → Bool
is_final zone_ready = true
is_final zone_failed = true
is_final _ = false

abbrev pub is_next : Option ZoneBootstrapPhase → ZoneBootstrapPhase → Bool
is_next none next = false
is_next (some expected) next = same_phase expected next

abbrev pub is_creation : Operation → Bool
is_creation op = same_kind op.kind create_cluster

-- The operation under the worker's lease.
abbrev pub is_held_by : Operation → ℕ → OperationRow → Bool
is_held_by op now o = holds op now o && is_held o.state

abbrev pub find_bootstrap : String → BootstrapDb → Option BootstrapRow
find_bootstrap id b = find (λ (r : BootstrapRow). r.operation_id == id) b.bootstraps

abbrev pub listed : String → List String → Bool
listed id ids = any (λ other. other == id) ids

abbrev pub without : String → List String → List String
without id ids = filter (λ other. not (other == id)) ids

-- The handoff: the cluster, the zone and their membership become ready, if they are initializing.
abbrev pub is_awaiting : String → String → ClusterZone → Bool
is_awaiting cluster_id zone_id m =
    m.cluster_id == cluster_id
    && m.zone_id == zone_id
    && is_initializing m.lifecycle_state
    && is_pending_access m.access_state
  where
    is_initializing : MembershipState → Bool
    is_initializing MembershipState.initializing = true
    is_initializing _ = false

    is_pending_access : AccessState → Bool
    is_pending_access AccessState.pending = true
    is_pending_access _ = false

abbrev pub hand_off : String → String → BootstrapDb → Result Error BootstrapDb
hand_off cluster_id zone_id b = do
  let is_cluster = listed cluster_id b.initializing_clusters
  let is_zone = listed zone_id b.initializing_zones
  refuse_if (not (eqb (count (is_awaiting cluster_id zone_id) b.db.memberships) 1)) conflict
  ok (record {
    db = record b.db {
      clusters =
          update (λ (c : Cluster). c.id == cluster_id && is_cluster)
            (λ c. record c { lifecycle_ready = true }) b.db.clusters;
      zones =
          update (λ (z : Zone). z.id == zone_id && is_zone)
            (λ z. record z { lifecycle_ready = true }) b.db.zones;
      memberships =
          update (is_awaiting cluster_id zone_id)
            (λ m. record m {
              lifecycle_state = MembershipState.ready;
              access_state = AccessState.approved;
            })
            b.db.memberships;
    };
    bootstraps = b.bootstraps;
    initializing_zones = without zone_id b.initializing_zones;
    initializing_clusters = without cluster_id b.initializing_clusters;
  })

abbrev pub write_phase : String → ZoneBootstrapPhase → BootstrapDb → BootstrapDb
write_phase id next b = record b {
  bootstraps =
      update (λ (r : BootstrapRow). r.operation_id == id) (λ r. record r { phase = next })
        b.bootstraps;
}

-- A final phase ends the operation and its lease.
abbrev pub end_operation : String → ZoneBootstrapPhase → ℕ → BootstrapDb → BootstrapDb
end_operation id next now b =
    if is_final next
    then record b {
      db = record b.db {
        operations =
            update (λ (o : OperationRow). o.id == id)
              (λ o. record o {
                state = if same_phase next zone_ready then succeeded else failed;
                lease = none;
                updated_at = now;
              })
              b.db.operations;
      };
    }
    else b

-- BootstrapPhase
unfoldable pub bootstrap_phase :
    Operation → ZoneBootstrapPhase → Bool → ℕ → BootstrapDb → Result Error BootstrapDb
bootstrap_phase op next validated now b = do
  refuse_if (not (is_creation op)) (external "not a bootstrap operation")
  row ← or_fail (find_bootstrap op.id b) fenced
  refuse_if (not (any (is_held_by op now) b.db.operations)) fenced
  refuse_if
      (not (same_phase next zone_failed) && not (is_next (bootstrap_next op.kind row.phase) next))
      (external "invalid bootstrap phase transition")
  refuse_if (same_phase next zone_ready && not validated)
      (external "bootstrap handoff has not been validated")
  handed ←
      if same_phase next zone_ready && not (row.cluster_id == "")
      then hand_off row.cluster_id op.zone_id b
      else ok b
  ok (end_operation op.id next now (write_phase op.id next handed))

unfoldable pub release_bootstrap_lease : Operation → ℕ → BootstrapDb → Result Error BootstrapDb
release_bootstrap_lease op now b = do
  refuse_if (not (is_creation op)) forbidden
  db ←
      fenced_update (is_held_by op now)
        (λ o. record o { state = pending; lease = none; updated_at = now }) b.db
  ok (record b { db = db })

-- lease_until<=clock_timestamp(), which no row without a lease passes.
abbrev pub lease_expired : OperationRow → ℕ → Bool
lease_expired o now = elim o.lease [ none ↦ false | some l ↦ leb l.until now ]

abbrev pub is_runnable : ℕ → BootstrapDb → OperationRow → Bool
is_runnable now b o =
    same_kind o.kind create_cluster
    && any (λ (r : BootstrapRow). r.operation_id == o.id && not (is_final r.phase)) b.bootstraps
    && (is_pending o.state || (is_held o.state && lease_expired o now))

-- NextBootstrapZone reads and claims nothing.
unfoldable pub next_bootstrap_zone : Env → BootstrapDb → Result Error String
next_bootstrap_zone env b = do
  o ←
      or_fail (first (sort_by (oldest_first env) (filter (is_runnable env.now b) b.db.operations)))
        no_rows
  ok o.zone_id

abbrev pub is_at : Operation → ZoneBootstrapPhase → BootstrapRow → Bool
is_at op phase r = r.operation_id == op.id && same_phase r.phase phase
