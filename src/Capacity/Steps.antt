-- ===== src/Capacity/Steps.antt =====
-- The store as a transition system: a committed call of SetTarget, CreateAutoscalerRemovals, a
-- provisioning worker, the bootstrap controller, UpdateNodeGroupScheduling or UpdateClusterZone, at any
-- time, is a step from one database to the next. Calls interleave as they come; a call that fails is no
-- step. CreateRemoval, CreateBootstrap, the insertion of topology, Observe, the host catalog's writes
-- and edits by hand are no steps.
use crane_oss.Base.{ℕ, String, ℤ, Bool, List, ◌≡◌, ok}
use crane_oss.Api.{
  SchedulingTemplate, HostState, Operation, CapacityRequest, CapacityResult, NodeRemovalRequest,
  ExpectedHostState,
}
use crane_oss.Capacity.Db.{Db}
use crane_oss.Capacity.Policy.{Env}
use crane_oss.Capacity.Admission.{set_target}
use crane_oss.Capacity.Removals.{create_autoscaler_removals}
use crane_oss.Capacity.Leases.{
  Claim, claim, renew, begin_launch, record_provision_failure, release_provision_lease,
}
use crane_oss.Capacity.Launch.{Net, record_launch}
use crane_oss.Capacity.Provision.{
  set_provision_desired_version, set_provision_state, complete_provision,
}
use crane_oss.Capacity.Binding.{
  Codec, ProvisionBinding, bind_provision_node, pin_provision_expected_state,
}
use crane_oss.Capacity.Handoff.{Release, prepare_provision_release, finalize_provision}
use crane_oss.Capacity.Catalog.{Documents, update_node_group_scheduling, update_cluster_zone}
use crane_oss.Bootstrap.Store.{BootstrapDb}
use crane_oss.Bootstrap.Calls.{BootstrapCall}

pub data Step : Db → Db → Type 0 where
  sets_target :
      {db db' : Db} (env : Env) (req : CapacityRequest) (r : CapacityResult)
      → set_target env req db ≡ ok (r, db')
      → Step db db'
  removes_nodes :
      {db db' : Db} (env : Env) (cluster_id : String) (req : NodeRemovalRequest)
      → create_autoscaler_removals env cluster_id req db ≡ ok db'
      → Step db db'
  claims :
      {db db' : Db} (env : Env) (c : Claim) (locked : String → Bool) (op : Operation)
      → claim env c locked db ≡ ok (op, db')
      → Step db db'
  renews :
      {db db' : Db} (op : Operation) (duration : ℤ) (now : ℕ)
      → renew op duration now db ≡ ok db'
      → Step db db'
  begins_launch :
      {db db' : Db} (op : Operation) (now : ℕ) → begin_launch op now db ≡ ok db' → Step db db'
  records_launch :
      {db db' : Db} (net : Net) (op : Operation) (provider_id private_ip : String)
      (nodes : List String) (now : ℕ)
      → record_launch net op provider_id private_ip nodes now db ≡ ok db'
      → Step db db'
  records_failure :
      {db db' : Db} (op : Operation) (category : String) (byte_length : String → ℕ) (now : ℕ)
      → record_provision_failure op category byte_length now db ≡ ok db'
      → Step db db'
  releases_lease :
      {db db' : Db} (op : Operation) (now : ℕ)
      → release_provision_lease op now db ≡ ok db'
      → Step db db'
  sets_version :
      {db db' : Db} (op : Operation) (version : String) (byte_length : String → ℕ) (now : ℕ)
      → set_provision_desired_version op version byte_length now db ≡ ok db'
      → Step db db'
  sets_state :
      {db db' : Db} (op : Operation) (expected next : HostState) (now : ℕ)
      → set_provision_state op expected next now db ≡ ok db'
      → Step db db'
  binds :
      {db db' : Db} (c : Codec) (op : Operation) (b : ProvisionBinding) (now : ℕ)
      → bind_provision_node c op b now db ≡ ok db'
      → Step db db'
  pins :
      {db db' : Db} (c : Codec) (op : Operation) (s pinned : ExpectedHostState) (now : ℕ)
      → pin_provision_expected_state c op s now db ≡ ok (pinned, db')
      → Step db db'
  prepares :
      {db db' : Db} (op : Operation) (version : String) (now : ℕ)
      → prepare_provision_release op version now db ≡ ok db'
      → Step db db'
  finalizes :
      {db db' : Db} (release : Release) (op : Operation) (version : String) (now : ℕ)
      → finalize_provision release op version now db ≡ ok db'
      → Step db db'
  relabels :
      {db db' : Db} (x : Documents) (id expected revision : String) (t : SchedulingTemplate)
      (launch : String)
      → update_node_group_scheduling x id expected revision t launch db ≡ ok db'
      → Step db db'
  admits_cluster :
      {db db' : Db} (cluster_id zone_id lifecycle access : String)
      → update_cluster_zone cluster_id zone_id lifecycle access db ≡ ok db'
      → Step db db'
  bootstraps :
      {db db' : Db} (b c : BootstrapDb) → b.db ≡ db → c.db ≡ db' → BootstrapCall b c → Step db db'
  completes :
      {db db' : Db} (op : Operation) (now : ℕ) → complete_provision op now db ≡ ok db' → Step db db'

pub data Reach (db : Db) : Db → Type 0 where
  here : Reach db db
  onward : {db' db'' : Db} → Reach db db' → Step db' db'' → Reach db db''
