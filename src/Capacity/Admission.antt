-- ===== src/Capacity/Admission.antt =====
-- store.go: SetTarget, the admission of a new target for a node group, and Target. A transaction
-- returns the new database or an error, which rolls it back.
pub mod Outcome
pub mod Room
use crane_oss.Base.{
  ℕ, ◌+◌, ◌-◌, String, ℤ, pos, is_negative, pos_part, Bool, true, false, ◌&&◌, ◌||◌, Option, none,
  some, ◌==◌, ltb, eqb, if◌then◌else◌, Result, ok, ◌>>=◌, ◌>>◌, refuse_if, or_fail,
}
use crane_oss.Base.Tables.{find, count, update}
use crane_oss.Api.{
  HostState, registering, converging, ready, draining, unhealthy, terminating, CapacityRequest,
  CapacityResult,
}
use crane_oss.Capacity.Db.{
  Error, invalid, conflict, replay_mismatch, forbidden, inactive, limit, template, fulfilled,
  no_rows, Db, NodeGroup, NodePool, RequestRow, Host,
}
use crane_oss.Capacity.Policy.{Env, Policy, max_int64, load_policy, check_reservations}
use crane_oss.Capacity.Intents.{insert_row, provision_intents, cancel_pending}

abbrev pub same_ℤ : ℤ → ℤ → Bool
same_ℤ (pos a) (pos b) = eqb a b
same_ℤ (ℤ.negsuc a) (ℤ.negsuc b) = eqb a b
same_ℤ _ _ = false

-- previous == req: Go compares every field.
abbrev pub same_request : CapacityRequest → CapacityRequest → Bool
same_request a b =
    a.node_group_id == b.node_group_id
    && a.request_id == b.request_id
    && a.cluster_id == b.cluster_id
    && same_ℤ a.expected_target_revision b.expected_target_revision
    && same_ℤ a.desired_target b.desired_target
    && a.template_revision == b.template_revision

abbrev pub is_malformed : CapacityRequest → Bool
is_malformed req =
    req.node_group_id == ""
    || req.request_id == ""
    || req.cluster_id == ""
    || req.template_revision == ""
    || is_negative req.desired_target
    || is_negative req.expected_target_revision

-- state IN ('REGISTERING','CONVERGING','READY','DRAINING','UNHEALTHY','TERMINATING')
abbrev pub is_registered : HostState → Bool
is_registered registering = true
is_registered converging = true
is_registered ready = true
is_registered draining = true
is_registered unhealthy = true
is_registered terminating = true
is_registered _ = false

unfoldable pub registered : String → Db → ℕ
registered group_id db =
    count (λ (h : Host). h.node_group_id == group_id && is_registered h.state) db.hosts

unfoldable pub find_request : String → String → Db → Option RequestRow
find_request group_id request_id db =
    find
      (λ (r : RequestRow).
        r.request.node_group_id == group_id && r.request.request_id == request_id)
      db.requests

-- A request that was admitted before: the same answer, and nothing is written.
unfoldable pub replay : CapacityRequest → RequestRow → Db → Result Error (CapacityResult × Db)
replay req previous db = do
  refuse_if (if same_request previous.request req then false else true) replay_mismatch
  ok (
    record {
      request_id = req.request_id;
      node_group_id = req.node_group_id;
      target_nodes = pos_part req.desired_target;
      target_revision = previous.result_revision;
    },
    db,
  )

-- The tests of a fresh request, in the order of the source.
unfoldable pub admissible : CapacityRequest → Policy → Result Error (Unit {0})
admissible req p = do
  let desired = pos_part req.desired_target
  refuse_if (if p.enabled then false else true) inactive
  refuse_if (if p.group.template_revision == req.template_revision then false else true) template
  refuse_if
      (if eqb p.group.target_revision (pos_part req.expected_target_revision) then false else true)
      conflict
  refuse_if
      (ltb desired p.group.min_nodes
        || ltb p.group.max_nodes desired
        || eqb p.group.target_revision max_int64)
      limit

-- The pool's limits, read again under its lock.
unfoldable pub with_pool_limit : Policy → Db → Result Error Policy
with_pool_limit p db = do
  pool ← or_fail (find (λ (q : NodePool). q.id == p.group.node_pool_id) db.pools) no_rows
  ok (record p { pool_limit = pool.limits })

-- delta > 0 is held to the pool's limits, and delta < 0 may not drop registered hosts.
unfoldable pub check_change : Policy → ℕ → Db → Result Error (Unit {0})
check_change p desired db =
    if ltb p.group.target_nodes desired
    then check_reservations p (desired - p.group.target_nodes) db
    else refuse_if (ltb desired p.group.target_nodes && ltb desired (registered p.group.id db))
        fulfilled

abbrev pub write_target : String → ℕ → ℕ → Db → Db
write_target group_id nodes revision db = record db {
  groups =
      update (λ (g : NodeGroup). g.id == group_id)
        (λ g. record g { target_nodes = nodes; target_revision = revision }) db.groups;
}

unfoldable pub insert_request : RequestRow → Db → Result Error Db
insert_request n db = do
  rows ←
      insert_row
        (λ (r : RequestRow).
          r.id == n.id
          || (r.request.node_group_id == n.request.node_group_id
              && r.request.request_id == n.request.request_id))
        n db.requests
  ok (record db { requests = rows })

-- The intents that a change of the target adds or takes back.
unfoldable pub apply_change : Env → Policy → ℕ → ℕ → Db → Result Error Db
apply_change env p desired revision db =
    let target = p.group.target_nodes in
    if ltb target desired
    then provision_intents env p (env.uuid 0) revision (desired - target) 1 db
    else if ltb desired target
    then ok (cancel_pending env p.group.id (target - desired) db)
    else ok db

unfoldable pub admit : Env → CapacityRequest → Policy → Db → Result Error (CapacityResult × Db)
admit env req p db = do
  let desired = pos_part req.desired_target
  let revision = p.group.target_revision + 1
  admissible req p
  p' ← with_pool_limit p db
  check_change p' desired db
  recorded ←
      insert_request (record { id = env.uuid 0; request = req; result_revision = revision }) db
  done ←
      apply_change env p' desired revision
        (write_target req.node_group_id desired revision recorded)
  ok (
    record {
      request_id = req.request_id;
      node_group_id = req.node_group_id;
      target_nodes = desired;
      target_revision = revision;
    },
    done,
  )

unfoldable pub set_target : Env → CapacityRequest → Db → Result Error (CapacityResult × Db)
set_target env req db = do
  refuse_if (is_malformed req) invalid
  p ← load_policy req.node_group_id db
  refuse_if (if p.group.cluster_id == req.cluster_id then false else true) forbidden
  elim (find_request req.node_group_id req.request_id db) [
    | some previous ↦ replay req previous db
    | none ↦ admit env req p db
  ]

-- The target that the adapter reads back.
unfoldable pub target : String → String → Db → Result Error CapacityResult
target cluster_id group_id db = do
  g ←
      or_fail (find (λ (g : NodeGroup). g.id == group_id && g.cluster_id == cluster_id) db.groups)
        no_rows
  ok (record {
    request_id = "";
    node_group_id = group_id;
    target_nodes = g.target_nodes;
    target_revision = g.target_revision;
  })
