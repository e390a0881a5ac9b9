-- ===== src/Capacity/Removals.antt =====
-- removals.go: CreateAutoscalerRemovals lowers a group's target and reserves the named hosts, all in
-- one transaction.
pub mod Outcome
use Prim.Native.String.{◌++◌}
use crane_oss.Base.{
  ℕ, ◌+◌, ◌-◌, String, ℤ, pos, negsuc, is_negative, pos_part, Bool, true, false, ◌&&◌, ◌||◌, Option,
  none, some, List, [], ◌∷◌, ◌==◌, ltb, eqb, length, if◌then◌else◌, Result, ok, err, ◌>>=◌, ◌>>◌,
  refuse_if, or_fail,
}
use crane_oss.Base.Tables.{find, any, update}
use crane_oss.Api.{
  HostState, terminated, terminating, failed, remove_node, pending, Parameters, removal,
  RemovalNode, NodeRemovalRequest, same_kind,
}
use crane_oss.Capacity.Db.{
  Error, invalid, forbidden, conflict, replay_mismatch, limit, fulfilled, no_rows, Db, NodeGroup,
  Zone, OperationRow, Host, RemovalRow,
}
use crane_oss.Capacity.Policy.{Env, Policy, max_int64, load_policy}
use crane_oss.Capacity.Admission.{same_ℤ}
use crane_oss.Capacity.Intents.{insert_row, insert_operation}

-- `seen` are the hosts named so far.
unfoldable pub bad_nodes : List String → List RemovalNode → Bool
bad_nodes seen [] = false
bad_nodes seen (n ∷ ns) =
    let rest = bad_nodes (n.host_id ∷ seen) ns in
    if n.host_id == "" || n.provider_id == "" || n.node_name == "" || any (λ s. s == n.host_id) seen
    then true
    else rest

abbrev pub same_node : RemovalNode → RemovalNode → Bool
same_node a b =
    a.host_id == b.host_id && a.node_name == b.node_name && a.provider_id == b.provider_id

abbrev pub same_nodes : List RemovalNode → List RemovalNode → Bool
same_nodes [] [] = true
same_nodes (a ∷ as') (b ∷ bs) = same_node a b && same_nodes as' bs
same_nodes _ _ = false

-- The comparison of the stored JSON with the request's, key by key.
abbrev pub same_removal : NodeRemovalRequest → NodeRemovalRequest → Bool
same_removal a b =
    a.node_group_id == b.node_group_id
    && a.request_id == b.request_id
    && same_ℤ a.expected_target_revision b.expected_target_revision
    && same_nodes a.nodes b.nodes

abbrev pub removal_of : OperationRow → Option NodeRemovalRequest
removal_of o = request_in o.parameters
  where
    request_in : Parameters → Option NodeRemovalRequest
    request_in (removal r) = some r
    request_in _ = none

abbrev is_request : String → Option NodeRemovalRequest → Bool
is_request id none = false
is_request id (some r) = r.request_id == id

-- The first operation that an earlier request of this name left in the group.
unfoldable pub find_removal : NodeRemovalRequest → Db → Option OperationRow
find_removal req db =
    find
      (λ (o : OperationRow).
        o.group_id == req.node_group_id
        && same_kind o.kind remove_node
        && is_request req.request_id (removal_of o))
      db.operations

abbrev replays : NodeRemovalRequest → Option NodeRemovalRequest → Bool
replays req none = false
replays req (some r) = same_removal r req

-- state is TERMINATED, TERMINATING or FAILED
abbrev pub is_gone : HostState → Bool
is_gone terminated = true
is_gone terminating = true
is_gone failed = true
is_gone _ = false

abbrev pub node_identity : Zone → Host → String
node_identity z h =
    if h.provider == "aws"
    then "aws:///" ++ z.provider_zone_id ++ "/" ++ h.provider_id
    else h.provider_id

abbrev pub being_removed : String → Db → Bool
being_removed host_id db =
    any (λ (r : RemovalRow). r.host_id == host_id && (if r.completed then false else true))
      db.removals

-- One round of the validation: the provider identity that the removal records.
unfoldable pub check_node : NodeRemovalRequest → Db → RemovalNode → Result Error String
check_node req db n = do
  h ←
      or_fail
        (find (λ (h : Host). h.id == n.host_id && any (λ (z : Zone). z.id == h.crane_zone) db.zones)
          db.hosts)
        no_rows
  z ← or_fail (find (λ (z : Zone). z.id == h.crane_zone) db.zones) no_rows
  refuse_if
      ((if h.node_group_id == req.node_group_id then false else true)
        || h.provider_id == ""
        || (if node_identity z h == n.provider_id then false else true))
      forbidden
  refuse_if (is_gone h.state) fulfilled
  refuse_if (being_removed n.host_id db) conflict
  ok h.provider_id

unfoldable pub check_nodes :
    NodeRemovalRequest → Db → List RemovalNode → Result Error (List (RemovalNode × String))
check_nodes req db [] = ok []
check_nodes req db (n ∷ ns) = do
  id ← check_node req db n
  ids ← check_nodes req db ns
  ok ((n, id) ∷ ids)

module _ (env : Env) (req : NodeRemovalRequest) (zone_id : String) (revision : ℕ) where
  abbrev pub removal_operation : ℕ → RemovalNode → OperationRow
  removal_operation k n = record {
    id = env.uuid k;
    kind = remove_node;
    zone_id = zone_id;
    group_id = req.node_group_id;
    host_id = n.host_id;
    capacity_request_id = "";
    target_revision = revision;
    state = pending;
    provider_token = env.uuid (k + 1);
    parameters = removal req;
    lease = none;
    fence = 0;
    last_error = "";
    created_at = env.now;
    updated_at = env.now;
  }

  abbrev pub removal_row : ℕ → RemovalNode → String → RemovalRow
  removal_row k n provider_id = record {
    operation_id = env.uuid k;
    group_id = req.node_group_id;
    host_id = n.host_id;
    node_name = n.node_name;
    provider_id = provider_id;
    drain_deadline = env.now + 1_800_000;
    completed = false;
  }

  -- The primary key, and the index node_removal_exclusive on the hosts with an open removal.
  abbrev pub removal_clash : RemovalRow → RemovalRow → Bool
  removal_clash n r =
      r.operation_id == n.operation_id
      || (r.host_id == n.host_id && (if r.completed then false else true))

  unfoldable pub remove_node_intent : ℕ → RemovalNode × String → Db → Result Error Db
  remove_node_intent k (n, id) db = do
    added ← insert_operation (removal_operation k n) db
    rows ← insert_row (removal_clash (removal_row k n id)) (removal_row k n id) added.removals
    ok (record added { removals = rows })

  -- Each round draws two UUIDs.
  unfoldable pub remove_node_intents : ℕ → List (RemovalNode × String) → Db → Result Error Db
  remove_node_intents k [] db = ok db
  remove_node_intents k (n ∷ ns) db =
      remove_node_intent k n db >>= λ db'. remove_node_intents (k + 2) ns db'

abbrev pub lower_target : String → ℕ → ℕ → Db → Db
lower_target group_id count revision db = record db {
  groups =
      update (λ (g : NodeGroup). g.id == group_id)
        (λ g. record g { target_nodes = g.target_nodes - count; target_revision = revision })
        db.groups;
}

-- TargetNodes - len(Nodes) < MinNodes on int64, where the difference may be negative.
abbrev pub below_minimum : NodeGroup → ℕ → Bool
below_minimum g n = ltb g.target_nodes (g.min_nodes + n)

unfoldable pub admit_removals : Env → NodeRemovalRequest → Policy → Db → Result Error Db
admit_removals env req p db = do
  refuse_if
      (if eqb p.group.target_revision (pos_part req.expected_target_revision) then false else true)
      conflict
  refuse_if (below_minimum p.group (length req.nodes) || eqb p.group.target_revision max_int64)
      limit
  nodes ← check_nodes req db req.nodes
  let revision = p.group.target_revision + 1
  remove_node_intents env req p.group.zone_id revision 0 nodes
      (lower_target req.node_group_id (length req.nodes) revision db)

unfoldable pub create_autoscaler_removals : Env → String → NodeRemovalRequest → Db → Result Error Db
create_autoscaler_removals env cluster_id req db = do
  refuse_if
      (cluster_id == ""
        || req.node_group_id == ""
        || req.request_id == ""
        || is_negative req.expected_target_revision
        || eqb (length req.nodes) 0)
      invalid
  refuse_if (bad_nodes [] req.nodes) invalid
  p ← load_policy req.node_group_id db
  refuse_if (if p.group.cluster_id == cluster_id then false else true) forbidden
  elim (find_removal req db) [
    | some o ↦ if replays req (removal_of o) then ok db else err replay_mismatch
    | none ↦ admit_removals env req p db
  ]
