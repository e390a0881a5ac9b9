-- ===== src/Capacity/Removals/Outcome.antt =====
-- What a CreateAutoscalerRemovals that succeeded has passed.
use crane_oss.Base.{
  ◌+◌, ◌≤◌, String, pos_part, is_negative, ◌≡◌, inl, inr, ◌⊎◌, true, false, ◌==◌, ◌||◌, eqb, none,
  some, List, [], arith, Option-cases, Result, ok, err, refuse_if, if◌then◌else◌, >>=-eq-ok,
  refuse_if-eq-ok, length,
}
use crane_oss.Api.{NodeRemovalRequest, RemovalNode}
use crane_oss.Capacity.Db.{
  Error, invalid, conflict, forbidden, replay_mismatch, limit, Db, OperationRow,
}
use crane_oss.Capacity.Policy.{Env, Policy, max_int64, load_policy}
use crane_oss.Capacity.Removals.{
  bad_nodes, find_removal, replays, removal_of, check_nodes, remove_node_intents, lower_target,
  below_minimum, admit_removals, create_autoscaler_removals,
}

pub record Removed (env : Env) (req : NodeRemovalRequest) (p : Policy) (db db' : Db) : Type 0 where
  pub current : p.group.target_revision ≡ pos_part req.expected_target_revision
  pub room : p.group.min_nodes + length req.nodes ≤ p.group.target_nodes
  pub nodes : List (RemovalNode × String)
  pub checked : check_nodes req db req.nodes ≡ ok nodes
  pub applied :
      remove_node_intents env req p.group.zone_id
        (p.group.target_revision + 1)
        0
        nodes
        (lower_target req.node_group_id (length req.nodes) (p.group.target_revision + 1) db)
      ≡ ok db'

pub admit_removals-Removed :
    (env : Env) (req : NodeRemovalRequest) (p : Policy) (db db' : Db)
    → admit_removals env req p db ≡ ok db'
    → Removed env req p db db'
unfolding admit_removals
admit_removals-Removed env req p db db' h =
    let stale =
      if eqb p.group.target_revision (pos_part req.expected_target_revision) then false else true in
    let small = below_minimum p.group (length req.nodes) || eqb p.group.target_revision max_int64 in
    let (_, c, h1) = >>=-eq-ok (refuse_if stale conflict) _ h in
    let (_, l, h2) = >>=-eq-ok (refuse_if small limit) _ h1 in
    let (nodes, checked, h3) = >>=-eq-ok (check_nodes req db req.nodes) _ h2 in
    record {
      current = ground (arith, refuse_if-eq-ok stale conflict c);
      room = ground (arith, refuse_if-eq-ok small limit l);
      nodes = nodes;
      checked = checked;
      applied = h3;
    }

-- The successful call found its own earlier request, or it was admitted.
pub data RemovalOutcome (env : Env) (cluster_id : String) (req : NodeRemovalRequest) (db db' : Db)
    : Type 0 where
  replayed :
      (o : OperationRow)
      → find_removal req db ≡ some o
      → replays req (removal_of o) ≡ true
      → db' ≡ db
      → RemovalOutcome env cluster_id req db db'
  fresh :
      (p : Policy)
      → bad_nodes [] req.nodes ≡ false
      → load_policy req.node_group_id db ≡ ok p
      → find_removal req db ≡ none
      → Removed env req p db db'
      → RemovalOutcome env cluster_id req db db'

pub create_autoscaler_removals-RemovalOutcome :
    (env : Env) (cluster_id : String) (req : NodeRemovalRequest) (db db' : Db)
    → create_autoscaler_removals env cluster_id req db ≡ ok db'
    → RemovalOutcome env cluster_id req db db'
unfolding create_autoscaler_removals
create_autoscaler_removals-RemovalOutcome env cluster_id req db db' h =
    let malformed =
      cluster_id == ""
      || req.node_group_id == ""
      || req.request_id == ""
      || is_negative req.expected_target_revision
      || eqb (length req.nodes) 0 in
    let (_, _, h1) = >>=-eq-ok (refuse_if malformed invalid) _ h in
    let (_, distinct, h2) = >>=-eq-ok (refuse_if (bad_nodes [] req.nodes) invalid) _ h1 in
    let (p, policy, h3) = >>=-eq-ok (load_policy req.node_group_id db) _ h2 in
    let (_, _, h4) =
      >>=-eq-ok (refuse_if (if p.group.cluster_id == cluster_id then false else true) forbidden) _
        h3 in
    split p (refuse_if-eq-ok _ invalid distinct) policy h4 (Option-cases (find_removal req db))
  where
    split :
        (p : Policy)
        → bad_nodes [] req.nodes ≡ false
        → load_policy req.node_group_id db ≡ ok p
        → (elim (find_removal req db) as (λ _. Result Error Db) [
          | some o ↦ if replays req (removal_of o) then ok db else err replay_mismatch
          | none ↦ admit_removals env req p db
        ])
          ≡ ok db'
        → (find_removal req db ≡ none) ⊎ ((o : OperationRow) × (find_removal req db ≡ some o))
        → RemovalOutcome env cluster_id req db db'
    split p distinct policy h (inl missing) =
        fresh p distinct policy missing (admit_removals-Removed env req p db db' (rw missing at h))
    split p distinct policy h (inr (o, found)) =
        replayed o found (ground (arith, rw found at h)) (ground (arith, rw found at h))
