-- ===== src/Capacity/Targets.antt =====
-- store.go, removals.go and scheduling.go: the node groups over the steps of the store.
use crane_oss.Base.{
  ℕ, ◌+◌, ◌-◌, ◌≤◌, String, pos_part, ◌≡◌, refl, ap, sym, subst, ◌∙◌, Bool, true, ◌==◌, eq_iff,
  ◌&&◌, eqb, some, List, [], ◌∷◌, ◌++◌, arith, ok, or_fail, >>=-eq-ok, or_fail-eq-ok, length,
}
use crane_oss.Base.Tables.{find, update}
use crane_oss.Base.Rows.{
  All-map, Grows, Grows-refl, Grows-trans, Grows-update_All, Unique, Unique-any, Unique-update,
  find-true, find-any_and,
}
use crane_oss.Api.{CapacityRequest, CapacityResult, NodeRemovalRequest}
use crane_oss.Capacity.Db.{no_rows, Db, NodeGroup, RequestRow}
use mathlib.Core.List.{append-nil}
use crane_oss.Capacity.Policy.{Env, Policy, load_policy, join_policy}
use crane_oss.Capacity.Admission.{admissible, replay, insert_request}
use crane_oss.Capacity.Admission.Outcome.{
  Outcome, replayed, fresh, Admitted, admit-Admitted, set_target-Outcome,
}
use crane_oss.Capacity.Removals.Outcome.{
  Removed, RemovalOutcome, replayed as repeated, fresh as removed,
  create_autoscaler_removals-RemovalOutcome,
}
use crane_oss.Capacity.Steps.{
  Step, Reach, here, onward, sets_target, removes_nodes, claims, renews, begins_launch,
  records_launch, records_failure, releases_lease, sets_version, sets_state, binds, pins, prepares,
  finalizes, completes, relabels, admits_cluster, bootstraps,
}
use crane_oss.Capacity.Groups.{GroupLater, GroupLater-refl, GroupLater-trans}
use crane_oss.Capacity.Administration.{Administered, relabel-Administered, membership-Administered}
use crane_oss.Bootstrap.Frame.{BootstrapCall-Written}
use crane_oss.Capacity.Frame

-- One write of a group's target: the group as the call read it, and the target it moves to.
pub record TargetChange (db db' : Db) : Type 0 where
  pub topology : Frame.SameTopology db db'
  pub group : NodeGroup
  pub found : find (λ (g : NodeGroup). g.id == group.id) db.groups ≡ some group
  pub move : ℕ → ℕ
  pub stays :
      group.target_nodes ≤ group.max_nodes
      → (group.min_nodes ≤ move group.target_nodes) × (move group.target_nodes ≤ group.max_nodes)
  pub groups :
      db'.groups
      ≡ update
          (λ (g : NodeGroup). g.id == group.id)
          (λ g. record g {
            target_nodes = move g.target_nodes;
            target_revision = group.target_revision + 1;
          })
          db.groups
  pub added : List RequestRow
  pub requests : db'.requests ≡ db.requests ++ added

pub load_policy-group :
    (id : String) (db : Db) (p : Policy)
    → load_policy id db ≡ ok p
    → (find (λ (g : NodeGroup). g.id == id) db.groups ≡ some p.group) × (p.group.id ≡ id)
unfolding load_policy join_policy
load_policy-group id db p h =
    let (g, e, h1) =
      >>=-eq-ok (or_fail (find (λ (g : NodeGroup). g.id == id) db.groups) no_rows) _ h in
    let same : g ≡ p.group = ground (arith, h1) in
    let found = or_fail-eq-ok (find (λ (g : NodeGroup). g.id == id) db.groups) no_rows g e in
    (
      found ∙ ap some same,
      subst (λ (g : NodeGroup). g.id ≡ id) same
          ((eq_iff g.id id).0 (find-true (λ (g : NodeGroup). g.id == id) db.groups g found)),
    )

-- The bounds that `admissible` checks.
admissible_bounds :
    (req : CapacityRequest) (p : Policy)
    → admissible req p ≡ ok tt
    → (p.group.min_nodes ≤ pos_part req.desired_target)
      × (pos_part req.desired_target ≤ p.group.max_nodes)
unfolding admissible
admissible_bounds req p h = ground arith

SamePolicy-TargetChange :
    {db mid db' : Db} → Frame.SamePolicy mid db' → TargetChange db mid → TargetChange db db'
SamePolicy-TargetChange {db} {mid} {db'} s c = record {
  topology = Frame.SameTopology-trans db mid db' c.topology s.topology;
  group = c.group;
  found = c.found;
  move = c.move;
  stays = c.stays;
  groups = s.groups ∙ c.groups;
  added = c.added;
  requests = s.requests ∙ c.requests;
}

Admitted-TargetChange :
    (env : Env) (req : CapacityRequest) (p : Policy) (db : Db) (r : CapacityResult) (db' : Db)
    → load_policy req.node_group_id db ≡ ok p
    → Admitted env req p db r db'
    → TargetChange db db'
unfolding insert_request
Admitted-TargetChange env req p db r db' policy a =
    let (found, same_id) = load_policy-group req.node_group_id db p policy in
    let row : RequestRow = record {
      id = env.uuid 0;
      request = req;
      result_revision = p.group.target_revision + 1;
    } in
    let e : (a.recorded ≡ record db { requests = db.requests ++ row ∷ [] }) =
      ground (arith, a.inserted) in
    SamePolicy-TargetChange (Frame.apply_change-SamePolicy env a.priced _ _ _ db' a.applied)
      (record {
        topology = ground (arith, e);
        group = p.group;
        found = rw (← same_id) at found;
        move = λ t. pos_part req.desired_target;
        stays = λ _. admissible_bounds req p a.guards;
        groups = rw (e, ← same_id) refl;
        added = row ∷ [];
        requests = ground (arith, e);
      })

Removed-TargetChange :
    (env : Env) (req : NodeRemovalRequest) (p : Policy) (db db' : Db)
    → load_policy req.node_group_id db ≡ ok p
    → Removed env req p db db'
    → TargetChange db db'
Removed-TargetChange env req p db db' policy a =
    let (found, same_id) = load_policy-group req.node_group_id db p policy in
    SamePolicy-TargetChange
      (Frame.remove_node_intents-SamePolicy env req p.group.zone_id (p.group.target_revision + 1) 0
        a.nodes _ db' a.applied)
      (record {
        topology = ground arith;
        group = p.group;
        found = rw (← same_id) at found;
        move = λ t. t - length req.nodes;
        stays = λ h. (omega (arith, a.room), omega (arith, a.room));
        groups = rw (← same_id) refl;
        added = [];
        requests = sym (append-nil db.requests);
      })

-- A step writes no group, no topology and no request, or it is one change of a target, or it is the
-- operator's or the bootstrap controller's.
pub data StepKind (db db' : Db) : Type 0 where
  plain : Frame.SamePolicy db db' → StepKind db db'
  moves : TargetChange db db' → StepKind db db'
  administers : Administered db db' → StepKind db db'

pub Step-StepKind : {db db' : Db} → Step db db' → StepKind db db'
unfolding replay
Step-StepKind {db} {db'} (sets_target env req r h) = outcome (set_target-Outcome env req db r db' h)
  where
    outcome : Outcome env req db r db' → StepKind db db'
    outcome (replayed p row _ _ e) = plain (ground (arith, e))
    outcome (fresh p policy _ e) =
        moves
          (Admitted-TargetChange env req p db r db' policy (admit-Admitted env req p db r db' e))
Step-StepKind {db} {db'} (removes_nodes env cluster_id req h) =
    outcome (create_autoscaler_removals-RemovalOutcome env cluster_id req db db' h)
  where
    outcome : RemovalOutcome env cluster_id req db db' → StepKind db db'
    outcome (repeated o _ _ e) = plain (ground (arith, e))
    outcome (removed p _ policy _ a) = moves (Removed-TargetChange env req p db db' policy a)
Step-StepKind {db} {db'} (claims env c locked op h) =
    plain (Frame.claim-SamePolicy env c locked op db db' h)
Step-StepKind {db} {db'} (renews op d now h) = plain (Frame.renew-SamePolicy op d now db db' h)
Step-StepKind {db} {db'} (begins_launch op now h) =
    plain (Frame.begin_launch-SamePolicy op now db db' h)
Step-StepKind {db} {db'} (records_launch net op id ip nodes now h) =
    plain (Frame.record_launch-SamePolicy net op id ip nodes now db db' h)
Step-StepKind {db} {db'} (records_failure op category byte_length now h) =
    plain (Frame.record_failure-SamePolicy op category byte_length now db db' h)
Step-StepKind {db} {db'} (releases_lease op now h) =
    plain (Frame.release-SamePolicy op now db db' h)
Step-StepKind {db} {db'} (sets_version op version byte_length now h) =
    plain (Frame.set_version-SamePolicy op version byte_length now db db' h)
Step-StepKind {db} {db'} (sets_state op expected to now h) =
    plain (Frame.set_state-SamePolicy op expected to now db db' h)
Step-StepKind {db} {db'} (binds c op b now h) = plain (Frame.bind-SamePolicy c op b now db db' h)
Step-StepKind {db} {db'} (pins c op s pinned now h) =
    plain (Frame.pin-SamePolicy c op s pinned now db db' h)
Step-StepKind {db} {db'} (prepares op version now h) =
    plain (Frame.prepare-SamePolicy op version now db db' h)
Step-StepKind {db} {db'} (finalizes release op version now h) =
    plain (Frame.finalize-SamePolicy release op version now db db' h)
Step-StepKind {db} {db'} (completes op now h) = plain (Frame.complete-SamePolicy op now db db' h)
Step-StepKind {db} {db'} (relabels x id expected revision t launch h) =
    administers (relabel-Administered x id expected revision t launch db db' h).administered
Step-StepKind {db} {db'} (admits_cluster cluster_id zone_id lifecycle access h) =
    administers (membership-Administered cluster_id zone_id lifecycle access db db' h).administered
Step-StepKind {db} {db'} (bootstraps b c e e' call) = administers (
    subst (λ d. Administered d db') e
      (subst (λ d. Administered b.db d) e' (BootstrapCall-Written b c call).administered))

-- What the change of one target does to every group, ids being unique.
TargetChange-Grows :
    (db db' : Db)
    → Unique (λ (g : NodeGroup). g.id) db.groups
    → TargetChange db db'
    → Grows GroupLater db.groups db'.groups
TargetChange-Grows db db' u c = subst (Grows GroupLater db.groups) (sym c.groups) (
    Grows-update_All GroupLater (λ (g : NodeGroup). g.id == c.group.id) _ GroupLater-refl db.groups
      (All-map (λ (g : NodeGroup). g.id ≡ c.group.id → as_read g ≡ true) _ moved db.groups
        (Unique-any (λ (g : NodeGroup). g.id) c.group.id as_read db.groups u
          (find-any_and (λ (g : NodeGroup). g.id == c.group.id) as_read db.groups c.group c.found
            (ground arith)))))
  where
    as_read : NodeGroup → Bool
    as_read g =
        eqb g.target_revision c.group.target_revision
        && eqb g.target_nodes c.group.target_nodes
        && eqb g.min_nodes c.group.min_nodes
        && eqb g.max_nodes c.group.max_nodes

    moved :
        (g : NodeGroup)
        → (g.id ≡ c.group.id → as_read g ≡ true)
        → (g.id == c.group.id) ≡ true
        → GroupLater g (record g {
          target_nodes = c.move g.target_nodes;
          target_revision = c.group.target_revision + 1;
        })
    moved g read same_id =
        let facts = read ((eq_iff g.id c.group.id).0 same_id) in
        record {
          same = refl;
          revision_le = ground arith;
          target_moves = λ e. absurd (ground arith);
          in_bounds = λ b. ground (arith, c.stays);
        }

TargetChange-Unique :
    (db db' : Db)
    → Unique (λ (g : NodeGroup). g.id) db.groups
    → TargetChange db db'
    → Unique (λ (g : NodeGroup). g.id) db'.groups
TargetChange-Unique db db' u c =
    subst (Unique (λ (g : NodeGroup). g.id)) (sym c.groups)
      (Unique-update (λ (g : NodeGroup). g.id) _ _ (λ g. refl) db.groups u)

Reach-groups :
    (db db' : Db)
    → Unique (λ (g : NodeGroup). g.id) db.groups
    → Reach db db'
    → Grows GroupLater db.groups db'.groups × Unique (λ (g : NodeGroup). g.id) db'.groups
Reach-groups db db' u here = (Grows-refl GroupLater GroupLater-refl db.groups, u)
Reach-groups db db' u (onward {db' = mid} r s) =
    let (before, unique) = Reach-groups db mid u r in extend before unique (Step-StepKind s)
  where
    extend :
        {mid : Db}
        → Grows GroupLater db.groups mid.groups
        → Unique (λ (g : NodeGroup). g.id) mid.groups
        → StepKind mid db'
        → Grows GroupLater db.groups db'.groups × Unique (λ (g : NodeGroup). g.id) db'.groups
    extend before unique (plain same) = (
      subst (Grows GroupLater db.groups) (sym same.groups) before,
      subst (Unique (λ (g : NodeGroup). g.id)) (sym same.groups) unique,
    )
    extend {mid} before unique (moves c) = (
      Grows-trans GroupLater GroupLater-trans db.groups mid.groups db'.groups before
          (TargetChange-Grows mid db' unique c),
      TargetChange-Unique mid db' unique c,
    )
    extend {mid} before unique (administers a) = (
      Grows-trans GroupLater GroupLater-trans db.groups mid.groups db'.groups before a.groups,
      a.unique unique,
    )

-- Over any sequence of the steps of Capacity.Steps, each node group keeps all but its template and its
-- target with the target's revision, the target's revision never falls, the target moves only where that
-- revision rises, and a target within the group's bounds stays within them. Group ids are unique at
-- the start.
pub Reach-GroupLater :
    (db db' : Db)
    → Unique (λ (g : NodeGroup). g.id) db.groups
    → Reach db db'
    → Grows GroupLater db.groups db'.groups
Reach-GroupLater db db' u r = (Reach-groups db db' u r).0
