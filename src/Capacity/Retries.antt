-- ===== src/Capacity/Retries.antt =====
-- A client that repeats a capacity request, because an answer was lost or for any other reason.
use mathlib.Core.Option.{some-injective}
use mathlib.Core.List.{append-nil, append_assoc}
use crane_oss.Base.{
  ◌+◌, String, pos, negsuc, ℤ, ◌≡◌, refl, ap, sym, subst, ◌∙◌, Bool, true, false, ◌&&◌, ◌==◌,
  eq_iff, eq_refl, none, some, List, [], ◌∷◌, ◌++◌, arith, Bool-cases, inl, inr, ok, err, refuse_if,
  refuse_if-eq-ok, or_fail, or_fail-eq-ok, >>=-eq-ok, if◌then◌else◌,
}
use crane_oss.Base.Tables.{find}
use crane_oss.Base.Rows.{Grows, Unique}
use crane_oss.Api.{CapacityRequest, CapacityResult}
use crane_oss.Capacity.Db.{
  invalid, forbidden, no_rows, replay_mismatch, Db, NodeGroup, RequestRow, NodePool, Zone, Cluster,
}
use crane_oss.Capacity.Policy.{Env, Policy, load_policy, join_policy, member_of, approved_ready}
use crane_oss.Capacity.Admission.{
  is_malformed, same_ℤ, same_request, find_request, replay, insert_request, set_target,
}
use crane_oss.Capacity.Admission.Outcome.{
  Outcome, replayed, fresh, Admitted, admit-Admitted, set_target-Outcome,
}
use crane_oss.Capacity.Steps.{Step, Reach, here, onward, sets_target}
use crane_oss.Capacity.Frame.{apply_change-SamePolicy}
use crane_oss.Capacity.Groups.{GroupLater}
use crane_oss.Capacity.Administration.{TopologyKept, SameTopology-TopologyKept, TopologyKept-trans}
use crane_oss.Capacity.Targets.{
  StepKind, plain, moves, administers, Step-StepKind, Reach-GroupLater,
}

-- The rows of the topology go on to be found, and requests are only added.
pub record Kept (db db' : Db) : Type 0 where
  pub topology : TopologyKept db db'
  pub added : List RequestRow
  pub requests : db'.requests ≡ db.requests ++ added

Kept-refl : (db : Db) → Kept db db
Kept-refl db = record {
  topology = SameTopology-TopologyKept db db (ground arith);
  added = [];
  requests = sym (append-nil db.requests);
}

StepKind-Kept : {a b c : Db} → Kept a b → StepKind b c → Kept a c
StepKind-Kept {a} {b} {c} k (plain same) = record {
  topology = TopologyKept-trans a b c k.topology (SameTopology-TopologyKept b c same.topology);
  added = k.added;
  requests = same.requests ∙ k.requests;
}
StepKind-Kept {a} {b} {c} k (moves t) = record {
  topology = TopologyKept-trans a b c k.topology (SameTopology-TopologyKept b c t.topology);
  added = k.added ++ t.added;
  requests =
      t.requests ∙ ap (λ rs. rs ++ t.added) k.requests ∙ append_assoc a.requests k.added t.added;
}
StepKind-Kept {a} {b} {c} k (administers t) = record {
  topology = TopologyKept-trans a b c k.topology t.topology;
  added = k.added;
  requests = t.requests ∙ k.requests;
}

Reach-Kept : {db db' : Db} → Reach db db' → Kept db db'
Reach-Kept {db} here = Kept-refl db
Reach-Kept (onward r s) = StepKind-Kept (Reach-Kept r) (Step-StepKind s)

find-append {ℓ} :
    {A : Type ℓ} (p : A → Bool) (xs ys : List A) (x : A)
    → find p xs ≡ some x
    → find p (xs ++ ys) ≡ some x
find-append p [] ys x e = cc
find-append p (z ∷ xs) ys x e = ground (arith, find-append p xs ys x)

find-snoc {ℓ} :
    {A : Type ℓ} (p : A → Bool) (xs : List A) (x : A)
    → find p xs ≡ none
    → p x ≡ true
    → find p (xs ++ x ∷ []) ≡ some x
find-snoc p [] x e h = rw h
find-snoc p (z ∷ xs) x e h = ground (arith, find-snoc p xs x)

find-Grows :
    (id : String) (xs ys : List NodeGroup) (g : NodeGroup)
    → Grows GroupLater xs ys
    → find (λ (g : NodeGroup). g.id == id) xs ≡ some g
    → (y : NodeGroup) × (find (λ (g : NodeGroup). g.id == id) ys ≡ some y) × GroupLater g y
find-Grows id [] ys g l e = cc
find-Grows id (x ∷ xs) [] g l e = absurd l
find-Grows id (x ∷ xs) (y ∷ ys) g l e = elim (Bool-cases (x.id == id)) [
  | inl hit ↦
      let same_row : x ≡ g = some-injective x g (rw hit at e) in
      (
        y,
        ground (arith, ap (λ (g : NodeGroup). g.id) l.0.same),
        subst (λ (z : NodeGroup). GroupLater z y) same_row l.0,
      )
  | inr miss ↦
      let (z, found, later) = find-Grows id xs ys g l.1 (rw miss at e) in
      (z, ground (arith, l.0.same), later)
]

-- The joins depend on the group by its identity alone, and on rows that go on to be found.
join_policy-later :
    (g y : NodeGroup) (db db' : Db) (p : Policy)
    → y.id ≡ g.id
    → y.cluster_id ≡ g.cluster_id
    → y.zone_id ≡ g.zone_id
    → y.node_pool_id ≡ g.node_pool_id
    → TopologyKept db db'
    → join_policy g db ≡ ok p
    → (p' : Policy) × (join_policy y db' ≡ ok p') × (p'.group ≡ y)
unfolding join_policy
join_policy-later g y db db' p id cluster zone pool t h =
    let (n, e, h1) =
      >>=-eq-ok (or_fail (find (λ (n : NodePool). n.id == g.node_pool_id) db.pools) no_rows) _ h in
    let (z, f, h2) =
      >>=-eq-ok (or_fail (find (λ (z : Zone). z.id == g.zone_id) db.zones) no_rows) _ h1 in
    let (c, k, h3) =
      >>=-eq-ok (or_fail (find (λ (c : Cluster). c.id == g.cluster_id) db.clusters) no_rows) _ h2 in
    let (m, i, _) = >>=-eq-ok (or_fail (find (member_of g) db.memberships) no_rows) _ h3 in
    let (n', e') = t.pools g.node_pool_id n (or_fail-eq-ok _ no_rows n e) in
    let (z', f') = t.zones g.zone_id z (or_fail-eq-ok _ no_rows z f) in
    let (c', k') = t.clusters g.cluster_id c (or_fail-eq-ok _ no_rows c k) in
    let (m', i') = t.memberships g m (or_fail-eq-ok _ no_rows m i) in
    let enabled =
      y.active
      && n'.enabled
      && z'.enabled
      && z'.lifecycle_ready
      && c'.lifecycle_ready
      && approved_ready m' in
    (
      record { group = y; pool_limit = n'.limits; enabled = enabled },
      rw (pool, zone, cluster, e', f', k', i') refl,
      refl,
    )

join_policy-group : (g : NodeGroup) (db : Db) (p : Policy) → join_policy g db ≡ ok p → g ≡ p.group
unfolding join_policy
join_policy-group g db p h = ground arith

-- The policy that a later call loads is that of the same cluster.
load_policy-later :
    (id : String) (db db' : Db) (p : Policy)
    → TopologyKept db db'
    → Grows GroupLater db.groups db'.groups
    → load_policy id db ≡ ok p
    → (p' : Policy) × (load_policy id db' ≡ ok p') × (p'.group.cluster_id ≡ p.group.cluster_id)
unfolding load_policy
load_policy-later id db db' p t l h =
    let (g, e, joined) =
      >>=-eq-ok (or_fail (find (λ (g : NodeGroup). g.id == id) db.groups) no_rows) _ h in
    let (y, found, later) =
      find-Grows id db.groups db'.groups g l
        (or_fail-eq-ok (find (λ (g : NodeGroup). g.id == id) db.groups) no_rows g e) in
    let (p', again, same_group) =
      join_policy-later g y db db' p (ap (λ g. g.id) later.same) (ap (λ g. g.cluster_id) later.same)
        (ap (λ g. g.zone_id) later.same) (ap (λ g. g.node_pool_id) later.same) t joined in
    (
      p',
      rw found again,
      ap (λ (g : NodeGroup). g.cluster_id) same_group
          ∙ ap (λ (g : NodeGroup). g.cluster_id) (later.same)
          ∙ ap (λ (g : NodeGroup). g.cluster_id) (join_policy-group g db p joined),
    )

-- The row by which a successful request is recognized later, and the answer that it keeps.
record Remembered (req : CapacityRequest) (r : CapacityResult) (db : Db) : Type 0 where
  row : RequestRow
  found : find_request req.node_group_id req.request_id db ≡ some row
  same : row.request ≡ req
  answers : (db' : Db) → replay req row db' ≡ ok (r, db')

same_request_refl : (req : CapacityRequest) → same_request req req ≡ true
same_request_refl req = ground (
  arith,
  eq_refl req.node_group_id,
  eq_refl req.request_id,
  eq_refl req.cluster_id,
  eq_refl req.template_revision,
  same_ℤ_refl req.expected_target_revision,
  same_ℤ_refl req.desired_target,
)
  where
    same_ℤ_refl : (a : ℤ) → same_ℤ a a ≡ true
    same_ℤ_refl (pos n) = ground arith
    same_ℤ_refl (negsuc n) = ground arith

Admitted-Remembered :
    (env : Env) (req : CapacityRequest) (p : Policy) (db : Db) (r : CapacityResult) (db' : Db)
    → find_request req.node_group_id req.request_id db ≡ none
    → Admitted env req p db r db'
    → Remembered req r db'
unfolding find_request replay insert_request
Admitted-Remembered env req p db r db' missing a =
    let row : RequestRow = record {
      id = env.uuid 0;
      request = req;
      result_revision = p.group.target_revision + 1;
    } in
    let kept = (apply_change-SamePolicy env a.priced _ _ _ db' a.applied).requests in
    let e : (a.recorded.requests ≡ db.requests ++ row ∷ []) = ground (arith, a.inserted) in
    record {
      row = row;
      found =
          rw (kept, e)
            (find-snoc _ db.requests row missing
              (ground (arith, eq_refl req.node_group_id, eq_refl req.request_id)));
      same = refl;
      answers = λ d. rw (same_request_refl req) (ground (arith, a.result));
    }

same_ℤ-eq : (a b : ℤ) → same_ℤ a b ≡ true → a ≡ b
same_ℤ-eq (pos a) (pos b) h = ap pos (ground arith)
same_ℤ-eq (negsuc a) (negsuc b) h = ap negsuc (ground arith)
same_ℤ-eq (pos a) (negsuc b) h = cc
same_ℤ-eq (negsuc a) (pos b) h = cc

same_request-eq : (a b : CapacityRequest) → same_request a b ≡ true → a ≡ b
same_request-eq a b h = ground (
  arith,
  eq_iff a.node_group_id b.node_group_id,
  eq_iff a.request_id b.request_id,
  eq_iff a.cluster_id b.cluster_id,
  eq_iff a.template_revision b.template_revision,
  same_ℤ-eq a.expected_target_revision b.expected_target_revision,
  same_ℤ-eq a.desired_target b.desired_target,
)

replay-same :
    (req : CapacityRequest) (row : RequestRow) (db : Db) (r : CapacityResult) (db' : Db)
    → replay req row db ≡ ok (r, db')
    → row.request ≡ req
unfolding replay
replay-same req row db r db' h =
    let different = if same_request row.request req then false else true in
    let (_, g, _) = >>=-eq-ok (refuse_if different replay_mismatch) _ h in
    same_request-eq row.request req (ground (arith, refuse_if-eq-ok different replay_mismatch g))

replay-answers :
    (req : CapacityRequest) (row : RequestRow) (db : Db) (r : CapacityResult) (db' : Db)
    → replay req row db ≡ ok (r, db')
    → (db' ≡ db) × ((d : Db) → replay req row d ≡ ok (r, d))
unfolding replay
replay-answers req row db r db' h = (ground arith, λ d. ground arith)

set_target-Remembered :
    (env : Env) (req : CapacityRequest) (db : Db) (r : CapacityResult) (db' : Db)
    → set_target env req db ≡ ok (r, db')
    → Remembered req r db'
set_target-Remembered env req db r db' h = outcome (set_target-Outcome env req db r db' h)
  where
    outcome : Outcome env req db r db' → Remembered req r db'
    outcome (replayed p row _ found e) =
        let (unchanged, answers) = replay-answers req row db r db' e in
        record {
          row = row;
          found =
              subst (λ d. find_request req.node_group_id req.request_id d ≡ some row)
                (sym unchanged) found;
          same = replay-same req row db r db' e;
          answers = answers;
        }
    outcome (fresh p _ missing e) =
        Admitted-Remembered env req p db r db' missing (admit-Admitted env req p db r db' e)

set_target-guards :
    (env : Env) (req : CapacityRequest) (db : Db) (r : CapacityResult) (db' : Db)
    → set_target env req db ≡ ok (r, db')
    → (is_malformed req ≡ false)
      × (p : Policy) × (load_policy req.node_group_id db ≡ ok p)
      × ((p.group.cluster_id == req.cluster_id) ≡ true)
unfolding set_target
set_target-guards env req db r db' h =
    let (_, g, h1) = >>=-eq-ok (refuse_if (is_malformed req) invalid) _ h in
    let (p, policy, h2) = >>=-eq-ok (load_policy req.node_group_id db) _ h1 in
    let other = if p.group.cluster_id == req.cluster_id then false else true in
    let (_, c, h3) = >>=-eq-ok (refuse_if other forbidden) _ h2 in
    (
      refuse_if-eq-ok (is_malformed req) invalid g,
      p,
      policy,
      ground (arith, refuse_if-eq-ok other forbidden c),
    )

Reach-before : {a b c : Db} → Step a b → Reach b c → Reach a c
Reach-before s here = onward here s
Reach-before s (onward r t) = onward (Reach-before s r) t

found_later :
    {db₁ db₂ : Db} (req : CapacityRequest) (r : CapacityResult) (m : Remembered req r db₁)
    → Kept db₁ db₂
    → find_request req.node_group_id req.request_id db₂ ≡ some m.row
unfolding find_request
found_later {db₁} req r m k = rw k.requests (find-append _ db₁.requests k.added m.row m.found)

-- After a SetTarget has succeeded and the store has gone through any further steps of Capacity.Steps,
-- changes of templates and memberships included, the same request is answered as it was, and nothing
-- is written. Group ids are unique before it.
pub set_target-retry :
    (env env' : Env) (req : CapacityRequest) (r : CapacityResult) (db db₁ db₂ : Db)
    → Unique (λ (g : NodeGroup). g.id) db.groups
    → set_target env req db ≡ ok (r, db₁)
    → Reach db₁ db₂
    → set_target env' req db₂ ≡ ok (r, db₂)
unfolding set_target
set_target-retry env env' req r db db₁ db₂ u h later =
    let (formed, p, policy, cluster) = set_target-guards env req db r db₁ h in
    let whole = Reach-before (sets_target env req r h) later in
    let (p', policy', same_cluster) =
      load_policy-later req.node_group_id db db₂ p (Reach-Kept whole).topology
        (Reach-GroupLater db db₂ u whole) policy in
    let m = set_target-Remembered env req db r db₁ h in
    let found : (find_request req.node_group_id req.request_id db₂ ≡ some m.row) =
      found_later req r m (Reach-Kept later) in
    rw (formed, policy', same_cluster, cluster, found) (m.answers db₂)

-- A request id with which a SetTarget has succeeded in a group is refused as a mismatch for any
-- other well-formed request of the same cluster and group, after any further steps of Capacity.Steps,
-- changes of templates and memberships included. Group ids are unique before the first call.
pub set_target-reused_id :
    (env env' : Env) (req other : CapacityRequest) (r : CapacityResult) (db db₁ db₂ : Db)
    → Unique (λ (g : NodeGroup). g.id) db.groups
    → set_target env req db ≡ ok (r, db₁)
    → Reach db₁ db₂
    → is_malformed other ≡ false
    → other.node_group_id ≡ req.node_group_id
    → other.request_id ≡ req.request_id
    → other.cluster_id ≡ req.cluster_id
    → same_request req other ≡ false
    → set_target env' other db₂ ≡ err replay_mismatch
unfolding set_target replay
set_target-reused_id env env' req other r db db₁ db₂ u h later formed group id cluster differs =
    let (_, p, policy, own) = set_target-guards env req db r db₁ h in
    let whole = Reach-before (sets_target env req r h) later in
    let (p', policy', same_cluster) =
      load_policy-later req.node_group_id db db₂ p (Reach-Kept whole).topology
        (Reach-GroupLater db db₂ u whole) policy in
    let m = set_target-Remembered env req db r db₁ h in
    let found = found_later req r m (Reach-Kept later) in
    let distinct : (same_request m.row.request other ≡ false) =
      subst (λ q. same_request q other ≡ false) (sym m.same) differs in
    rw (formed, group, id, policy', same_cluster, cluster, own, found, distinct) refl
