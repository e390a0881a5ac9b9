-- ===== src/Capacity/Admission/Outcome.antt =====
-- What a SetTarget that succeeded has passed: the guards of the source in their order, and the
-- intermediate databases of its writes.
use crane_oss.Base.{
  ◌+◌, pos_part, ◌≡◌, ap, ◌∙◌, ◌⊎◌, inl, inr, true, false, ◌==◌, none, some, Option-cases, Result,
  ok, refuse_if, if◌then◌else◌, >>=-eq-ok,
}
use crane_oss.Api.{CapacityRequest, CapacityResult}
use crane_oss.Capacity.Db.{Error, invalid, forbidden, Db, RequestRow}
use crane_oss.Capacity.Policy.{Env, Policy, load_policy}
use crane_oss.Capacity.Admission.{
  is_malformed, find_request, replay, admissible, with_pool_limit, check_change, write_target,
  insert_request, apply_change, admit, set_target,
}

-- The successful call was a replay, or it was admitted under the group's policy.
pub data Outcome (env : Env) (req : CapacityRequest) (db : Db) (r : CapacityResult) (db' : Db)
    : Type 0 where
  replayed :
      (p : Policy) (row : RequestRow)
      → load_policy req.node_group_id db ≡ ok p
      → find_request req.node_group_id req.request_id db ≡ some row
      → replay req row db ≡ ok (r, db')
      → Outcome env req db r db'
  fresh :
      (p : Policy)
      → load_policy req.node_group_id db ≡ ok p
      → find_request req.node_group_id req.request_id db ≡ none
      → admit env req p db ≡ ok (r, db')
      → Outcome env req db r db'

pub set_target-Outcome :
    (env : Env) (req : CapacityRequest) (db : Db) (r : CapacityResult) (db' : Db)
    → set_target env req db ≡ ok (r, db')
    → Outcome env req db r db'
unfolding set_target
set_target-Outcome env req db r db' h =
    let (_, _, h1) = >>=-eq-ok (refuse_if (is_malformed req) invalid) _ h in
    let (p, policy, h2) = >>=-eq-ok (load_policy req.node_group_id db) _ h1 in
    let (_, _, h3) =
      >>=-eq-ok (refuse_if (if p.group.cluster_id == req.cluster_id then false else true) forbidden)
        _ h2 in
    split p policy h3 (Option-cases (find_request req.node_group_id req.request_id db))
  where
    split :
        (p : Policy)
        → load_policy req.node_group_id db ≡ ok p
        → (elim (find_request req.node_group_id req.request_id db)
            as (λ _. Result Error (CapacityResult × Db)) [
              | some previous ↦ replay req previous db
              | none ↦ admit env req p db
            ])
          ≡ ok (r, db')
        → (find_request req.node_group_id req.request_id db ≡ none)
          ⊎ ((row : RequestRow) × (find_request req.node_group_id req.request_id db ≡ some row))
        → Outcome env req db r db'
    split p policy h (inl missing) = fresh p policy missing (rw missing at h)
    split p policy h (inr (row, found)) = replayed p row policy found (rw found at h)

-- The writes of an admission, one after another; `priced` is the policy with the pool's limits as
-- they were read again.
pub record Admitted (env : Env) (req : CapacityRequest) (p : Policy) (db : Db) (r : CapacityResult)
    (db' : Db) : Type 0 where
  pub guards : admissible req p ≡ ok tt
  pub priced : Policy
  pub limits : with_pool_limit p db ≡ ok priced
  pub change : check_change priced (pos_part req.desired_target) db ≡ ok tt
  pub recorded : Db
  pub inserted :
      insert_request
        (record { id = env.uuid 0; request = req; result_revision = p.group.target_revision + 1 })
        db
      ≡ ok recorded
  pub applied :
      apply_change env priced (pos_part req.desired_target) (p.group.target_revision + 1) (
        write_target req.node_group_id
          (pos_part req.desired_target)
          (p.group.target_revision + 1)
          recorded)
      ≡ ok db'
  pub result : r ≡ record {
    request_id = req.request_id;
    node_group_id = req.node_group_id;
    target_nodes = pos_part req.desired_target;
    target_revision = p.group.target_revision + 1;
  }

pub admit-Admitted :
    (env : Env) (req : CapacityRequest) (p : Policy) (db : Db) (r : CapacityResult) (db' : Db)
    → admit env req p db ≡ ok (r, db')
    → Admitted env req p db r db'
unfolding admit
admit-Admitted env req p db r db' h =
    let desired = pos_part req.desired_target in
    let revision = p.group.target_revision + 1 in
    let (_, g, h1) = >>=-eq-ok (admissible req p) _ h in
    let (p', pl, h2) = >>=-eq-ok (with_pool_limit p db) _ h1 in
    let (_, c, h3) = >>=-eq-ok (check_change p' desired db) _ h2 in
    let (mid, i, h4) =
      >>=-eq-ok
        (insert_request (record { id = env.uuid 0; request = req; result_revision = revision }) db)
        _ h3 in
    let (last, a, h5) =
      >>=-eq-ok
        (apply_change env p' desired revision (write_target req.node_group_id desired revision mid))
        _ h4 in
    record {
      guards = g;
      priced = p';
      limits = pl;
      change = c;
      recorded = mid;
      inserted = i;
      applied = a ∙ ap ok (second h5);
      result = first h5;
    }
  where
    first :
        {a b : CapacityResult} {c d : Db}
        → ◌≡◌ {A = Result Error (CapacityResult × Db)} (ok (a, c)) (ok (b, d))
        → b ≡ a
    first e = cc

    second :
        {a b : CapacityResult} {c d : Db}
        → ◌≡◌ {A = Result Error (CapacityResult × Db)} (ok (a, c)) (ok (b, d))
        → c ≡ d
    second e = cc
