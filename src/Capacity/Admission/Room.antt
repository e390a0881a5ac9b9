-- ===== src/Capacity/Admission/Room.antt =====
-- A SetTarget that raises a target, against the limits of the pool.
use crane_oss.Base.{ℕ, ◌-◌, ◌<◌, ◌≡◌, ap, sym, subst, ◌∙◌, pos_part, none, some, arith, Result, ok}
use crane_oss.Api.{CapacityRequest, CapacityResult}
use crane_oss.Capacity.Db.{Error, Db, NodeGroup, RequestRow}
use crane_oss.Capacity.Policy.{Env, Policy, load_policy, check_reservations, used}
use crane_oss.Capacity.Policy.Bounds.{HasRoom, check_reservations-HasRoom}
use crane_oss.Capacity.Admission.{find_request, with_pool_limit, check_change, set_target}
use crane_oss.Capacity.Admission.Outcome.{
  Outcome, replayed, fresh, Admitted, admit-Admitted, set_target-Outcome,
}

with_pool_limit-group : (p q : Policy) (db : Db) → with_pool_limit p db ≡ ok q → q.group ≡ p.group
unfolding with_pool_limit
with_pool_limit-group p q db h = ground arith

raised :
    (p : Policy) (desired : ℕ) (db : Db)
    → p.group.target_nodes < desired
    → check_change p desired db ≡ ok tt
    → check_reservations p (desired - p.group.target_nodes) db ≡ ok tt
unfolding check_change
raised p desired db more h = ground (arith, h)

-- A SetTarget that is admitted for the first time and raises the target has found room in the
-- group's pool for every node that it adds, on top of all reservations held in the pool, in exact
-- arithmetic. The group's vcpu and memory are positive.
pub set_target-HasRoom :
    (env : Env) (req : CapacityRequest) (db : Db) (r : CapacityResult) (db' : Db) (p q : Policy)
    → set_target env req db ≡ ok (r, db')
    → find_request req.node_group_id req.request_id db ≡ none
    → load_policy req.node_group_id db ≡ ok p
    → with_pool_limit p db ≡ ok q
    → 0 < p.group.vcpu
    → 0 < p.group.memory_mib
    → p.group.target_nodes < pos_part req.desired_target
    → HasRoom q (pos_part req.desired_target - p.group.target_nodes) (used p.group.node_pool_id db)
set_target-HasRoom env req db r db' p q h missing policy limits v m more =
    outcome (set_target-Outcome env req db r db' h)
  where
    same_ok : {a b : Policy} → ◌≡◌ {A = Result Error Policy} (ok a) (ok b) → a ≡ b
    same_ok e = cc

    room :
        (p' : Policy)
        → p' ≡ p
        → Admitted env req p' db r db'
        → HasRoom q
            (pos_part req.desired_target - p.group.target_nodes)
            (used p.group.node_pool_id db)
    room p' e a =
        let priced : (a.priced ≡ q) =
          same_ok (sym a.limits ∙ ap (λ (x : Policy). with_pool_limit x db) e ∙ limits) in
        let group = with_pool_limit-group p q db limits in
        let change : (check_change q (pos_part req.desired_target) db ≡ ok tt) =
          subst (λ (x : Policy). check_change x (pos_part req.desired_target) db ≡ ok tt) priced
            a.change in
        subst
          (λ (g : NodeGroup).
            HasRoom q (pos_part req.desired_target - g.target_nodes) (used g.node_pool_id db))
          group
          (check_reservations-HasRoom q (pos_part req.desired_target - q.group.target_nodes) db
            (subst (λ (g : NodeGroup). 0 < g.vcpu) (sym group) v)
            (subst (λ (g : NodeGroup). 0 < g.memory_mib) (sym group) m)
            (raised q (pos_part req.desired_target) db
              (subst (λ (g : NodeGroup). g.target_nodes < pos_part req.desired_target) (sym group)
                more)
              change))

    outcome :
        Outcome env req db r db'
        → HasRoom q
            (pos_part req.desired_target - p.group.target_nodes)
            (used p.group.node_pool_id db)
    outcome (replayed p' row _ found e) = absurd (clash (sym missing ∙ found))
      where
        clash : {x : RequestRow} → none ≡ some x → ⊥
        clash e = cc
    outcome (fresh p' loaded _ e) =
        room p' (same_ok (sym loaded ∙ policy)) (admit-Admitted env req p' db r db' e)
