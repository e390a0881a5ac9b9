-- ===== src/Capacity/Policy/Bounds.antt =====
-- checkReservations computes with int64 products, behind tests against their overflow. Here it is
-- compared with the limits in exact arithmetic.
use native.Mathlib.Nat.{le-div_iff_mul-le, mod-eq_of_lt}
use crane_oss.Base.{
  ℕ, ◌+◌, ◌*◌, ◌/◌, ◌≤◌, ◌<◌, ◌≡◌, true, false, ltb, ◌||◌, arith, ok, refuse_if, refuse_if-eq-ok,
  >>=-eq-ok, if◌then◌else◌,
}
use crane_oss.Api.{Resources}
use crane_oss.Capacity.Db.{limit, scan, Db}
use crane_oss.Capacity.Policy.{
  Policy, max_int64, mul64, used, check_reservations, fits_int64, exceeds,
}

-- The pool has room for so many nodes of the group.
pub record HasRoom (p : Policy) (nodes : ℕ) (u : Resources) : Type 0 where
  pub vcpu : u.vcpu + nodes * p.group.vcpu ≤ p.pool_limit.vcpu
  pub memory_mib : u.memory_mib + nodes * p.group.memory_mib ≤ p.pool_limit.memory_mib
  pub nodes_fit : u.nodes + nodes ≤ p.pool_limit.nodes

mul64-exact : (a b : ℕ) → a * b ≤ max_int64 → mul64 a b ≡ a * b
mul64-exact a b le = mod-eq_of_lt (omega (arith, le))

within :
    (spent bound : ℕ) {add : ℕ} (product : ℕ)
    → add ≡ product
    → exceeds add bound spent ≡ false
    → spent + product ≤ bound
within spent bound product e h = ground (arith, e)

-- A check that passes has not overflowed: the pool has room for the nodes in exact arithmetic. The
-- group's vcpu and memory are positive.
pub check_reservations-HasRoom :
    (p : Policy) (nodes : ℕ) (db : Db)
    → 0 < p.group.vcpu
    → 0 < p.group.memory_mib
    → check_reservations p nodes db ≡ ok tt
    → HasRoom p nodes (used p.group.node_pool_id db)
unfolding check_reservations
check_reservations-HasRoom p nodes db v m h =
    let u = used p.group.node_pool_id db in
    let wide = ltb (max_int64 / p.group.vcpu) nodes || ltb (max_int64 / p.group.memory_mib) nodes in
    let (_, narrow, h1) = >>=-eq-ok (refuse_if wide limit) _ h in
    let fitting = refuse_if-eq-ok wide limit narrow in
    let (_, _, h2) = >>=-eq-ok (refuse_if (if fits_int64 u then false else true) scan) _ h1 in
    let room = refuse_if-eq-ok _ limit h2 in
    let exact_vcpu =
      mul64-exact nodes p.group.vcpu ((le-div_iff_mul-le v).0 (ground (arith, fitting))) in
    let exact_memory =
      mul64-exact nodes p.group.memory_mib ((le-div_iff_mul-le m).0 (ground (arith, fitting))) in
    record {
      vcpu = within _ _ _ exact_vcpu (ground (arith, room));
      memory_mib = within _ _ _ exact_memory (ground (arith, room));
      nodes_fit = ground (arith, room);
    }
