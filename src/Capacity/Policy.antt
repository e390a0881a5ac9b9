-- ===== src/Capacity/Policy.antt =====
-- store.go, the reads of an admission: the group's policy (loadPolicy) and the pool's reservations
-- (checkReservations). int64 columns are never negative, by CHECKs of the schema.
pub mod Bounds
use crane_oss.Base.{
  ℕ, ◌+◌, ◌*◌, ◌/◌, ◌%◌, ◌^◌, String, Bool, true, false, ◌&&◌, ◌||◌, List, ◌==◌, ltb, if◌then◌else◌,
  Result, ok, ◌>>=◌, ◌>>◌, refuse_if, or_fail,
}
use crane_oss.Base.Tables.{find, any, sum}
use crane_oss.Api.{Resources}
use crane_oss.Capacity.Db.{
  Error, limit, no_rows, scan, Db, Zone, Cluster, ClusterZone, MembershipState, AccessState,
  NodePool, NodeGroup, Reservation, ReservationState, released,
}

-- What the database server and the runtime supply: the order of texts under the collation, the key
-- image_id of a JSON document, and one call's clock and fresh UUIDs.
pub record Env : Type 0 where
  pub text_le : String → String → Bool
  pub image_id : String → String
  pub now : ℕ
  pub uuid : ℕ → String

abbrev pub max_int64 : ℕ
max_int64 = 9_223_372_036_854_775_807

-- m.lifecycle_state='ready' AND m.access_state='approved'
abbrev pub approved_ready : ClusterZone → Bool
approved_ready m = is_ready m.lifecycle_state && is_approved m.access_state
  where
    is_ready : MembershipState → Bool
    is_ready MembershipState.ready = true
    is_ready _ = false

    is_approved : AccessState → Bool
    is_approved AccessState.approved = true
    is_approved _ = false

-- The row that a join on (cluster_id, zone_id) finds.
abbrev pub member_of : NodeGroup → ClusterZone → Bool
member_of g m = m.cluster_id == g.cluster_id && m.zone_id == g.zone_id

pub record Policy : Type 0 where
  pub group : NodeGroup
  pub pool_limit : Resources
  pub enabled : Bool

-- The joins of the query, from the group's row.
unfoldable pub join_policy : NodeGroup → Db → Result Error Policy
join_policy g db = do
  p ← or_fail (find (λ (p : NodePool). p.id == g.node_pool_id) db.pools) no_rows
  z ← or_fail (find (λ (z : Zone). z.id == g.zone_id) db.zones) no_rows
  c ← or_fail (find (λ (c : Cluster). c.id == g.cluster_id) db.clusters) no_rows
  m ← or_fail (find (member_of g) db.memberships) no_rows
  ok (record {
    group = g;
    pool_limit = p.limits;
    enabled =
        g.active
        && p.enabled
        && z.enabled
        && z.lifecycle_ready
        && c.lifecycle_ready
        && approved_ready m;
  })

unfoldable pub load_policy : String → Db → Result Error Policy
load_policy id db = do
  g ← or_fail (find (λ (g : NodeGroup). g.id == id) db.groups) no_rows
  join_policy g db

-- A reservation that counts against the pool: its group belongs to it and it is not released.
abbrev pub counts_in : List NodeGroup → String → Reservation → Bool
counts_in groups pool r =
    any (λ (g : NodeGroup). g.id == r.group_id && g.node_pool_id == pool) groups && held r.state
  where
    held : ReservationState → Bool
    held released = false
    held _ = true

abbrev pub charge : List NodeGroup → String → (Reservation → ℕ) → Reservation → ℕ
charge groups pool f r = if counts_in groups pool r then f r else 0

-- The three sums of the query; `nodes` is 1 in every row.
unfoldable pub used : String → Db → Resources
used pool db = record {
  vcpu = sum (charge db.groups pool (λ r. r.vcpu)) db.reservations;
  memory_mib = sum (charge db.groups pool (λ r. r.memory_mib)) db.reservations;
  nodes = sum (charge db.groups pool (λ r. 1)) db.reservations;
}

-- A product of int64 values, as the bit pattern that the machine leaves.
abbrev pub mul64 : ℕ → ℕ → ℕ
mul64 a b = (a * b) % 2 ^ 64

-- Go writes `add > limit - used` on int64. Neither side of the difference is negative, so it cannot
-- overflow, and the comparison is that of `limit` with `used + add`.
abbrev pub exceeds : ℕ → ℕ → ℕ → Bool
exceeds add bound spent = ltb bound (spent + add)

-- Scan fails on a sum that no int64 holds.
abbrev pub fits_int64 : Resources → Bool
fits_int64 r =
    if ltb max_int64 r.vcpu || ltb max_int64 r.memory_mib || ltb max_int64 r.nodes
    then false
    else true

unfoldable pub check_reservations : Policy → ℕ → Db → Result Error (Unit {0})
check_reservations p nodes db = do
  refuse_if (ltb (max_int64 / p.group.vcpu) nodes || ltb (max_int64 / p.group.memory_mib) nodes)
      limit
  let add_vcpu = mul64 nodes p.group.vcpu
  let add_memory = mul64 nodes p.group.memory_mib
  let u = used p.group.node_pool_id db
  refuse_if (if fits_int64 u then false else true) scan
  refuse_if
      (exceeds add_vcpu p.pool_limit.vcpu u.vcpu
        || exceeds add_memory p.pool_limit.memory_mib u.memory_mib
        || exceeds nodes p.pool_limit.nodes u.nodes)
      limit
