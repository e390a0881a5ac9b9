-- ===== src/Bootstrap/Queue.antt =====
-- bootstrap_worker.go and store.go: from NextBootstrapZone to the claim of an operation.
use crane_oss.Base.{
  inl, inr, if◌then◌else◌, ℕ, ◌≤◌, String, ℤ, ◌≡◌, refl, Bool, true, false, not, ◌&&◌, ◌||◌, ◌==◌,
  eq_iff, some, arith, Option-cases, leb, ok, ok-injective, or_fail, or_fail-eq-ok, >>=-eq-ok,
}
use crane_oss.Base.Tables.{any, filter, sort_by}
use crane_oss.Base.Rows.{any_mono}
use crane_oss.Base.Sorting.{first, first-sort_by-any, any-first-sort_by}
use crane_oss.Api.{create_cluster, Operation, same_kind, is_pending, is_held}
use crane_oss.Capacity.Db.{no_rows, Db, OperationRow}
use crane_oss.Capacity.Policy.{Env}
use crane_oss.Capacity.Leases.{
  Claim, bad_duration, lease_over, claimable, oldest_first, next_claim, claim, claim_bootstrap,
}
use crane_oss.Bootstrap.Store.{
  BootstrapDb, BootstrapRow, is_final, is_runnable, lease_expired, next_bootstrap_zone,
}

leb-later : (n t u : ℕ) → t ≤ u → leb n t ≡ true → leb n u ≡ true
leb-later n t u le h = ground arith

lease_expired-later :
    (o : OperationRow) (t u : ℕ) → t ≤ u → lease_expired o t ≡ true → lease_over o u ≡ true
lease_expired-later o t u le h = elim (Option-cases o.lease) [
  | inl e ↦ rw e refl
  | inr (l, e) ↦
      let over : (leb l.until t ≡ true) = (rw e at h) in rw e (leb-later l.until t u le over)
]

abbrev asks : String → String → ℤ → Claim
asks zone_id owner d = record {
  zone_id = zone_id;
  kind = create_cluster;
  owner = owner;
  duration = d;
  authorize = false;
}

-- The two tests' terms, in their orders.
reordered :
    (kind live pending held over over_later zone busy : Bool)
    → (over ≡ true → over_later ≡ true)
    → busy ≡ false
    → ((kind && live && (pending || (held && over))) && zone) ≡ true
    → (zone && kind && (pending || (held && over_later)) && true && (if busy then false else true))
      ≡ true
reordered kind live pending held over over_later zone busy later free h = ground arith

runnable-claimable :
    (zone_id owner : String) (d : ℤ) (locked : String → Bool) (t u : ℕ) (b : BootstrapDb)
    (o : OperationRow)
    → t ≤ u
    → ((id : String) → locked id ≡ false)
    → (is_runnable t b o && (o.zone_id == zone_id)) ≡ true
    → claimable (asks zone_id owner d) locked u b.db o ≡ true
runnable-claimable zone_id owner d locked t u b o le free h =
    reordered (same_kind o.kind create_cluster)
      (any (λ (r : BootstrapRow). r.operation_id == o.id && not (is_final r.phase)) b.bootstraps)
      (is_pending o.state) (is_held o.state) (lease_expired o t) (lease_over o u)
      (o.zone_id == zone_id) (locked o.id) (lease_expired-later o t u le) (free o.id) h

next_claim-some :
    (env : Env) (c : Claim) (locked : String → Bool) (db : Db)
    → any (claimable c locked env.now db) db.operations ≡ true
    → (o : OperationRow) × (next_claim env c locked db ≡ some o)
unfolding next_claim
next_claim-some env c locked db h =
    first-sort_by-any (oldest_first env) (claimable c locked env.now db) db.operations h

claim-some :
    (env : Env) (c : Claim) (locked : String → Bool) (db : Db) (o : OperationRow)
    → (c.zone_id == "" || c.owner == "" || bad_duration c.duration) ≡ false
    → next_claim env c locked db ≡ some o
    → (out : Operation × Db) × (claim env c locked db ≡ ok out)
unfolding claim
claim-some env c locked db o g h = rw g (rw h (_, refl))

-- A zone that NextBootstrapZone names has an operation that a worker with a name can claim, then or at
-- any later time before the tables change, for a time that is not refused, where no other transaction
-- has locked its operations.
pub next_bootstrap_zone-claimed :
    (env env' : Env) (b : BootstrapDb) (zone_id owner : String) (d : ℤ) (locked : String → Bool)
    → env.now ≤ env'.now
    → next_bootstrap_zone env b ≡ ok zone_id
    → (zone_id == "" || owner == "" || bad_duration d) ≡ false
    → ((id : String) → locked id ≡ false)
    → (out : Operation × Db) × (claim_bootstrap env' zone_id create_cluster owner d locked b.db
        ≡ ok out)
unfolding next_bootstrap_zone claim_bootstrap
next_bootstrap_zone-claimed env env' b zone_id owner d locked le h g free =
    let (o, e, h1) =
      >>=-eq-ok
        (or_fail
          (first (sort_by (oldest_first env) (filter (is_runnable env.now b) b.db.operations)))
          no_rows)
        _ h in
    let found =
      any-first-sort_by (oldest_first env) (is_runnable env.now b)
        (λ (r : OperationRow). r.zone_id == zone_id) b.db.operations o (or_fail-eq-ok _ no_rows o e)
        ((eq_iff o.zone_id zone_id).1 (ok-injective _ zone_id refl h1)) in
    let (r, chosen) = next_claim-some env' (asks zone_id owner d) locked b.db (
      any_mono _ (claimable (asks zone_id owner d) locked env'.now b.db)
        (λ x. runnable-claimable zone_id owner d locked env.now env'.now b x le free)
        b.db.operations found) in
    claim-some env' (asks zone_id owner d) locked b.db r g chosen
