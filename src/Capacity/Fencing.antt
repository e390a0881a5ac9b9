-- ===== src/Capacity/Fencing.antt =====
-- store.go, the fences of operations: a worker's hold after another claim of its operation.
pub mod Refusals
pub mod Worker
use crane_oss.Base.{
  ℕ, zero, suc, ◌+◌, ◌≤◌, ◌<◌, String, ℤ, ◌≡◌, ◌≢◌, refl, ap, sym, ◌∙◌, subst, Bool, true, false,
  ◌==◌, eq_iff, eq_refl, ◌&&◌, ◌||◌, ltb, leb, eqb, Option, none, some, List, [], ◌∷◌, ◌++◌, arith,
  Bool-cases, inl, inr, Result, ok, err, ◌>>=◌, refuse_if, or_fail, if◌then◌else◌, >>=-eq-ok,
  or_fail-eq-ok,
}
use crane_oss.Base.Tables.{any, update, filter, count, find, sort_by}
use crane_oss.Base.Rows.{
  any_mono, All, All-map, All-snoc, Unique, Unique-any, any-snoc, count-none, any-none, find-none,
  Grows, Grows-refl, Grows-trans, Grows-append, Grows-update, Unique-snoc, Unique-update,
}
use crane_oss.Base.Sorting.{first, first-sort_by-filter, any-first-sort_by}
use crane_oss.Api.{Operation}
use crane_oss.Capacity.Db.{Error, no_rows, invalid_lease, Db, OperationRow}
use crane_oss.Capacity.Policy.{Env}
use crane_oss.Capacity.Intents.{operation_clash}
use crane_oss.Capacity.Leases.{
  Claim, claim, claim_row, next_claim, held_operation, bad_duration, claimable, oldest_first, holds,
}
use crane_oss.Capacity.Operations.{
  Later, Later-refl, Later-trans, Evolves, same, updated, inserted, trans,
}

-- The operation is in the table, and each of its rows has at least this fence.
pub record FencedFrom (id : String) (fence : ℕ) (rows : List OperationRow) : Type 0 where
  pub known : any (λ (o : OperationRow). o.id == id) rows ≡ true
  pub fence_le : All (λ (o : OperationRow). o.id ≡ id → fence ≤ o.fence) rows

known_update :
    (id : String) (p : OperationRow → Bool) (f : OperationRow → OperationRow)
    → ((x : OperationRow) → Later x (f x))
    → (rows : List OperationRow) → any (λ (o : OperationRow). o.id == id) rows ≡ true
    → any (λ (o : OperationRow). o.id == id) (update p f rows) ≡ true
known_update id p f l [] h = cc
known_update id p f l (x ∷ xs) h = ground (arith, (l x).intent.id, known_update id p f l xs)

fence_le_update :
    (id : String) (k : ℕ) (p : OperationRow → Bool) (f : OperationRow → OperationRow)
    → ((x : OperationRow) → Later x (f x))
    → (rows : List OperationRow) → All (λ (o : OperationRow). o.id ≡ id → k ≤ o.fence) rows
    → All (λ (o : OperationRow). o.id ≡ id → k ≤ o.fence) (update p f rows)
fence_le_update id k p f l [] a = tt
fence_le_update id k p f l (x ∷ xs) a = (
  elim (Bool-cases (p x)) [
    | inl e ↦ rw e (λ same_id. omega (arith, (l x).fence_le, a.0 (sym (l x).intent.id ∙ same_id)))
    | inr e ↦ rw e a.0
  ],
  fence_le_update id k p f l xs a.1,
)

-- A new row has another id than every known one.
new_id :
    (id : String) (n : OperationRow) (rows : List OperationRow)
    → any (operation_clash n) rows ≡ false
    → any (λ (o : OperationRow). o.id == id) rows ≡ true
    → n.id ≢ id
new_id id n [] c h e = cc
new_id id n (x ∷ xs) c h e = ground (arith, eq_iff x.id n.id, eq_iff x.id id, new_id id n xs)

pub Evolves-FencedFrom :
    (id : String) (fence : ℕ) {xs ys : List OperationRow}
    → Evolves xs ys
    → FencedFrom id fence xs
    → FencedFrom id fence ys
Evolves-FencedFrom id k (same e) s = subst (FencedFrom id k) (sym e) s
Evolves-FencedFrom id k (updated {xs = xs} p f l e) s = subst (FencedFrom id k) (sym e) (record {
  known = known_update id p f l xs s.known;
  fence_le = fence_le_update id k p f l xs s.fence_le;
})
Evolves-FencedFrom id k (inserted {xs = xs} n c e) s = subst (FencedFrom id k) (sym e) (record {
  known = any-snoc _ xs n s.known;
  fence_le = All-snoc _ xs n s.fence_le (λ same_id. absurd (new_id id n xs c s.known same_id));
})
Evolves-FencedFrom id k (trans a b) s = Evolves-FencedFrom id k b (Evolves-FencedFrom id k a s)

-- The row that a claim chose, and its effect.
pub record Claimed (env : Env) (c : Claim) (locked : String → Bool) (db : Db) (op : Operation)
    (db' : Db) : Type 0 where
  pub row : OperationRow
  pub chosen : next_claim env c locked db ≡ some row
  pub held : op ≡ held_operation c env.now (claim_row env c db row)
  pub after : db' ≡ record db {
    operations = update (λ (r : OperationRow). r.id == row.id) (claim_row env c db) db.operations;
  }

pub claim-Claimed :
    (env : Env) (c : Claim) (locked : String → Bool) (db : Db) (op : Operation) (db' : Db)
    → claim env c locked db ≡ ok (op, db')
    → Claimed env c locked db op db'
unfolding claim
claim-Claimed env c locked db op db' h =
    let (_, _, h1) =
      >>=-eq-ok
        (refuse_if (c.zone_id == "" || c.owner == "" || bad_duration c.duration) invalid_lease) _
        h in
    let (o, found, h2) = >>=-eq-ok (or_fail (next_claim env c locked db) no_rows) _ h1 in
    record {
      row = o;
      chosen = or_fail-eq-ok (next_claim env c locked db) no_rows o found;
      held = ground (arith, h2);
      after = ground (arith, h2);
    }

raise :
    (env : Env) (c : Claim) (db : Db) (id : String) (k : ℕ) (rows : List OperationRow)
    → All (λ (o : OperationRow). o.id ≡ id → k ≤ o.fence) rows
    → All
        (λ (o : OperationRow). o.id ≡ id → k + 1 ≤ o.fence)
        (update (λ (r : OperationRow). r.id == id) (claim_row env c db) rows)
raise env c db id k [] a = tt
raise env c db id k (x ∷ xs) a = (
  elim (Bool-cases (x.id == id)) [
    | inl e ↦ rw e (λ same_id. omega (arith, a.0 ((eq_iff x.id id).0 e)))
    | inr e ↦ rw e (λ same_id. ground (arith, eq_iff x.id id))
  ],
  raise env c db id k xs a.1,
)

-- A claim raises the fence of its operation by one.
pub claim-FencedFrom :
    (env : Env) (c : Claim) (locked : String → Bool) (db : Db) (op : Operation) (db' : Db) (k : ℕ)
    → Claimed env c locked db op db'
    → FencedFrom op.id k db.operations
    → FencedFrom op.id (k + 1) db'.operations
claim-FencedFrom env c locked db op db' k a s =
    subst (λ (d : Db). FencedFrom op.id (k + 1) d.operations) (sym a.after)
      (subst
        (λ id.
          FencedFrom id (k + 1)
            (update (λ (r : OperationRow). r.id == a.row.id) (claim_row env c db) db.operations))
        (ap (λ (o : Operation). o.id) (sym a.held))
        (record {
          known =
              known_update a.row.id _ (claim_row env c db) (λ x. ground arith) db.operations
                old.known;
          fence_le = raise env c db a.row.id k db.operations old.fence_le;
        }))
  where
    old : FencedFrom a.row.id k db.operations
    old = subst (λ id. FencedFrom id k db.operations) (ap (λ (o : Operation). o.id) a.held) s

-- Where ids are unique, the claimed operation's rows have exactly the fence that the claim read.
pub claim-known :
    (env : Env) (c : Claim) (locked : String → Bool) (db : Db) (op : Operation) (db' : Db)
    → Unique (λ (o : OperationRow). o.id) db.operations
    → Claimed env c locked db op db'
    → FencedFrom op.id op.fence db'.operations
claim-known env c locked db op db' u a =
    subst (λ k. FencedFrom op.id k db'.operations) (ap (λ (o : Operation). o.fence) (sym a.held))
      (claim-FencedFrom env c locked db op db' a.row.fence a (
        subst (λ id. FencedFrom id a.row.fence db.operations)
          (ap (λ (o : Operation). o.id) (sym a.held))
          (record {
            known = any_row (λ o. o.id == a.row.id) (eq_refl a.row.id);
            fence_le =
                All-map (λ (o : OperationRow). o.id ≡ a.row.id → leb_fence o ≡ true) _
                  (λ o h e. ground (arith, h e)) db.operations
                  (Unique-any (λ (o : OperationRow). o.id) a.row.id leb_fence db.operations u
                    (any_row (λ o. o.id == a.row.id && leb_fence o)
                      (ground (arith, eq_refl a.row.id))));
          })))
  where
    leb_fence : OperationRow → Bool
    leb_fence o = leb a.row.fence o.fence

    any_row : (q : OperationRow → Bool) → q a.row ≡ true → any q db.operations ≡ true
    any_row q h =
        any_mono _ q (λ x e. ground arith) db.operations
          (any-first-sort_by (oldest_first env) (claimable c locked env.now db) q db.operations
            a.row (unfold next_claim in a.chosen) h)

-- A worker that holds an older fence holds no row.
abbrev pub Stale : Operation → Db → Type 0
Stale op db = FencedFrom op.id (op.fence + 1) db.operations

pub Stale-holds :
    (op : Operation) (db : Db)
    → Stale op db
    → (now : ℕ) → All (λ o. holds op now o ≡ false) db.operations
Stale-holds op db s now =
    All-map (λ (o : OperationRow). o.id ≡ op.id → op.fence + 1 ≤ o.fence) _ (λ o h. miss o h)
      db.operations s.fence_le
  where
    miss : (o : OperationRow) → (o.id ≡ op.id → op.fence + 1 ≤ o.fence) → holds op now o ≡ false
    miss o h = elim (Bool-cases (o.id == op.id)) [
      | inl e ↦ let le = h ((eq_iff o.id op.id).0 e) in ground arith
      | inr e ↦ rw e
    ]
