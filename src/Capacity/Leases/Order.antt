-- ===== src/Capacity/Leases/Order.antt =====
-- Which operation a claim takes.
use crane_oss.Base.{◌≤◌, ◌≡◌, Bool, true, String, some, arith, ok}
use crane_oss.Base.Tables.{filter, sort_by}
use crane_oss.Base.Rows.{All}
use crane_oss.Base.Sorting.{first, first-sort_by-filter, first-sort_by-Least, first-sort_by-Mem}
use crane_oss.Api.{Operation}
use crane_oss.Capacity.Db.{Db, OperationRow}
use crane_oss.Capacity.Policy.{Env}
use crane_oss.Capacity.Leases.{
  Claim, claimable, oldest_first, next_claim, claim, claim_row, held_operation,
}
use mathlib.Core.List.{Memᴰ}
use crane_oss.Capacity.Fencing.{claim-Claimed}

-- A claim that succeeds returns, with the raised fence and the new lease, a row of the table of the asked
-- zone and kind that may be claimed and that no other transaction has locked, and no such row of the
-- table was created before it.
pub claim-oldest :
    (env : Env) (c : Claim) (locked : String → Bool) (db : Db) (op : Operation) (db' : Db)
    → claim env c locked db ≡ ok (op, db')
    → (row : OperationRow) × Memᴰ row db.operations
      × (op ≡ held_operation c env.now (claim_row env c db row))
      × (claimable c locked env.now db row ≡ true)
      × All
          (λ (o : OperationRow).
            claimable c locked env.now db o ≡ true → row.created_at ≤ o.created_at)
          db.operations
claim-oldest env c locked db op db' h =
    let a = claim-Claimed env c locked db op db' h in
    let chosen : (first
          (sort_by (oldest_first env) (filter (claimable c locked env.now db) db.operations))
        ≡ some a.row) =
      (unfold next_claim in a.chosen) in
    (
      a.row,
      first-sort_by-Mem (oldest_first env) (claimable c locked env.now db) db.operations a.row
          chosen,
      a.held,
      first-sort_by-filter (oldest_first env) (claimable c locked env.now db) db.operations a.row
          chosen,
      first-sort_by-Least (λ (o : OperationRow). o.created_at) (oldest_first env)
          (λ x y. ground arith) (claimable c locked env.now db) db.operations a.row chosen,
    )
