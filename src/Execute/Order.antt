-- ===== src/Execute/Order.antt =====
-- Which action the worker fetches.
use crane_oss.Base.{
  ℕ, ◌≤◌, ◌≡◌, sym, Bool, true, eqb, arith, Result, ok, err, Option-cases, inl, inr,
}
use crane_oss.Base.Tables.{update}
use crane_oss.Base.Rows.{All}
use crane_oss.Base.Sorting.{first-sort_by-filter, first-sort_by-Least, first-sort_by-Mem}
use mathlib.Core.List.{Memᴰ}
use crane_oss.Execute.Queue.{
  ActionRow, Actions, ActionRecord, QueueError, available, created_first, start_row, scan_action,
  next_row, next_action,
}

-- The record comes from this row of the table, which is the oldest that may be fetched, and only the
-- rows of its id are started.
pub record Fetched (locked : ℕ → Bool) (now : ℕ) (q : Actions) (a : ActionRecord) (q' : Actions)
    : Type 0 where
  pub row : ActionRow
  pub stored : Memᴰ row q.rows
  pub waiting : available locked row ≡ true
  pub scanned : scan_action (start_row now row) ≡ ok a
  pub oldest :
      All (λ (r : ActionRow). available locked r ≡ true → row.created_at ≤ r.created_at) q.rows
  pub started :
      q' ≡ record q { rows = update (λ (x : ActionRow). eqb x.id row.id) (start_row now) q.rows }

-- What the worker fetches is the record of a row of the table, the oldest pending action that no other
-- worker has locked; its row is running then, with one attempt more.
pub next_action-Fetched :
    (locked : ℕ → Bool) (now : ℕ) (q : Actions) (a : ActionRecord) (q' : Actions)
    → next_action locked now q ≡ (ok a, q')
    → Fetched locked now q a q'
unfolding next_action next_row
next_action-Fetched locked now q a q' h = elim (Option-cases (next_row locked q)) [
  | inl missing ↦ absurd (no_answer (rw (missing, next_action) at h))
  | inr (r, found) ↦
      let (scanned, started) = answer (rw (found, next_action) at h) in
      record {
        row = r;
        stored = first-sort_by-Mem created_first (available locked) q.rows r found;
        waiting = first-sort_by-filter created_first (available locked) q.rows r found;
        scanned = scanned;
        oldest =
            first-sort_by-Least (λ (x : ActionRow). x.created_at) created_first
              (λ x y. ground arith) (available locked) q.rows r found;
        started = sym started;
      }
]
  where
    no_answer :
        {e : QueueError} {b : ActionRecord} {x y : Actions}
        → ◌≡◌ {A = Result QueueError ActionRecord × Actions} (err e, x) (ok b, y)
        → ⊥
    no_answer e = cc

    answer :
        {m n : Result QueueError ActionRecord} {x y : Actions}
        → ◌≡◌ {A = Result QueueError ActionRecord × Actions} (m, x) (n, y)
        → (m ≡ n) × (x ≡ y)
    answer e = (cc, cc)
