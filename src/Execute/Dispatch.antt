-- ===== src/Execute/Dispatch.antt =====
-- What the worker does to the queue, over one round and over any run of the system.
use crane_oss.Base.{
  ℕ, ◌≡◌, refl, sym, subst, Bool, true, false, Option, none, some, List, [], ◌∷◌, arith, eqb,
  Result, ok, err, Bool-cases, Option-cases, inl, inr,
}
use crane_oss.Base.Tables.{filter, update}
use crane_oss.Base.Rows.{All, All-snoc, All-update, Grows, Grows-refl, Grows-trans, Grows-update}
use crane_oss.Base.Sorting.{All-sort_by, All-first}
use crane_oss.Execute.Queue.{
  ActionStatus, failed, done, running, ActionRequest, ActionRow, Actions, ActionRecord, QueueError,
  null_provider, enqueue, available, created_first, next_row, start_row, next_action, mark_done,
  mark_failed,
}
use crane_oss.Execute.Worker.{Executor, Marks, finish, round}

-- Every row was written without a provider.
abbrev pub NoProvider : ActionRow → Type 0
NoProvider r = r.provider ≡ none

-- What happens to the queue: an action is enqueued, or the worker makes a round.
pub data Event : Type 0 where
  enqueues : ActionRequest → ℕ → Event
  rounds : Marks → (ℕ → Bool) → ℕ → Event

unfoldable pub run : {E W : Type 0} → Executor E W → List Event → Actions × W → Actions × W
run execute [] s = s
run execute (enqueues a now ∷ es) (q, w) = run execute es (enqueue a now q, w)
run execute (rounds m locked now ∷ es) s = run execute es (round execute m locked now s)

All-filtered :
    (P : ActionRow → Type 0) (p : ActionRow → Bool) (xs : List ActionRow)
    → All P xs
    → All P (filter p xs)
All-filtered P p [] a = tt
All-filtered P p (x ∷ xs) a = elim (Bool-cases (p x)) [
  | inl e ↦ rw e (a.0, All-filtered P p xs a.1)
  | inr e ↦ rw e (All-filtered P p xs a.1)
]

next_row-NoProvider :
    (locked : ℕ → Bool) (q : Actions) (r : ActionRow)
    → All NoProvider q.rows
    → next_row locked q ≡ some r
    → r.provider ≡ none
unfolding next_row
next_row-NoProvider locked q r a h =
    All-first NoProvider _ r
      (All-sort_by NoProvider created_first _ (All-filtered NoProvider (available locked) q.rows a))
      h

-- Next fails, and the rows stay without a provider.
record Unscannable (locked : ℕ → Bool) (now : ℕ) (q : Actions) : Type 0 where
  error : QueueError
  left : Actions
  answer : next_action locked now q ≡ (err error, left)
  rows_none : All NoProvider left.rows

next_action-Unscannable :
    (locked : ℕ → Bool) (now : ℕ) (q : Actions) → All NoProvider q.rows → Unscannable locked now q
unfolding next_action
next_action-Unscannable locked now q a = elim (Option-cases (next_row locked q)) [
  | inl missing ↦ record {
    error = QueueError.no_rows;
    left = q;
    answer = rw (missing, next_action) refl;
    rows_none = a;
  }
  | inr (r, found) ↦ record {
    error = null_provider;
    left = record q { rows = update (λ (x : ActionRow). eqb x.id r.id) (start_row now) q.rows };
    answer = rw (found, next_action, next_row-NoProvider locked q r a found) refl;
    rows_none = All-update NoProvider _ (start_row now) (λ x e h. h) q.rows a;
  }
]

round-NoProvider :
    {E W : Type 0} (execute : Executor E W) (m : Marks) (locked : ℕ → Bool) (now : ℕ) (q : Actions)
    (w : W)
    → All NoProvider q.rows
    → (q' : Actions) × (round execute m locked now (q, w) ≡ (q', w)) × All NoProvider q'.rows
unfolding round
round-NoProvider execute m locked now q w a =
    let u = next_action-Unscannable locked now q a in (u.left, rw u.answer, u.rows_none)

-- Where no row of the queue has a provider, as where the queue is empty, the executor is never called:
-- whatever is enqueued from then on and however many rounds the worker makes, the world is left as
-- it was.
pub run-world :
    {E W : Type 0} (execute : Executor E W) (events : List Event) (q : Actions) (w : W)
    → All NoProvider q.rows
    → (run execute events (q, w)).1 ≡ w
unfolding run enqueue
run-world {E} {W} execute [] q w a = refl
run-world {E} {W} execute (enqueues x now ∷ es) q w a =
    run-world execute es (enqueue x now q) w (All-snoc NoProvider q.rows _ a refl)
run-world {E} {W} execute (rounds m locked now ∷ es) q w a =
    let (q', e, a') = round-NoProvider execute m locked now q w a in
    subst (λ (s : Actions × W). (run execute es s).1 ≡ w) (sym e) (run-world execute es q' w a')

abbrev pub is_failed : ActionStatus → Bool
is_failed failed = true
is_failed _ = false

-- The row is not failed after, unless it was before.
abbrev pub NotFailedAnew : ActionRow → ActionRow → Type 0
NotFailedAnew x y = is_failed y.status ≡ true → is_failed x.status ≡ true

finish-Grows :
    {E : Type 0} (m : Marks) (failure : Option E) (now id : ℕ) (q : Actions)
    → m.marks_done ≡ true
    → Grows NotFailedAnew q.rows (finish m failure now id q).rows
unfolding finish mark_done mark_failed
finish-Grows m none now id q d = rw d (
    Grows-update NotFailedAnew (λ (x : ActionRow). eqb x.id id)
      (λ x. record x { status = done; updated_at = some now }) (λ x h. h) (λ x e. not_done) q.rows)
  where
    not_done : {b : Bool} → is_failed done ≡ true → b ≡ true
    not_done h = cc
finish-Grows m (some e) now id q d = elim (Bool-cases m.marks_failed) [
  | inl f ↦ rw (d, f) (both q.rows)
  | inr f ↦ rw (d, f) (once q.rows)
]
  where
    settle : ActionStatus → ActionRow → ActionRow
    settle s x = record x { status = s; updated_at = some now }

    same_id : ActionRow → Bool
    same_id x = eqb x.id id

    once : (rows : List ActionRow) → Grows NotFailedAnew rows (update same_id (settle done) rows)
    once [] = tt
    once (x ∷ xs) =
        (elim (Bool-cases (same_id x)) [ inl e ↦ ground arith | inr e ↦ ground arith ], once xs)

    both :
        (rows : List ActionRow)
        → Grows NotFailedAnew rows
            (update same_id (settle done) (update same_id (settle failed) rows))
    both [] = tt
    both (x ∷ xs) =
        (elim (Bool-cases (same_id x)) [ inl e ↦ ground arith | inr e ↦ ground arith ], both xs)

next_action-Grows :
    (locked : ℕ → Bool) (now : ℕ) (q : Actions)
    → Grows NotFailedAnew q.rows (next_action locked now q).1.rows
unfolding next_action
next_action-Grows locked now q = elim (Option-cases (next_row locked q)) [
  | inl missing ↦ rw (missing, next_action) (Grows-refl NotFailedAnew (λ x h. h) q.rows)
  | inr (r, found) ↦
      rw (found, next_action)
        (Grows-update NotFailedAnew (λ (x : ActionRow). eqb x.id r.id) (start_row now) (λ x h. h)
          (λ x e. not_running) q.rows)
]
  where
    not_running : {b : Bool} → is_failed running ≡ true → b ≡ true
    not_running h = cc

-- Where the database carries out MarkDone, no round leaves a row failed that was not failed before,
-- whether the action succeeds or not.
pub round-not_failed :
    {E W : Type 0} (execute : Executor E W) (m : Marks) (locked : ℕ → Bool) (now : ℕ) (q : Actions)
    (w : W)
    → m.marks_done ≡ true
    → Grows NotFailedAnew q.rows (round execute m locked now (q, w)).0.rows
unfolding round
round-not_failed execute m locked now q w d = answered (next_action locked now q) refl
  where
    fetched :
        (a : Result QueueError ActionRecord) (q' : Actions)
        → next_action locked now q ≡ (a, q')
        → Grows NotFailedAnew q.rows q'.rows
    fetched a q' e =
        subst
          (λ (n : Result QueueError ActionRecord × Actions). Grows NotFailedAnew q.rows n.1.rows) e
          (next_action-Grows locked now q)

    answered :
        (n : Result QueueError ActionRecord × Actions)
        → next_action locked now q ≡ n
        → Grows NotFailedAnew q.rows (round execute m locked now (q, w)).0.rows
    answered (err x, q') e = rw (e, round) (fetched (err x) q' e)
    answered (ok a, q') e =
        rw (e, round)
          (Grows-trans NotFailedAnew (λ x y z f g h. f (g h)) q.rows q'.rows _ (fetched (ok a) q' e)
            (finish-Grows m (execute a.host_id a.action w).0 now a.id q' d))
