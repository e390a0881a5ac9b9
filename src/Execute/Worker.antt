-- ===== src/Execute/Worker.antt =====
-- worker.go: one round of Worker.Run, from its tick on. Logs are left out.
use crane_oss.Base.{ℕ, String, Bool, Option, none, some, Result, ok, err, if◌then◌else◌}
use crane_oss.Execute.Queue.{
  Actions, ActionType, ActionRecord, QueueError, next_action, mark_done, mark_failed,
}

-- Execute over the state of the world: an error or none, and the world that it leaves.
abbrev pub Executor : Type 0 → Type 0 → Type 0
Executor E W = String → ActionType → W → Option E × W

-- Whether the database carries out the statements of MarkFailed and of MarkDone in a round.
pub record Marks : Type 0 where
  pub marks_failed : Bool
  pub marks_done : Bool

-- After a failure the row is marked as failed, and then as done, as every row is. An error of either
-- statement is not acted on.
unfoldable pub finish : {E : Type 0} → Marks → Option E → ℕ → ℕ → Actions → Actions
finish m none now id q = if m.marks_done then mark_done now id q else q
finish m (some e) now id q =
    let marked = if m.marks_failed then mark_failed now id q else q in
    if m.marks_done then mark_done now id marked else marked

unfoldable pub round :
    {E W : Type 0} → Executor E W → Marks → (ℕ → Bool) → ℕ → Actions × W → Actions × W
round {E} {W} execute m locked now (q, w) = fetched (next_action locked now q)
  where
    fetched : Result QueueError ActionRecord × Actions → Actions × W
    fetched (err e, q') = (q', w)
    fetched (ok a, q') =
        let (failure, w') = execute a.host_id a.action w in (finish m failure now a.id q', w')
