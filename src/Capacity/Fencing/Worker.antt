-- ===== src/Capacity/Fencing/Worker.antt =====
-- provision_worker.go: the step of a worker with an outdated fence.
use crane_oss.Base.{
  String, ◌≡◌, refl, Bool, true, false, Option, none, some, Result, ok, err, inl, inr, Option-cases,
  arith, ◌==◌,
}
use crane_oss.Base.Tables.{find}
use crane_oss.Api.{
  Operation, HostState, requested, provisioning, booting, registering, converging, ready,
}
use crane_oss.Capacity.Db.{Error, Db, Host}
use crane_oss.Capacity.Worker.{
  Surroundings, retryable, launch_stage, enrollment_stage, readiness_stage, advance_from, advance,
}
use crane_oss.Capacity.Fencing.{Stale}
use crane_oss.Capacity.Fencing.Refusals.{
  begin_launch-Stale, record_failure-Stale, release-Stale, set_state-Stale, prepare-Stale,
  complete-Stale,
}

module _ (step : Surroundings) (op : Operation) (db : Db) (s : Stale op db) where
  retryable-Stale :
      (category : String) (cause : Error) → (retryable step op category cause db).1 ≡ db
  unfolding retryable
  retryable-Stale category cause =
      ground (arith, record_failure-Stale op db s category step.byte_length (step.clock 4))

  launch-Stale : (b : Bool) → (launch_stage step op b db).1 ≡ db
  unfolding launch_stage
  launch-Stale b = ground (arith, begin_launch-Stale op db s (step.clock 0))

  enrollment-Stale : (h : Host) → (enrollment_stage step op h db).1 ≡ db
  unfolding enrollment_stage
  enrollment-Stale h = enrolled (step.executor.enroll_and_join op h) refl
    where
      enrolled :
          (o : Option Error)
          → step.executor.enroll_and_join op h ≡ o
          → (enrollment_stage step op h db).1 ≡ db
      enrolled (some e) found = rw (found, enrollment_stage) (retryable-Stale "host_enrollment" e)
      enrolled none found =
          rw (found, enrollment_stage)
            (ground (arith, set_state-Stale op db s registering converging (step.clock 2)))

  readiness-Stale : (h : Host) → (readiness_stage step op h db).1 ≡ db
  unfolding readiness_stage
  readiness-Stale h = answered (step.executor.is_ready op h) refl
    where
      answered :
          (r : Result Error Bool)
          → step.executor.is_ready op h ≡ r
          → (readiness_stage step op h db).1 ≡ db
      answered (err e) found = rw (found, readiness_stage) (retryable-Stale "readiness_check" e)
      answered (ok true) found =
          rw (found, readiness_stage)
            (ground (arith, prepare-Stale op db s h.desired_state_version (step.clock 1)))
      answered (ok false) found =
          rw (found, readiness_stage) (ground (arith, release-Stale op db s (step.clock 3)))

  advance_from-Stale : (state : HostState) (h : Host) → (advance_from step op state h db).1 ≡ db
  unfolding advance_from
  advance_from-Stale requested h = launch-Stale true
  advance_from-Stale provisioning h = launch-Stale false
  advance_from-Stale booting h =
      ground (arith, set_state-Stale op db s booting registering (step.clock 1))
  advance_from-Stale registering h = enrollment-Stale h
  advance_from-Stale converging h = readiness-Stale h
  advance_from-Stale ready h = ground (arith, complete-Stale op db s (step.clock 0))
  advance_from-Stale _ h = refl

  -- Whatever stage the host has reached and whatever the provider answers, the step of a worker
  -- with an outdated fence changes no table.
  pub advance-Stale : (advance step op db).1 ≡ db
  unfolding advance
  advance-Stale = elim (Option-cases (find (λ (h : Host). h.id == op.host_id) db.hosts)) [
    | inl missing ↦ rw (missing, advance)
    | inr (h, found) ↦ rw (found, advance) (advance_from-Stale h.state h)
  ]
