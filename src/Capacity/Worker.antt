-- ===== src/Capacity/Worker.antt =====
-- provision_worker.go: ProvisionController advances a claimed operation by one stage. Provider
-- work is behind ProvisionExecutor; telemetry and logging are left out.
use crane_oss.Base.{
  ℕ, String, ℤ, pos, Bool, true, false, ◌||◌, Option, none, some, [], ◌∷◌, ◌==◌, if◌then◌else◌,
  Result, ok, err,
}
use crane_oss.Base.Tables.{find}
use crane_oss.Api.{
  HostState, requested, provisioning, booting, registering, converging, ready, provision, Operation,
}
use crane_oss.Capacity.Db.{Error, no_rows, non_runnable, not_configured, Db, Host}
use crane_oss.Capacity.Policy.{Env}
use crane_oss.Capacity.Leases.{
  claim_dominator, begin_launch, record_provision_failure, release_provision_lease,
}
use crane_oss.Capacity.Launch.{Net, record_launch, load_provisioning_target}
use crane_oss.Capacity.Provision.{set_provision_state, complete_provision}
use crane_oss.Capacity.Handoff.{Release, prepare_provision_release, finalize_provision}

pub record ProvisionResult : Type 0 where
  pub kubernetes_provider_id : String
  pub provider_id : String
  pub private_ip : String

-- The provider-specific work, as it answers in one step: each call may fail.
pub record ProvisionExecutor : Type 0 where
  pub launch : Operation → Result Error ProvisionResult
  pub enroll_and_join : Operation → Host → Option Error
  pub is_ready : Operation → Host → Result Error Bool
  pub release : Operation → Host → Release

-- One step's surroundings: `clock k` is the time of its statement number k, and `byte_length` is len
-- of a text.
pub record Surroundings : Type 0 where
  pub clock : ℕ → ℕ
  pub net : Net
  pub byte_length : String → ℕ
  pub json_valid : String → Bool
  pub executor : ProvisionExecutor

-- A step does several committed statements: it leaves a database behind on every outcome.
abbrev pub Action : Type 0
Action = Db → Option Error × Db

abbrev pub done : Action
done db = (none, db)

abbrev pub fail : Error → Action
fail e db = (some e, db)

-- `if err := s(db); err != nil { return err }`
abbrev pub after : (Db → Result Error Db) → Action → Action
after s k db = elim (s db) [ ok db' ↦ k db' | err e ↦ (some e, db) ]

module _ (step : Surroundings) (op : Operation) where
  -- retryable: the failure is recorded and the lease given back, before the cause is reported.
  unfoldable pub retryable : String → Error → Action
  retryable category cause =
      after (record_provision_failure op category step.byte_length (step.clock 4))
        (after (release_provision_lease op (step.clock 5)) (fail cause))

  abbrev set_state : HostState → HostState → ℕ → Db → Result Error Db
  set_state expected next k = set_provision_state op expected next (step.clock k)

  abbrev give_back : Action
  give_back = after (release_provision_lease op (step.clock 3)) done

  abbrev record_result : Result Error ProvisionResult → Action
  record_result (err e) = retryable "provider_launch" e
  record_result (ok r) =
      after
        (record_launch step.net op r.provider_id r.private_ip (r.kubernetes_provider_id ∷ [])
          (step.clock 2))
        give_back

  -- `claimed` is the host as the step read it first.
  unfoldable pub launch_stage : Bool → Action
  launch_stage is_requested = after (begin_launch op (step.clock 0)) (
      if is_requested
      then after (set_state requested provisioning 1) (record_result (step.executor.launch op))
      else record_result (step.executor.launch op))

  unfoldable pub enrollment_stage : Host → Action
  enrollment_stage h = elim (step.executor.enroll_and_join op h) [
    | some e ↦ retryable "host_enrollment" e
    | none ↦ after (set_state registering converging 2) give_back
  ]

  -- A failed release is retried; nothing of its transaction was committed.
  unfoldable pub finalize_stage : Host → Action
  finalize_stage h db =
      elim (finalize_provision (step.executor.release op h) op h.desired_state_version
        (step.clock 2) db) [ ok db' ↦ (none, db') | err e ↦ retryable "readiness_handoff" e db ]

  unfoldable pub readiness_stage : Host → Action
  readiness_stage h = elim (step.executor.is_ready op h) [
    | err e ↦ retryable "readiness_check" e
    | ok true ↦
        after (prepare_provision_release op h.desired_state_version (step.clock 1))
          (finalize_stage h)
    | ok false ↦ give_back
  ]

  unfoldable pub advance_from : HostState → Host → Action
  advance_from requested h = launch_stage true
  advance_from provisioning h = launch_stage false
  advance_from booting h = after (set_state booting registering 1) (enrollment_stage h)
  advance_from registering h = enrollment_stage h
  advance_from converging h = readiness_stage h
  advance_from ready h = after (complete_provision op (step.clock 0)) done
  advance_from _ h = fail non_runnable

  unfoldable pub advance : Action
  advance db = elim (find (λ (h : Host). h.id == op.host_id) db.hosts) [
    | none ↦ (some no_rows, db)
    | some h ↦ advance_from h.state h db
  ]

pub record ProvisionController : Type 0 where
  pub zone_id : String
  pub identity : String
  pub lease : ℤ

-- A lease of 0 is two minutes, in nanoseconds.
abbrev lease_or_default : ℤ → ℤ
lease_or_default (pos ℕ.zero) = pos 120_000_000_000
lease_or_default d = d

-- RunOnce: no claimable operation is no error. The renewals that withLease makes beside the step
-- are left out.
unfoldable pub run_once : ProvisionController → Env → (String → Bool) → Surroundings → Action
run_once c env locked step db =
    if c.zone_id == "" || c.identity == ""
    then (some not_configured, db)
    else elim (claim_dominator env c.zone_id provision c.identity (lease_or_default c.lease) locked
        db) [
          | err no_rows ↦ (none, db)
          | err e ↦ (some e, db)
          | ok (op, db') ↦ elim (load_provisioning_target step.json_valid op db') [
            | err e ↦ (some e, db')
            | ok _ ↦ advance step op db'
          ]
        ]
