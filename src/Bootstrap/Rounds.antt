-- ===== src/Bootstrap/Rounds.antt =====
-- bootstrap.go: the phases of the bootstraps over a round of the controller.
use crane_oss.Base.{
  ℕ, String, ◌≡◌, refl, sym, subst, Bool, true, false, ◌==◌, inl, inr, Option, none, some,
  Bool-cases, Option-cases, Result-cases, if◌then◌else◌, Result, ok, err, pos,
}
use crane_oss.Base.Rows.{Grows, Grows-refl, Unique}
use crane_oss.Api.{Kind, provision, create_cluster, attach_zone, remove_node, Operation}
use crane_oss.Capacity.Db.{Error, no_rows, external, Db, Cluster}
use crane_oss.Capacity.Leases.{claim_bootstrap}
use crane_oss.Bootstrap.Store.{
  ZoneBootstrapPhase, infrastructure_provisioning, control_plane_initializing, dominator_installing,
  network_installing, validating, zone_ready, zone_failed, zone_requested, BootstrapDb,
  BootstrapRow, BootstrapStepResult, phase_after, bootstrap_next, same_phase, find_bootstrap,
  bootstrap_phase, release_bootstrap_lease,
}
use crane_oss.Bootstrap.Records.{Addresses, load_bootstrap_target}
use crane_oss.Bootstrap.Controller.{
  BootstrapExecutor, RoundClocks, record_step, keep, ended, after_move, after_record, after_step,
  after_validation, next_step, at_phase, with_target, after_claim, is_zero, run_once, unless_idle,
}
use crane_oss.Bootstrap.Statements.{release-phases, record_step-phases}
use crane_oss.Bootstrap.Phases.{Moves, Moves-refl, bootstrap_phase-Moves}

-- Where the database ends after some calls.
abbrev After : (String → Type 0) → BootstrapDb → BootstrapDb × Option Error → Type 0
After V b out = Grows (Moves V) b.bootstraps out.0.bootstraps

same-After :
    (V : String → Type 0) (b : BootstrapDb) (failure : Option Error) → After V b (b, failure)
same-After V b failure = Grows-refl (Moves V) (Moves-refl V) b.bootstraps

keep-phases :
    (b : BootstrapDb) (r : Result Error BootstrapDb)
    → ((c : BootstrapDb) → r ≡ ok c → c.bootstraps ≡ b.bootstraps)
    → (keep b r).bootstraps ≡ b.bootstraps
keep-phases b (ok c) h = h c refl
keep-phases b (err e) h = refl

after_move-After :
    (V : String → Type 0) (op : Operation) (now : ℕ) (b : BootstrapDb)
    (r : Result Error BootstrapDb)
    → ((c : BootstrapDb) → r ≡ ok c → Grows (Moves V) b.bootstraps c.bootstraps)
    → After V b (after_move op now b r)
after_move-After V op now b (err e) h = same-After V b (some e)
after_move-After V op now b (ok moved) h =
    subst (Grows (Moves V) b.bootstraps)
      (sym (keep-phases moved (release_bootstrap_lease op now moved) (release-phases op now moved)))
      (h moved refl)

after_record-After :
    (V : String → Type 0) (t : RoundClocks) (op : Operation) (next : ZoneBootstrapPhase)
    (b : BootstrapDb) (r : Result Error BootstrapDb)
    → Unique (λ (x : BootstrapRow). x.operation_id) b.bootstraps
    → same_phase next zone_failed ≡ false
    → ((c : BootstrapDb) → r ≡ ok c → c.bootstraps ≡ b.bootstraps)
    → After V b (after_record t op next b r)
after_record-After V t op next b (err e) u not_failed h = same-After V b (some e)
after_record-After V t op next b (ok recorded) u not_failed h =
    subst (λ rows. Grows (Moves V) rows (after_record t op next b (ok recorded)).0.bootstraps)
      (h recorded refl)
      (after_move-After V op t.released_at recorded
        (bootstrap_phase op next false t.moved_at recorded)
        (λ c.
          bootstrap_phase-Moves V op next false t.moved_at recorded c
            (subst (Unique (λ (x : BootstrapRow). x.operation_id)) (sym (h recorded refl)) u)
            not_failed (λ absurd_h. cc)))

after_step-After :
    (V : String → Type 0) (x : Addresses) (t : RoundClocks) (op : Operation)
    (next : ZoneBootstrapPhase) (b : BootstrapDb) (r : Result Error BootstrapStepResult)
    → Unique (λ (x : BootstrapRow). x.operation_id) b.bootstraps
    → same_phase next zone_failed ≡ false
    → After V b (after_step x t op next b r)
after_step-After V x t op next b (err e) u not_failed = same-After V b (some e)
after_step-After V x t op next b (ok r) u not_failed =
    after_record-After V t op next b (record_step x op r t.recorded_at next b) u not_failed
      (record_step-phases x op r t.recorded_at next b)

abbrev is_failing : Option ZoneBootstrapPhase → Bool
is_failing none = false
is_failing (some phase) = same_phase phase zone_failed

phase_after-not_failing : (phase : ZoneBootstrapPhase) → is_failing (phase_after phase) ≡ false
phase_after-not_failing zone_requested = refl
phase_after-not_failing infrastructure_provisioning = refl
phase_after-not_failing control_plane_initializing = refl
phase_after-not_failing network_installing = refl
phase_after-not_failing dominator_installing = refl
phase_after-not_failing validating = refl
phase_after-not_failing zone_ready = refl
phase_after-not_failing zone_failed = refl

bootstrap_next-not_failing :
    (k : Kind) (phase : ZoneBootstrapPhase) → is_failing (bootstrap_next k phase) ≡ false
bootstrap_next-not_failing create_cluster phase = phase_after-not_failing phase
bootstrap_next-not_failing provision phase = refl
bootstrap_next-not_failing attach_zone phase = refl
bootstrap_next-not_failing remove_node phase = refl

-- The validation of an operation with the id said that its zone is ready.
abbrev pub WasValidated : BootstrapExecutor → String → Type 0
WasValidated e id = (op : Operation) × (c : Cluster) × (op.id ≡ id) × (e.validated op c ≡ ok true)

after_validation-After :
    (e : BootstrapExecutor) (t : RoundClocks) (op : Operation) (c : Cluster) (b : BootstrapDb)
    (r : Result Error Bool)
    → Unique (λ (x : BootstrapRow). x.operation_id) b.bootstraps
    → e.validated op c ≡ r
    → After (WasValidated e) b (after_validation t op b r)
after_validation-After e t op c b (err failure) u said =
    same-After (WasValidated e) b (some failure)
after_validation-After e t op c b (ok false) u said =
    same-After (WasValidated e) b (some (external "bootstrap has not passed validation"))
after_validation-After e t op c b (ok true) u said =
    elim (Result-cases (bootstrap_phase op zone_ready true t.moved_at b)) [
      | inl (d, h) ↦
          subst (λ r. After (WasValidated e) b (keep b r, ended r)) (sym h)
            (bootstrap_phase-Moves (WasValidated e) op zone_ready true t.moved_at b d u refl
              (λ _. (op, c, refl, said)) h)
      | inr (failure, h) ↦
          subst (λ r. After (WasValidated e) b (keep b r, ended r)) (sym h)
            (same-After (WasValidated e) b (some failure))
    ]

module _ (x : Addresses) (e : BootstrapExecutor) (t : RoundClocks) where
  next_step-After :
      (op : Operation) (c : Cluster) (b : BootstrapDb) (after : Option ZoneBootstrapPhase)
      → Unique (λ (x : BootstrapRow). x.operation_id) b.bootstraps
      → is_failing after ≡ false
      → After (WasValidated e) b (next_step x e t op c b after)
  next_step-After op c b none u h =
      same-After (WasValidated e) b (some (external "bootstrap is in a terminal phase"))
  next_step-After op c b (some next) u h =
      after_step-After (WasValidated e) x t op next b (e.step op c next) u h

  at_phase-After :
      (op : Operation) (c : Cluster) (b : BootstrapDb) (phase : ZoneBootstrapPhase)
      → Unique (λ (x : BootstrapRow). x.operation_id) b.bootstraps
      → After (WasValidated e) b (at_phase x e t op c b phase)
  at_phase-After op c b validating u = after_validation-After e t op c b (e.validated op c) u refl
  at_phase-After op c b zone_requested u =
      next_step-After op c b _ u (bootstrap_next-not_failing op.kind zone_requested)
  at_phase-After op c b infrastructure_provisioning u =
      next_step-After op c b _ u (bootstrap_next-not_failing op.kind infrastructure_provisioning)
  at_phase-After op c b control_plane_initializing u =
      next_step-After op c b _ u (bootstrap_next-not_failing op.kind control_plane_initializing)
  at_phase-After op c b network_installing u =
      next_step-After op c b _ u (bootstrap_next-not_failing op.kind network_installing)
  at_phase-After op c b dominator_installing u =
      next_step-After op c b _ u (bootstrap_next-not_failing op.kind dominator_installing)
  at_phase-After op c b zone_ready u =
      next_step-After op c b _ u (bootstrap_next-not_failing op.kind zone_ready)
  at_phase-After op c b zone_failed u =
      next_step-After op c b _ u (bootstrap_next-not_failing op.kind zone_failed)

  with_target-After :
      (op : Operation) (b : BootstrapDb) (r : Result Error Cluster)
      → Unique (λ (x : BootstrapRow). x.operation_id) b.bootstraps
      → After (WasValidated e) b (with_target x e t op b r)
  with_target-After op b (err failure) u = same-After (WasValidated e) b (some failure)
  with_target-After op b (ok c) u = elim (Option-cases (find_bootstrap op.id b)) [
    | inl h ↦ rw h (same-After (WasValidated e) b (some no_rows))
    | inr (row, h) ↦ rw h (at_phase-After op c b row.phase u)
  ]

  after_claim-After :
      (b : BootstrapDb) (r : Result Error (Operation × Db))
      → Unique (λ (x : BootstrapRow). x.operation_id) b.bootstraps
      → After (WasValidated e) b (after_claim x e t b r)
  after_claim-After b (ok (op, db)) u =
      with_target-After op (record b { db = db }) (load_bootstrap_target op (record b { db = db }))
        u
  after_claim-After b (err failure) u = same-After (WasValidated e) b (unless_idle failure)

  -- Whatever the executor answers, a round of the controller keeps each bootstrap's operation and moves
  -- its phase by one step of the sequence at most; the last phase is reached only where the executor's
  -- validation of the operation has said that it is ready. Operation ids are unique among the bootstraps before.
  pub run_once-Moves :
      (zone_id owner : String) (b : BootstrapDb)
      → Unique (λ (r : BootstrapRow). r.operation_id) b.bootstraps
      → Grows (Moves (WasValidated e)) b.bootstraps (run_once x e t zone_id owner b).0.bootstraps
  unfolding run_once
  run_once-Moves zone_id owner b u = elim (Bool-cases (owner == "")) [
    | inl h ↦
        rw h
          (same-After (WasValidated e) b (some (external "bootstrap controller is not configured")))
    | inr h ↦ rw h (
        after_claim-After b
          (claim_bootstrap t.env zone_id create_cluster owner
            (if is_zero t.lease then pos 120_000_000_000 else t.lease) t.locked b.db)
          u)
  ]
