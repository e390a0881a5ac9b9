-- ===== src/Bootstrap/Controller.antt =====
-- bootstrap.go: RunOnce, a round of the bootstrap controller.
use crane_oss.Base.{
  ℕ, String, ℤ, Bool, true, false, not, ◌||◌, ◌==◌, Option, none, some, eqb, if◌then◌else◌, Result,
  ok, err, ◌>>◌, refuse_if, pos,
}
use crane_oss.Api.{create_cluster, Operation}
use crane_oss.Capacity.Db.{Error, external, no_rows, Db, Cluster}
use crane_oss.Capacity.Policy.{Env}
use crane_oss.Capacity.Leases.{claim_bootstrap}
use crane_oss.Bootstrap.Store.{
  ZoneBootstrapPhase, infrastructure_provisioning, control_plane_initializing, dominator_installing,
  validating, zone_ready, BootstrapDb, BootstrapRow, BootstrapStepResult, bootstrap_next,
  find_bootstrap, bootstrap_phase, release_bootstrap_lease,
}
use crane_oss.Bootstrap.Records.{
  Addresses, load_bootstrap_target, set_cluster_discovery, record_bootstrap_host,
  set_dominator_route,
}

-- The external work: each step and the validation, on the operation with its cluster. The context may be
-- cancelled with the lease, which is an error of the step.
pub record BootstrapExecutor : Type 0 where
  pub step : Operation → Cluster → ZoneBootstrapPhase → Result Error BootstrapStepResult
  pub validated : Operation → Cluster → Result Error Bool

-- The clocks of the calls of one round.
pub record RoundClocks : Type 0 where
  pub env : Env
  pub locked : String → Bool
  pub recorded_at : ℕ
  pub moved_at : ℕ
  pub released_at : ℕ
  pub lease : ℤ

-- What a step's result leaves in the tables, by the phase that it was for.
abbrev pub record_step :
    Addresses
    → Operation
    → BootstrapStepResult
    → ℕ
    → ZoneBootstrapPhase
    → BootstrapDb
    → Result Error BootstrapDb
record_step x op r now control_plane_initializing b = set_cluster_discovery x op r now b
record_step x op r now infrastructure_provisioning b = record_bootstrap_host x op r now b
record_step x op r now dominator_installing b = set_dominator_route x op r now b
record_step x op r now phase b =
    refuse_if (not (r.api_server_endpoint == "") || not (r.ca_cert_hash == ""))
      (external "unexpected cluster discovery")
    >> ok b

-- Each statement commits for itself: the first component is what the database holds at the end.
abbrev pub keep : BootstrapDb → Result Error BootstrapDb → BootstrapDb
keep b (ok new) = new
keep b (err e) = b

abbrev pub ended : Result Error BootstrapDb → Option Error
ended (ok b) = none
ended (err e) = some e

abbrev pub after_move :
    Operation → ℕ → BootstrapDb → Result Error BootstrapDb → BootstrapDb × Option Error
after_move op now b (err e) = (b, some e)
after_move op now b (ok moved) =
    let released = release_bootstrap_lease op now moved in (keep moved released, ended released)

abbrev pub after_record :
    RoundClocks
    → Operation
    → ZoneBootstrapPhase
    → BootstrapDb
    → Result Error BootstrapDb
    → BootstrapDb × Option Error
after_record t op next b (err e) = (b, some e)
after_record t op next b (ok recorded) =
    after_move op t.released_at recorded (bootstrap_phase op next false t.moved_at recorded)

abbrev pub after_step :
    Addresses
    → RoundClocks
    → Operation
    → ZoneBootstrapPhase
    → BootstrapDb
    → Result Error BootstrapStepResult
    → BootstrapDb × Option Error
after_step x t op next b (err e) = (b, some e)
after_step x t op next b (ok r) = after_record t op next b (record_step x op r t.recorded_at next b)

abbrev pub after_validation :
    RoundClocks → Operation → BootstrapDb → Result Error Bool → BootstrapDb × Option Error
after_validation t op b (err e) = (b, some e)
after_validation t op b (ok false) = (b, some (external "bootstrap has not passed validation"))
after_validation t op b (ok true) =
    let ready = bootstrap_phase op zone_ready true t.moved_at b in (keep b ready, ended ready)

abbrev pub next_step :
    Addresses
    → BootstrapExecutor
    → RoundClocks
    → Operation
    → Cluster
    → BootstrapDb
    → Option ZoneBootstrapPhase
    → BootstrapDb × Option Error
next_step x e t op c b none = (b, some (external "bootstrap is in a terminal phase"))
next_step x e t op c b (some next) = after_step x t op next b (e.step op c next)

abbrev pub at_phase :
    Addresses
    → BootstrapExecutor
    → RoundClocks
    → Operation
    → Cluster
    → BootstrapDb
    → ZoneBootstrapPhase
    → BootstrapDb × Option Error
at_phase x e t op c b validating = after_validation t op b (e.validated op c)
at_phase x e t op c b phase = next_step x e t op c b (bootstrap_next op.kind phase)

abbrev pub with_target :
    Addresses
    → BootstrapExecutor
    → RoundClocks
    → Operation
    → BootstrapDb
    → Result Error Cluster
    → BootstrapDb × Option Error
with_target x e t op b (err failure) = (b, some failure)
with_target x e t op b (ok c) = current (find_bootstrap op.id b)
  where
    current : Option BootstrapRow → BootstrapDb × Option Error
    current none = (b, some no_rows)
    current (some row) = at_phase x e t op c b row.phase

-- No runnable operation is no error.
abbrev pub unless_idle : Error → Option Error
unless_idle no_rows = none
unless_idle failure = some failure

abbrev pub after_claim :
    Addresses
    → BootstrapExecutor
    → RoundClocks
    → BootstrapDb
    → Result Error (Operation × Db)
    → BootstrapDb × Option Error
after_claim x e t b (err failure) = (b, unless_idle failure)
after_claim x e t b (ok (op, db)) =
    let held = record b { db = db } in with_target x e t op held (load_bootstrap_target op held)

abbrev pub is_zero : ℤ → Bool
is_zero (pos n) = eqb n 0
is_zero _ = false

unfoldable pub run_once :
    Addresses
    → BootstrapExecutor
    → RoundClocks
    → String
    → String
    → BootstrapDb
    → BootstrapDb × Option Error
run_once x e t zone_id owner b =
    if owner == ""
    then (b, some (external "bootstrap controller is not configured"))
    else after_claim x e t b (
        claim_bootstrap t.env zone_id create_cluster owner
          (if is_zero t.lease then pos 120_000_000_000 else t.lease) t.locked b.db)
