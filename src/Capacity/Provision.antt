-- ===== src/Capacity/Provision.antt =====
-- store.go: the fenced changes of a host's state (SetProvisionState, SetProvisionDesiredVersion)
-- and the end of a provision operation (CompleteProvision).
use crane_oss.Base.{
  ℕ, String, Bool, true, false, ◌&&◌, ◌||◌, Option, none, some, ◌==◌, ltb, eqb, if◌then◌else◌,
  Result, ok, err, ◌>>=◌, ◌>>◌, refuse_if, or_fail,
}
use crane_oss.Base.Tables.{any, count, update}
use crane_oss.Api.{
  HostState, requested, provisioning, booting, registering, converging, ready, succeeded, Operation,
  is_provision, is_launching,
}
use crane_oss.Capacity.Db.{Error, invalid, fenced, Db, OperationRow, Host, ProvisioningState}
use crane_oss.Capacity.Leases.{fenced_update, holds}

-- UPDATE host … FROM operations …: the rows that pass, exactly one of them.
unfoldable pub fenced_host_update : (Host → Bool) → (Host → Host) → Db → Result Error Db
fenced_host_update p f db =
    if eqb (count p db.hosts) 1 then ok (record db { hosts = update p f db.hosts }) else err fenced

-- A launching provision operation of the worker, for the host.
abbrev pub provisions : Operation → ℕ → OperationRow → Bool
provisions op now o = is_provision o.kind && is_launching o.state && holds op now o

abbrev pub provisioned_by : Operation → ℕ → Db → Host → Bool
provisioned_by op now db h =
    any (λ (o : OperationRow). provisions op now o && o.host_id == h.id) db.operations

abbrev pub is_registering : HostState → Bool
is_registering registering = true
is_registering _ = false

unfoldable pub set_provision_desired_version :
    Operation → String → (String → ℕ) → ℕ → Db → Result Error Db
set_provision_desired_version op version byte_length now db = do
  refuse_if
      ((if is_provision op.kind then false else true)
        || version == ""
        || ltb 128 (byte_length version))
      invalid
  fenced_host_update (λ h. is_registering h.state && provisioned_by op now db h)
      (λ h. record h { desired_state_version = version }) db

-- The handoffs that SetProvisionState admits, each with the state that it expects.
pub data Handoff : Type 0 where
  to_provisioning to_registering to_converging : Handoff

abbrev pub handoff_from : Handoff → HostState
handoff_from to_provisioning = requested
handoff_from to_registering = booting
handoff_from to_converging = registering

abbrev pub handoff_to : Handoff → HostState
handoff_to to_provisioning = provisioning
handoff_to to_registering = registering
handoff_to to_converging = converging

-- The map `allowed`: any other pair is ErrInvalid.
abbrev pub allowed : HostState → HostState → Option Handoff
allowed requested provisioning = some to_provisioning
allowed booting registering = some to_registering
allowed registering converging = some to_converging
allowed _ _ = none

abbrev pub expects : Handoff → HostState → Bool
expects to_provisioning requested = true
expects to_registering booting = true
expects to_converging registering = true
expects _ _ = false

unfoldable pub set_provision_state : Operation → HostState → HostState → ℕ → Db → Result Error Db
set_provision_state op expected next now db = do
  refuse_if (if is_provision op.kind then false else true) invalid
  handoff ← or_fail (allowed expected next) invalid
  fenced_host_update (λ h. expects handoff h.state && provisioned_by op now db h)
      (λ h. record h { state = handoff_to handoff }) db

abbrev is_ready : HostState → Bool
is_ready ready = true
is_ready _ = false

-- A ready host with a provider identity whose scheduling release was started.
abbrev pub handed_over : Db → OperationRow → Bool
handed_over db o =
    any
      (λ (h : Host).
        h.id == o.host_id
        && is_ready h.state
        && (if h.provider_id == "" then false else true)
        && any
            (λ (b : ProvisioningState).
              b.host_id == h.id && b.operation_id == o.id && b.release_started)
            db.provisioning)
      db.hosts

abbrev pub succeed : ℕ → OperationRow → OperationRow
succeed now o = record o { state = succeeded; lease = none; updated_at = now }

unfoldable pub complete_provision : Operation → ℕ → Db → Result Error Db
complete_provision op now db =
    fenced_update (λ o. provisions op now o && o.host_id == op.host_id && handed_over db o)
      (succeed now) db
