-- ===== src/HostOperations/Controller.antt =====
-- controller.go: Execute carries a secret to a host's agent, and records what came of it.
use crane_oss.Base.{
  ℕ, suc, String, Bool, true, false, not, ◌&&◌, ◌||◌, ◌==◌, Option, none, some, [], ◌∷◌, ◌++◌, ltb,
  leb, eqb, if◌then◌else◌, Result, ok, err, ◌>>=◌, ◌>>◌, refuse_if, or_fail,
}
use crane_oss.Base.Tables.{any, update}
use crane_oss.Api.{KubernetesResult, KubernetesSecret, ExpectedHostState}
use crane_oss.Capacity.Db.{Db, ZoneDominator}
use crane_oss.Capacity.Policy.{max_int64}
use crane_oss.Agent.Request.{Syntax, RequestError, normalize}
use crane_oss.Agent.State.{AgentOutcome, failed, is_applied, HostAgentStatus}
use crane_oss.HostOperations.Store.{
  pending_request, applied_request, failed_request, unknown_request, RequestOutcome, SecretResult,
  StateRequest, Store, HostTarget, load_target, is_key, find_state_request, max_revision,
}

pub record SecretRequest : Type 0 where
  pub request_id : String
  pub secret : KubernetesSecret

-- What the controller is configured with: its zone, its identity, and what go-spiffe makes of its trust
-- domain and a provider's id. The hash is that of api.SecretFingerprint.
pub record Controller : Type 0 where
  pub zone_id : String
  pub own_identity : String
  pub peer : String → Option String
  pub fingerprint : KubernetesSecret → String

-- What befalls one execution: the lock, the statements and the commit may fail, and the caller's
-- deadline may have passed at the end.
pub record Weather : Type 0 where
  pub lock_error : Option ℕ
  pub select_ok : Bool
  pub maximum_ok : Bool
  pub insert_ok : Bool
  pub update_ok : Bool
  pub observability_ok : Bool
  pub commit_ok : Bool
  pub deadline_passed : Bool

-- An answer of the agent: its HTTP status, and the status in its body where there is one; none where
-- the call fails. The answer of a GET of /v1/health and of a PUT of /v1/expected-state.
pub record Caller (S : Type 0) : Type 0 where
  pub health : S → Option (ℕ × Option HostAgentStatus) × S
  pub put_state : ExpectedHostState → S → Option (ℕ × Option HostAgentStatus) × S

pub record Executed (S : Type 0) : Type 0 where
  pub error : Option ℕ
  pub result : SecretResult
  pub store : Store
  pub state : S

pub record Prepared : Type 0 where
  pub request_id : String
  pub secret : KubernetesSecret
  pub target : HostTarget
  pub peer : String
  pub fingerprint : String

-- SecretRequest.Normalize
unfoldable pub normalize_request : Syntax → SecretRequest → Result RequestError KubernetesSecret
normalize_request x r = do
  refuse_if (r.request_id == "" || ltb 128 (x.byte_length r.request_id)) RequestError.invalid_size
  normalize x r.secret

-- An error has its HTTP status and the zone that the result names by then.
abbrev pub or_status {ℓ κ} :
    {E : Type κ} {A : Type ℓ} → (E → ℕ × String) → Result E A → Result (ℕ × String) A
or_status f (ok a) = ok a
or_status f (err e) = err (f e)

-- Everything before the store's requests are read.
unfoldable pub prepare :
    Syntax → Controller → Weather → String → SecretRequest → Db → Result (ℕ × String) Prepared
prepare x c w host r db = do
  secret ← or_status (λ e. (400, "")) (normalize_request x r)
  elim w.lock_error [ none ↦ ok tt | some code ↦ err (code, "") ]
  target ← or_status (λ code. (code, "")) (load_target db host)
  refuse_if
      (c.zone_id == ""
        || not (target.zone_id == c.zone_id)
        || not (target.dominator_identity == c.own_identity))
      (403, target.zone_id)
  peer ← or_fail (c.peer target.provider_id) (503, target.zone_id)
  ok (record {
    request_id = r.request_id;
    secret = secret;
    target = target;
    peer = peer;
    fingerprint = c.fingerprint secret;
  })

abbrev pub is_applied_request : RequestOutcome → Bool
is_applied_request applied_request = true
is_applied_request _ = false

abbrev pub is_failed_agent : AgentOutcome → Bool
is_failed_agent failed = true
is_failed_agent _ = false

abbrev pub blank : String → SecretRequest → String → ℕ → SecretResult
blank host r zone revision = record {
  host_id = host;
  zone_id = zone;
  request_id = r.request_id;
  revision = revision;
  outcome = unknown_request;
  kubernetes = none;
}

abbrev pub result_of : Prepared → ℕ → RequestOutcome → Option KubernetesResult → SecretResult
result_of p revision outcome kubernetes = record {
  host_id = p.target.host_id;
  zone_id = p.target.zone_id;
  request_id = p.request_id;
  revision = revision;
  outcome = outcome;
  kubernetes = kubernetes;
}

-- The write has been verified, and the rollout is ready where one was asked for.
abbrev pub is_verified : KubernetesSecret → Option KubernetesResult → Bool
is_verified secret none = false
is_verified secret (some k) =
    k.secret == "verified"
    && (if secret.rollout_deployment == ""
        then k.rollout == "not_requested"
        else k.rollout == "ready")

abbrev pub is_own_answer : Prepared → ℕ → HostAgentStatus → Bool
is_own_answer p revision status = status.identity == p.peer && eqb status.accepted_revision revision

abbrev pub is_success : Prepared → ℕ → ℕ → HostAgentStatus → Bool
is_success p revision code status =
    is_own_answer p revision status
    && eqb code 200
    && is_applied status.outcome
    && eqb status.applied_revision revision
    && is_verified p.secret status.kubernetes

-- The answer is decoded over the status of the health check: what the body leaves out stays in place, all
-- of it where there is no body, and the two fields that an agent leaves out where they are empty.
abbrev pub or_kept : Option KubernetesResult → Option KubernetesResult → Option KubernetesResult
or_kept none before = before
or_kept (some result) before = some result

abbrev pub or_before : Option HostAgentStatus → HostAgentStatus → HostAgentStatus
or_before none before = before
or_before (some status) before = record status {
  expected_version =
      if status.expected_version == "" then before.expected_version else status.expected_version;
  kubernetes = or_kept status.kubernetes before.kubernetes;
}

-- What the answer of the PUT says of the request.
abbrev pub judge : Prepared → ℕ → ℕ → HostAgentStatus → SecretResult
judge p revision code status =
    if is_own_answer p revision status
    then result_of p revision
        (if is_success p revision code status
          then applied_request
          else if is_failed_agent status.outcome
          then failed_request
          else unknown_request)
        status.kubernetes
    else result_of p revision unknown_request none

abbrev pub new_state_request : Prepared → ℕ → StateRequest
new_state_request p revision = record {
  host_id = p.target.host_id;
  request_id = p.request_id;
  fingerprint = p.fingerprint;
  revision = revision;
  outcome = pending_request;
  result = none;
}

-- The primary key and the unique revision of a host.
abbrev pub clashes : StateRequest → StateRequest → Bool
clashes new old =
    old.host_id == new.host_id
    && (old.request_id == new.request_id || eqb old.revision new.revision)

abbrev pub record_result : Prepared → SecretResult → Store → Store
record_result p result st = record st {
  state_requests =
      update (is_key p.target.host_id p.request_id)
        (λ r. record r { outcome = result.outcome; result = some result }) st.state_requests;
}

abbrev pub configures_telemetry : KubernetesSecret → Bool
configures_telemetry s =
    s.namespace == "crane-system"
    && s.name == "otel-exporter-config"
    && s.rollout_deployment == "otel-collector"

abbrev pub record_observability : Prepared → SecretResult → Store → Store
record_observability p result st =
    if configures_telemetry p.secret
    then record st {
      db = record st.db {
        dominators =
            update (λ (d : ZoneDominator). d.zone_id == p.target.zone_id)
              (λ d. record d {
                observability_status =
                    if is_applied_request result.outcome then "ready" else "failed";
              })
              st.db.dominators;
      };
    }
    else st

abbrev pub wanted_state : Prepared → ℕ → ExpectedHostState
wanted_state p revision = record {
  revision = revision;
  image_id = "";
  track = "";
  version = "";
  services = [];
  packages = [];
  secret = some p.secret;
}

abbrev pub known_maximum : Prepared → HostAgentStatus → Store → ℕ
known_maximum p status st =
    let stored = max_revision p.target.host_id st.state_requests in
    if ltb stored status.accepted_revision then status.accepted_revision else stored

abbrev pub with_request : Prepared → ℕ → Store → Store
with_request p revision st = record st {
  state_requests = st.state_requests ++ new_state_request p revision ∷ [];
}

abbrev pub known_revision : Option StateRequest → ℕ
known_revision none = 0
known_revision (some row) = row.revision

abbrev pub is_healthy : Prepared → ℕ → HostAgentStatus → Bool
is_healthy p code status = eqb code 200 && status.identity == p.peer && status.ready

module _ {S : Type 0} (w : Weather) (caller : Caller S) where
  abbrev pub stop : ℕ → SecretResult → Store → S → Executed S
  stop code result st s = record { error = some code; result = result; store = st; state = s }

  abbrev pub committed : SecretResult → Store → S → Executed S
  committed result st s =
      if is_applied_request result.outcome
      then record { error = none; result = result; store = st; state = s }
      else stop (if w.deadline_passed then 504 else 502) result st s

  -- One transaction: an error rolls back both updates.
  unfoldable pub persist : Prepared → SecretResult → Store → S → Executed S
  persist p result st s =
      if not w.update_ok
        || (configures_telemetry p.secret && not w.observability_ok)
        || not w.commit_ok
      then stop 503 result st s
      else committed result (record_observability p result (record_result p result st)) s

  abbrev pub delivered :
      Prepared → ℕ → HostAgentStatus → Store → Option (ℕ × Option HostAgentStatus) × S → Executed S
  delivered p revision before st (none, s) =
      persist p (result_of p revision unknown_request none) st s
  delivered p revision before st (some (code, body), s) =
      let result = judge p revision code (or_before body before) in
      if eqb code 409 then stop 409 result st s else persist p result st s

  abbrev pub deliver_state : Prepared → ℕ → HostAgentStatus → Store → S → Executed S
  deliver_state p revision before st s =
      delivered p revision before st (caller.put_state (wanted_state p revision) s)

  -- A new request takes the revision after all that the store and the agent know.
  abbrev pub allocate_at : Prepared → ℕ → HostAgentStatus → Store → S → Executed S
  allocate_at p maximum status st s =
      if not w.maximum_ok
      then stop 503 (result_of p 0 unknown_request none) st s
      else if leb max_int64 maximum
      then stop 409 (result_of p 0 unknown_request none) st s
      else if not w.insert_ok || any (clashes (new_state_request p (suc maximum))) st.state_requests
      then stop 503 (result_of p (suc maximum) unknown_request none) st s
      else deliver_state p (suc maximum) status (with_request p (suc maximum) st) s

  abbrev pub allocate : Prepared → HostAgentStatus → Store → S → Executed S
  allocate p status st s = allocate_at p (known_maximum p status st) status st s

  abbrev pub contacted : Prepared → Option StateRequest → HostAgentStatus → Store → S → Executed S
  contacted p none status st s = allocate p status st s
  contacted p (some row) status st s =
      if ltb row.revision status.accepted_revision
      then stop 409 (result_of p row.revision unknown_request none) st s
      else deliver_state p row.revision status st s

  abbrev pub checked :
      Prepared → Option StateRequest → Store → Option (ℕ × Option HostAgentStatus) × S → Executed S
  checked p row st (some (code, some status), s) =
      if is_healthy p code status
      then contacted p row status st s
      else stop 502 (result_of p (known_revision row) unknown_request none) st s
  checked p row st (some (code, none), s) =
      stop 502 (result_of p (known_revision row) unknown_request none) st s
  checked p row st (none, s) = stop 502 (result_of p (known_revision row) unknown_request none) st s

  abbrev pub replayed : Prepared → StateRequest → Option SecretResult → Store → S → Executed S
  replayed p row none st s = stop 503 (result_of p row.revision unknown_request none) st s
  replayed p row (some result) st s = record {
    error = none;
    result = result;
    store = st;
    state = s;
  }

  abbrev pub looked_up : Prepared → Option StateRequest → Store → S → Executed S
  looked_up p none st s = checked p none st (caller.health s)
  looked_up p (some row) st s =
      if not (row.fingerprint == p.fingerprint)
      then stop 409 (result_of p row.revision unknown_request none) st s
      else if is_applied_request row.outcome
      then replayed p row row.result st s
      else checked p (some row) st (caller.health s)

  abbrev pub after_prepare :
      String → SecretRequest → Result (ℕ × String) Prepared → Store → S → Executed S
  after_prepare host r (err (code, zone)) st s = stop code (blank host r zone 0) st s
  after_prepare host r (ok p) st s =
      if not w.select_ok
      then stop 503 (result_of p 0 unknown_request none) st s
      else looked_up p (find_state_request host r.request_id st) st s

  -- Execute on a host's lock.
  unfoldable pub execute : Syntax → Controller → String → SecretRequest → Store → S → Executed S
  execute x c host r st s = after_prepare host r (prepare x c w host r st.db) st s
