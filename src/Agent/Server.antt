-- ===== src/Agent/Server.antt =====
-- server.go: the handler of PUT /v1/expected-state.
use crane_oss.Base.{
  ℕ, Bool, true, false, not, ◌&&◌, ◌||◌, ◌==◌, Option, none, some, List, ◌∷◌, ltb, eqb,
  if◌then◌else◌, Result, ok, err, ◌>>=◌, ◌>>◌, refuse_if, or_fail, is_err,
}
use crane_oss.Api.{KubernetesResult, ExpectedHostState}
use crane_oss.Agent.Request.{Syntax, validate_expected, normalize_expected}
use crane_oss.Agent.State.{
  applying, interrupted, applied, failed, is_applied, SavedState, HostAgentStatus, Agent, Write,
  is_stored, write, status,
}

-- A request as it arrives: `body` is what the JSON decoder makes of it, and `cancelled` says whether
-- the caller has gone when the lock is taken.
pub record Arrival : Type 0 where
  pub deadline_ok : Bool
  pub body : Option ExpectedHostState
  pub cancelled : Bool

-- What the host and the file system answer to one request. `ensures_secrets` is the type assertion to
-- secretHost.
pub record Surroundings : Type 0 where
  pub accept_write : Write
  pub accept_published : Bool
  pub applies : Bool
  pub ensures_secrets : Bool
  pub secret_result : Option KubernetesResult
  pub secret_ensured : Bool
  pub outcome_write : Write
  pub outcome_published : Bool

-- The HTTP status, with the agent's status where the body carries it.
pub record Reply : Type 0 where
  pub code : ℕ
  pub body : Option HostAgentStatus

abbrev pub refused : ℕ → Reply
refused code = record { code = code; body = none }

unfoldable pub read_request : Syntax → Arrival → Result ℕ ExpectedHostState
read_request x i = do
  refuse_if (not i.deadline_ok) 400
  e ← or_fail i.body 400
  refuse_if (is_err (validate_expected x e)) 400
  let n = normalize_expected x e
  refuse_if i.cancelled 408
  ok n

abbrev pub conflicts : Syntax → ExpectedHostState → SavedState → Bool
conflicts x e s =
    ltb e.revision s.request.revision
    || (eqb e.revision s.request.revision && not (x.digest e == s.digest))

abbrev pub is_repeated : ExpectedHostState → SavedState → Bool
is_repeated e s = eqb e.revision s.request.revision && is_applied s.outcome

abbrev pub accepted : Syntax → ExpectedHostState → SavedState → SavedState
accepted x e previous = record {
  request = e;
  digest = x.digest e;
  applied_revision = previous.applied_revision;
  outcome = applying;
  kubernetes = none;
}

abbrev pub publish : Agent → Agent
publish a = record a { view = status a.identity a.saved }

-- Apply and then EnsureSecret: the result that EnsureSecret leaves, and whether both succeed.
abbrev pub enforce : Surroundings → ExpectedHostState → Option KubernetesResult × Bool
enforce h e = elim e.secret [
  | none ↦ (none, h.applies)
  | some s ↦
      if h.applies && h.ensures_secrets then (h.secret_result, h.secret_ensured) else (none, false)
]

abbrev pub outcome_of : Bool → ExpectedHostState → Option KubernetesResult → SavedState → SavedState
outcome_of true e kubernetes s = record s {
  applied_revision = e.revision;
  outcome = applied;
  kubernetes = kubernetes;
}
outcome_of false e kubernetes s = record s { outcome = failed; kubernetes = kubernetes }

abbrev pub log_of : Bool → ExpectedHostState → List ExpectedHostState → List ExpectedHostState
log_of true e log = e ∷ log
log_of false e log = log

-- The answer where the outcome has been persisted.
abbrev pub concluded : Surroundings → Bool → ExpectedHostState → Agent → Reply
concluded h done e b =
    if not h.outcome_published
    then refused 500
    else if done
    then record { code = 200; body = some (status b.identity b.saved) }
    else record {
      code = 500;
      body = elim e.secret [ none ↦ none | some _ ↦ some (status b.identity b.saved) ];
    }

abbrev pub interrupted_after : SavedState → SavedState → SavedState
interrupted_after previous next = record next {
  outcome = interrupted;
  applied_revision = previous.applied_revision;
}

-- The agent after enforcement, once it has tried to persist the outcome.
abbrev pub settle : Surroundings → ExpectedHostState → SavedState → Agent → Agent
settle h e previous a =
    let (kubernetes, done) = enforce h e in
    let next = outcome_of done e kubernetes a.saved in
    publish (record a {
      saved = if is_stored h.outcome_write then next else interrupted_after previous next;
      file = write h.outcome_write next a.file;
      enforced = log_of done e a.enforced;
    })

unfoldable pub conclude : Surroundings → ExpectedHostState → SavedState → Agent → Reply × Agent
conclude h e previous a =
    let b = settle h e previous a in
    (if is_stored h.outcome_write then concluded h (enforce h e).1 e b else refused 500, b)

-- Persist the accepted state and publish it before anything is enforced.
unfoldable pub accept : Syntax → Surroundings → ExpectedHostState → Agent → Agent
accept x h e a =
    let next = accepted x e a.saved in
    let file = write h.accept_write next a.file in
    if is_stored h.accept_write
    then publish (record a { saved = next; file = file })
    else record a { file = file }

unfoldable pub locked : Syntax → Surroundings → ExpectedHostState → Agent → Reply × Agent
locked x h e a =
    if conflicts x e a.saved
    then (refused 409, a)
    else if is_repeated e a.saved
    then (record { code = 200; body = some (status a.identity a.saved) }, a)
    else let b = accept x h e a in
      if is_stored h.accept_write && h.accept_published
      then conclude h e a.saved b
      else (refused 500, b)

abbrev pub respond : Syntax → Surroundings → Agent → Result ℕ ExpectedHostState → Reply × Agent
respond x h a (err code) = (refused code, a)
respond x h a (ok e) = locked x h e a

unfoldable pub update : Syntax → Surroundings → Arrival → Agent → Reply × Agent
update x h i a = respond x h a (read_request x i)
