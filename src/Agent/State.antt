-- ===== src/Agent/State.antt =====
-- state.go and the Server of server.go: what the agent holds in memory, what its files hold, and a
-- start from them.
use crane_oss.Base.{
  ℕ, String, Bool, true, false, not, ◌&&◌, ◌||◌, ◌==◌, Option, none, some, List, [], ltb, eqb,
  if◌then◌else◌, Result, ok, ◌>>=◌, ◌>>◌, refuse_if, or_fail, is_err,
}
use crane_oss.Api.{KubernetesResult, ExpectedHostState}
use crane_oss.Agent.Request.{Syntax, validate_expected}

-- The texts "unconfigured", "applying", "interrupted", "applied" and "failed".
pub data AgentOutcome : Type 0 where
  unconfigured applying interrupted applied failed : AgentOutcome

abbrev pub is_applied : AgentOutcome → Bool
is_applied applied = true
is_applied _ = false

pub record SavedState : Type 0 where
  pub request : ExpectedHostState
  pub digest : String
  pub applied_revision : ℕ
  pub outcome : AgentOutcome
  pub kubernetes : Option KubernetesResult

pub record HostAgentStatus : Type 0 where
  pub identity : String
  pub ready : Bool
  pub accepted_revision : ℕ
  pub applied_revision : ℕ
  pub outcome : AgentOutcome
  pub expected_version : String
  pub kubernetes : Option KubernetesResult

-- `view` is the status that reads return. `enforced` lists, newest first, the states whose Apply and
-- EnsureSecret have both succeeded on the host: it is no field of the server.
pub record Agent : Type 0 where
  pub identity : String
  pub saved : SavedState
  pub file : Option SavedState
  pub view : HostAgentStatus
  pub enforced : List ExpectedHostState

-- atomicJSON: it may fail before the rename, or after it, in the sync of the directory.
pub data Write : Type 0 where
  stored failed_unchanged failed_stored : Write

abbrev pub is_stored : Write → Bool
is_stored stored = true
is_stored _ = false

abbrev pub write {ℓ} : {A : Type ℓ} → Write → A → Option A → Option A
write failed_unchanged new old = old
write _ new old = some new

abbrev pub no_request : ExpectedHostState
no_request = record {
  revision = 0;
  image_id = "";
  track = "";
  version = "";
  services = [];
  packages = [];
  secret = none;
}

abbrev pub no_state : SavedState
no_state = record {
  request = no_request;
  digest = "";
  applied_revision = 0;
  outcome = unconfigured;
  kubernetes = none;
}

-- The version is shown where the newest accepted state is the one applied.
unfoldable pub status : String → SavedState → HostAgentStatus
status identity s = record {
  identity = identity;
  ready = true;
  accepted_revision = s.request.revision;
  applied_revision = s.applied_revision;
  outcome = s.outcome;
  expected_version =
      if is_applied s.outcome && eqb s.applied_revision s.request.revision
      then s.request.version
      else "";
  kubernetes = s.kubernetes;
}

pub data StartError : Type 0 where
  invalid_config invalid_identity unreadable_state invalid_state invalid_outcome : StartError
  unreadable_join invalid_join : StartError

abbrev pub resume : AgentOutcome → Option AgentOutcome
resume unconfigured = none
resume applying = some interrupted
resume o = some o

abbrev pub is_invalid : Syntax → SavedState → Bool
is_invalid x s =
    is_err (validate_expected x s.request)
    || not (x.digest s.request == s.digest)
    || ltb s.request.revision s.applied_revision

-- NewServer on the file of the state; there may be none.
unfoldable pub restore : Syntax → Option SavedState → Result StartError SavedState
restore x none = ok no_state
restore x (some s) = do
  refuse_if (is_invalid x s) invalid_state
  outcome ← or_fail (resume s.outcome) invalid_outcome
  ok (record s { outcome = outcome })

-- NewServer up to the file of the join, which Startup adds.
unfoldable pub new_server : Syntax → Agent → Result StartError Agent
new_server x a = do s ← restore x a.file; ok (record a { saved = s; view = status a.identity s })
