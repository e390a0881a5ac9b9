-- ===== src/Agent/History.antt =====
-- The histories of an agent: the requests that it handles one after the other, and the restarts of
-- its process, at rest or in the middle of a request.
use crane_oss.Base.{String, ◌≡◌, Bool, true, false, none, [], ok}
use crane_oss.Api.{ExpectedHostState}
use crane_oss.Agent.Request.{Syntax}
use crane_oss.Agent.State.{Agent, is_stored, new_server, no_state, status}
use crane_oss.Agent.Server.{
  Arrival, Surroundings, read_request, conflicts, is_repeated, accept, log_of, update,
}

-- The process dies after it has persisted what it accepts; the host may be done with it by then.
abbrev pub killed : Syntax → Surroundings → ExpectedHostState → Bool → Agent → Agent
killed x h e done a = let b = accept x h e a in record b { enforced = log_of done e b.enforced }

pub data Step (x : Syntax) : Agent → Agent → Type 0 where
  handles : {a : Agent} (h : Surroundings) (i : Arrival) → Step x a (update x h i a).1
  restarts : {a b : Agent} → new_server x a ≡ ok b → Step x a b
  dies :
      {a b : Agent} (h : Surroundings) (i : Arrival) (e : ExpectedHostState) (done : Bool)
      → read_request x i ≡ ok e
      → conflicts x e a.saved ≡ false
      → is_repeated e a.saved ≡ false
      → is_stored h.accept_write ≡ true
      → new_server x (killed x h e done a) ≡ ok b
      → Step x a b

pub data Reach (x : Syntax) : Agent → Agent → Type 0 where
  here : {a : Agent} → Reach x a a
  onward : {a b c : Agent} → Reach x a b → Step x b c → Reach x a c

-- A new host has no file.
abbrev pub new_agent : String → Agent
new_agent identity = record {
  identity = identity;
  saved = no_state;
  file = none;
  view = status identity no_state;
  enforced = [];
}
