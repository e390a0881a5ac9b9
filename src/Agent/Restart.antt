-- ===== src/Agent/Restart.antt =====
-- The agent's own file is always one that NewServer accepts, and what it makes of it.
use crane_oss.Base.{
  ◌≡◌, refl, sym, true, false, inl, inr, Option, none, some, List, arith, ok, ◌==◌, eq_iff,
}
use crane_oss.Api.{ExpectedHostState}
use crane_oss.Agent.Request.{Syntax}
use crane_oss.Agent.State.{
  AgentOutcome, unconfigured, applying, interrupted, applied, failed, is_applied, resume,
  SavedState, Agent, new_server, no_state, status, restore, is_invalid,
}
use crane_oss.Agent.Invariant.{Fine, Storable, mark, file_mark, Kept, Sound}

-- A start from a file that holds what a start accepts.
abbrev pub resumed : AgentOutcome → AgentOutcome
resumed applying = interrupted
resumed o = o

abbrev pub read_back : Option SavedState → SavedState
read_back none = no_state
read_back (some s) = record s { outcome = resumed s.outcome }

abbrev pub started : Agent → Agent
started a = record a { saved = read_back a.file; view = status a.identity (read_back a.file) }

resume-resumed : (o p : AgentOutcome) → resume o ≡ some p → resume o ≡ some (resumed o)
resume-resumed unconfigured p h = cc
resume-resumed applying p h = refl
resume-resumed interrupted p h = refl
resume-resumed applied p h = refl
resume-resumed failed p h = refl

is_invalid-false :
    (x : Syntax) (log : List ExpectedHostState) (s : SavedState)
    → Storable x s
    → Fine log s
    → is_invalid x s ≡ false
is_invalid-false x log s k f =
    let same : (x.digest s.request == s.digest) ≡ true =
      (eq_iff (x.digest s.request) s.digest).1 (sym k.hashed) in
    rw (k.valid, same) (ground (arith, f.bounded))

restore-read_back :
    (x : Syntax) (log : List ExpectedHostState) (file : Option SavedState)
    → Kept x log file
    → restore x file ≡ ok (read_back file)
unfolding restore
restore-read_back x log none k = refl
restore-read_back x log (some s) k =
    rw
      (is_invalid-false x log s k.0 k.1, resume-resumed s.outcome k.0.configured.0 k.0.configured.1)
      refl

pub new_server-started : (x : Syntax) (a : Agent) → Sound x a → new_server x a ≡ ok (started a)
unfolding new_server
new_server-started x a s = rw (restore-read_back x a.enforced a.file s.kept) refl

Fine-read_back :
    (x : Syntax) (log : List ExpectedHostState) (file : Option SavedState)
    → Kept x log file
    → Fine log (read_back file)
Fine-read_back x log none k = record { bounded = omega arith; backed = inl refl; exact = λ a. cc }
Fine-read_back x log (some s) k = record {
  bounded = k.1.bounded;
  backed = k.1.backed;
  exact = λ a. k.1.exact (is_applied-resumed s.outcome a);
}
  where
    is_applied-resumed : (o : AgentOutcome) → is_applied (resumed o) ≡ true → is_applied o ≡ true
    is_applied-resumed unconfigured h = h
    is_applied-resumed applying h = cc
    is_applied-resumed interrupted h = h
    is_applied-resumed applied h = h
    is_applied-resumed failed h = h

pub read_back-mark : (file : Option SavedState) → mark (read_back file) ≡ file_mark file
read_back-mark none = refl
read_back-mark (some s) = refl

read_back-applied :
    (file : Option SavedState)
    → is_applied (read_back file).outcome ≡ true
    → file ≡ some (read_back file)
read_back-applied none h = cc
read_back-applied (some s) h = same s.outcome h
  where
    same :
        (o : AgentOutcome)
        → is_applied (resumed o) ≡ true
        → some (record s { outcome = o }) ≡ some (record s { outcome = resumed o })
    same unconfigured h = cc
    same applying h = cc
    same interrupted h = cc
    same applied h = refl
    same failed h = cc

pub started-Sound : (x : Syntax) (a : Agent) → Sound x a → Sound x (started a)
started-Sound x a s = record {
  memory = Fine-read_back x a.enforced a.file s.kept;
  kept = s.kept;
  ahead = inr (read_back-mark a.file);
  durable = λ h. inl (read_back-applied a.file h);
  shown = refl;
}
