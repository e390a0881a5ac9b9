-- ===== src/Activity/Manager.antt =====
-- manager.go, decision.go and policy.go: RunHelp reads the recent problems, groups them by host, and
-- enqueues an action for every problem that the cache has not seen. The policy's counts are in
-- seconds; the source computes them and does not use them.
use crane_oss.Base.{
  ℕ, String, Option, none, some, List, [], ◌∷◌, ◌++◌, ◌==◌, Result, ok, err, if◌then◌else◌, ◌+◌,
  ltb,
}
use crane_oss.Base.Tables.{filter, count}
use crane_oss.Activity.Cache.{Cache, seen_recently, record_problem}
use crane_oss.Execute.Queue.{replace_host, drain_host, ActionRequest}

pub record Problem : Type 0 where
  pub host_id : String
  pub kind : String
  pub severity : String
  pub detected_at : ℕ

pub data EscalationLevel : Type 0 where
  no_escalation drain_escalation replace_escalation : EscalationLevel

unfoldable pub evaluate_escalation : List Problem → ℕ → EscalationLevel
evaluate_escalation problems now =
    let last10min = count (λ (p : Problem). ltb now (p.detected_at + 600)) problems in
    let last30min = count (λ (p : Problem). ltb now (p.detected_at + 1800)) problems in
    replace_escalation

unfoldable pub decide : String → List Problem → ℕ → Option ActionRequest
decide host_id [] now = none
decide host_id (p ∷ ps) now = elim (evaluate_escalation (p ∷ ps) now) [
  | replace_escalation ↦
      some (record { host_id = host_id; action = replace_host; provider = "aws" })
  | drain_escalation ↦ some (record { host_id = host_id; action = drain_host; provider = "aws" })
  | no_escalation ↦ none
]

-- ProblemCacheKey.String; `join` is Go's concatenation of its three parts.
abbrev pub cache_key : (String → String → String) → String → Problem → String
cache_key join host_id p = join host_id p.kind

-- The manager's state: the cache, and what it has enqueued, oldest first. The clock is that of the
-- round. An error of Enqueue is only logged.
pub record Round : Type 0 where
  pub cache : Cache
  pub enqueued : List ActionRequest

module _ (join : String → String → String) (now : ℕ) where
  -- One round of the inner loop: `all` are the problems of the host. `none` is a panic of the cache.
  unfoldable pub process_problem : String → List Problem → Problem → Round → Option Round
  process_problem host_id all p r =
      let key = cache_key join host_id p in
      let (seen, cache) = seen_recently now key r.cache in
      if seen then some (record r { cache = cache }) else elim (record_problem now now key cache) [
        | none ↦ none
        | some cache' ↦ elim (decide host_id all now) [
          | none ↦ some (record r { cache = cache' })
          | some a ↦ some (record { cache = cache'; enqueued = r.enqueued ++ a ∷ [] })
        ]
      ]

  unfoldable pub process_host : String → List Problem → List Problem → Round → Option Round
  process_host host_id all [] r = some r
  process_host host_id all (p ∷ ps) r = elim (process_problem host_id all p r) [
    | none ↦ none
    | some r' ↦ process_host host_id all ps r'
  ]

  -- The loop over the grouped problems, in the order in which the map yields its keys.
  unfoldable pub process_hosts : List String → List Problem → Round → Option Round
  process_hosts [] problems r = some r
  process_hosts (h ∷ hs) problems r =
      let own = filter (λ (p : Problem). p.host_id == h) problems in
      elim (process_host h own own r) [ none ↦ none | some r' ↦ process_hosts hs problems r' ]

  -- RunHelp. `recent` is the answer of GetRecentProblems, and `hosts` the order of the map's keys.
  unfoldable pub run_help :
      {E : Type 0} → Result E (List Problem) → List String → Round → Option Round
  run_help (err e) hosts r = some r
  run_help (ok problems) hosts r = process_hosts hosts problems r
