-- ===== src/Activity/Scenarios.antt =====
-- A problem of a host, seen in two rounds.
use crane_oss.Base.{ℕ, String, ◌≡◌, refl, Option, none, some, [], ◌∷◌, length}
use crane_oss.Execute.Queue.{replace_host}
use crane_oss.Activity.Cache.{Cache, Node, record_problem, evict, seen_recently}
use crane_oss.Activity.Manager.{Problem, Round, decide, evaluate_escalation, process_problem}
use crane_oss.Activity.Repeats.{process_problem-again}

abbrev join : String → String → String
join host_id kind = kind

abbrev problem : Problem
problem = record { host_id = "a"; kind = "disk"; severity = "critical"; detected_at = 90 }

abbrev empty : Round
empty = record {
  cache = record { nodes = []; index = []; capacity = 10; ttl = 3600; fresh = 0 };
  enqueued = [];
}

abbrev acted : Round
acted =
    let n : Node = record { id = 0; key = "disk"; last_seen = 100 } in
    record {
      cache = record { nodes = n ∷ []; index = n ∷ []; capacity = 10; ttl = 3600; fresh = 1 };
      enqueued = record { host_id = "a"; action = replace_host; provider = "aws" } ∷ [];
    }

first_round : process_problem join 100 "a" (problem ∷ []) problem empty ≡ some acted
unfolding process_problem seen_recently record_problem evict decide evaluate_escalation
first_round = refl

process_problem-again_example :
    (again : Round) × (process_problem join 160 "a" (problem ∷ problem ∷ []) problem acted
      ≡ some again)
    × (again.enqueued ≡ acted.enqueued)
process_problem-again_example =
    process_problem-again join 100 160 "a" (problem ∷ []) (problem ∷ problem ∷ []) problem empty
      acted first_round

-- A cache for two keys: `a` is recorded twice, then three other keys once.
abbrev recorded : ℕ → String → Option Cache → Option Cache
recorded now key none = none
recorded now key (some c) = record_problem now now key c

abbrev keys : Option Cache → Option ℕ
keys none = none
keys (some c) = some (length c.index)

beyond_capacity :
    keys (
      recorded 5 "d" (
        recorded 4 "c" (
          recorded 3 "b" (
            recorded 2 "a" (
              recorded 1 "a"
                (some (record { nodes = []; index = []; capacity = 2; ttl = 3600; fresh = 0 })))))))
    ≡ some 3
unfolding record_problem evict
beyond_capacity = refl
