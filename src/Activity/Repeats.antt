-- ===== src/Activity/Repeats.antt =====
-- manager.go and the problem cache: a problem that comes twice.
use mathlib.Core.Option.{some-injective}
use crane_oss.Base.{
  ℕ, String, ◌≡◌, refl, subst, ap, sym, ◌∙◌, true, false, ◌==◌, eq_refl, Option, none, some, List,
  [], ◌∷◌, ◌++◌, Bool-cases, Option-cases, inl, inr,
}
use crane_oss.Base.Tables.{find, filter}
use crane_oss.Activity.Cache.{
  Node, Cache, has_key, other_key, add_mr, remove_node, lookup, record_problem, seen_recently,
}
use crane_oss.Execute.Queue.{ActionRequest}
use crane_oss.Activity.Manager.{Problem, Round, decide, cache_key, process_problem}

-- The map leads to a node of this key.
Remembers : String → Cache → Type 0
Remembers key c = (n : Node) × (lookup key c ≡ some n)

find-others :
    (key : String) (ns : List Node) (n : Node)
    → has_key key n ≡ true
    → find (has_key key) (filter (other_key key) ns ++ n ∷ []) ≡ some n
find-others key [] n h = rw h refl
find-others key (x ∷ xs) n h = elim (Bool-cases (x.key == key)) [
  | inl e ↦ rw e (find-others key xs n h)
  | inr e ↦ rw (e, e) (find-others key xs n h)
]

add_mr-Remembers : (now : ℕ) (key : String) (c : Cache) → Remembers key (add_mr now key c)
unfolding Remembers
add_mr-Remembers now key c =
    (_, find-others key c.index (record { id = c.fresh; key = key; last_seen = now }) (eq_refl key))

record_problem-Remembers :
    (now later : ℕ) (key : String) (c c' : Cache)
    → record_problem now later key c ≡ some c'
    → Remembers key c'
unfolding record_problem
record_problem-Remembers now later key c c' h = recorded _ h
  where
    recorded :
        (m : Option Cache)
        → (elim m as (λ _. Option Cache) [ none ↦ none | some d ↦ some (add_mr later key d) ])
          ≡ some c'
        → Remembers key c'
    recorded none h = cc
    recorded (some d) h =
        subst (Remembers key) (some-injective _ c' h) (add_mr-Remembers later key d)

seen_recently-Remembers :
    (now : ℕ) (key : String) (c : Cache) → Remembers key c → (seen_recently now key c).0 ≡ true
unfolding seen_recently Remembers
seen_recently-Remembers now key c (n, found) = rw (found, seen_recently) refl

-- What the cache remembers is not acted on: the round only moves it to the end of the list.
skip-Remembers :
    (join : String → String → String) (now : ℕ) (host_id : String) (all : List Problem)
    (p : Problem) (r : Round)
    → Remembers (cache_key join host_id p) r.cache
    → (after : Round) × (process_problem join now host_id all p r ≡ some after)
      × (after.enqueued ≡ r.enqueued)
      × Remembers (cache_key join host_id p) after.cache
unfolding process_problem seen_recently Remembers
skip-Remembers join now host_id all p r (n, found) =
    let moved = add_mr now (cache_key join host_id p) (remove_node n r.cache) in
    (
      record r { cache = moved },
      rw (found, seen_recently, process_problem) refl,
      refl,
      add_mr-Remembers now (cache_key join host_id p) (remove_node n r.cache),
    )

recorded-Remembers :
    (now : ℕ) (host_id key : String) (all : List Problem) (r r' : Round) (m : Option Cache)
    → record_problem now now key r.cache ≡ m
    → (elim m as (λ _. Option Round) [
      | none ↦ none
      | some c ↦ elim (decide host_id all now) as (λ _. Option Round) [
        | none ↦ some (record r { cache = c })
        | some a ↦ some (record { cache = c; enqueued = r.enqueued ++ a ∷ [] })
      ]
    ])
      ≡ some r'
    → Remembers key r'.cache
recorded-Remembers now host_id key all r r' none e h = cc
recorded-Remembers now host_id key all r r' (some c) e h =
    subst (Remembers key) (kept (decide host_id all now) h)
      (record_problem-Remembers now now key r.cache c e)
  where
    kept :
        (a : Option ActionRequest)
        → (elim a as (λ _. Option Round) [
          | none ↦ some (record r { cache = c })
          | some a ↦ some (record { cache = c; enqueued = r.enqueued ++ a ∷ [] })
        ])
          ≡ some r'
        → c ≡ r'.cache
    kept none h = ap (λ (x : Round). x.cache) (some-injective _ r' h)
    kept (some a) h = ap (λ (x : Round). x.cache) (some-injective _ r' h)

seen_recently-missing :
    (now : ℕ) (key : String) (c : Cache)
    → lookup key c ≡ none
    → seen_recently now key c ≡ (false, c)
unfolding seen_recently
seen_recently-missing now key c missing = rw (missing, seen_recently) refl

processed-Remembers :
    (join : String → String → String) (now : ℕ) (host_id : String) (all : List Problem)
    (p : Problem) (r r' : Round)
    → process_problem join now host_id all p r ≡ some r'
    → Remembers (cache_key join host_id p) r'.cache
unfolding process_problem
processed-Remembers join now host_id all p r r' h =
    elim (Option-cases (lookup (cache_key join host_id p) r.cache)) [
      | inl missing ↦
          recorded-Remembers now host_id (cache_key join host_id p) all r r'
            (record_problem now now (cache_key join host_id p) r.cache) refl
            (rw
              (
                seen_recently-missing now (cache_key join host_id p) r.cache missing,
                process_problem,
              )
              at h)
      | inr known ↦
          let (after, e, _, remembers) =
            skip-Remembers join now host_id all p r (unfold Remembers in known) in
          subst (λ (x : Round). Remembers (cache_key join host_id p) x.cache)
            (some-injective after r' (sym e ∙ h)) remembers
    ]

-- Where a problem that was processed comes again directly after, before anything else touches the cache,
-- whatever the time by then and whatever other problems the host has, the round goes on and no further
-- action is enqueued.
pub process_problem-again :
    (join : String → String → String) (now later : ℕ) (host_id : String) (all others : List Problem)
    (p : Problem) (r r' : Round)
    → process_problem join now host_id all p r ≡ some r'
    → (again : Round) × (process_problem join later host_id others p r' ≡ some again)
      × (again.enqueued ≡ r'.enqueued)
process_problem-again join now later host_id all others p r r' h =
    let (again, e, same, _) =
      skip-Remembers join later host_id others p r'
        (processed-Remembers join now host_id all p r r' h) in
    (again, e, same)
