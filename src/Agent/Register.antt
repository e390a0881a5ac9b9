-- ===== src/Agent/Register.antt =====
-- Histories of the agent, restarts included: what it has accepted is a register that only newer
-- revisions overwrite, and the version it shows has been enforced.
use crane_oss.Base.{
  ℕ, String, ◌≡◌, ◌≢◌, refl, sym, ap, subst, ◌∙◌, Bool, true, false, ◌&&◌, inl, inr, arith,
  Bool-cases, Result-cases, &&-true, ok, ok-injective, if◌then◌else◌, eqb, ◌==◌, eq_iff,
}
use crane_oss.Api.{ExpectedHostState}
use crane_oss.Agent.Request.{Syntax}
use crane_oss.Agent.State.{is_applied, SavedState, Agent, is_stored, new_server, status}
use crane_oss.Agent.Server.{
  refused, Arrival, Surroundings, read_request, conflicts, is_repeated, accept, locked, settle,
  conclude, enforce, concluded, outcome_of, interrupted_after, update,
}
use crane_oss.Agent.History.{killed, Step, handles, restarts, dies, Reach, here, onward, new_agent}
use crane_oss.Agent.Invariant.{
  Logged, mark, file_mark, Follows, Follows-trans, Sound, accepted-Follows, read_request-valid,
  Sound-log_of,
}
use crane_oss.Agent.Restart.{started, read_back-mark, new_server-started, started-Sound}
use crane_oss.Agent.Handling.{accept-Sound, update-Sound}

new_agent-Sound : (x : Syntax) (identity : String) → Sound x (new_agent identity)
new_agent-Sound x identity = record {
  memory = record { bounded = omega arith; backed = inl refl; exact = λ a. cc };
  kept = tt;
  ahead = inr refl;
  durable = λ a. cc;
  shown = refl;
}

pub killed-Sound :
    (x : Syntax) (h : Surroundings) (i : Arrival) (e : ExpectedHostState) (done : Bool) (a : Agent)
    → read_request x i ≡ ok e
    → conflicts x e a.saved ≡ false
    → is_repeated e a.saved ≡ false
    → Sound x a
    → Sound x (killed x h e done a)
killed-Sound x h i e done a r c p s =
    Sound-log_of x done e (accept x h e a) (accept-Sound x h e a (read_request-valid x i e r) c p s)

start-Sound : (x : Syntax) (a b : Agent) → Sound x a → new_server x a ≡ ok b → Sound x b
start-Sound x a b s n =
    subst (Sound x) (ok-injective (started a) b (new_server-started x a s) n) (started-Sound x a s)

pub Step-Sound : {x : Syntax} {a b : Agent} → Sound x a → Step x a b → Sound x b
Step-Sound {x} {a} s (handles h i) = update-Sound x h i a s
Step-Sound {x} {a} {b} s (restarts n) = start-Sound x a b s n
Step-Sound {x} {a} {b} s (dies h i e done r c p w n) =
    start-Sound x (killed x h e done a) b (killed-Sound x h i e done a r c p s) n

pub Reach-Sound : {x : Syntax} {a b : Agent} → Sound x a → Reach x a b → Sound x b
Reach-Sound s here = s
Reach-Sound s (onward r t) = Step-Sound (Reach-Sound s r) t

pub reached-Sound :
    {x : Syntax} {a : Agent} (identity : String) → Reach x (new_agent identity) a → Sound x a
reached-Sound {x} identity r = Reach-Sound (new_agent-Sound x identity) r

-- The marks.
pub start-Follows :
    (x : Syntax) (a b : Agent) → Sound x a → new_server x a ≡ ok b → mark b.saved ≡ file_mark a.file
start-Follows x a b s n =
    ap (λ c. mark c.saved) (sym (ok-injective (started a) b (new_server-started x a s) n))
    ∙ read_back-mark a.file

outcome_of-mark :
    (done : Bool) (w : Bool) (e : ExpectedHostState) (kubernetes : _) (p s : SavedState)
    → mark (
        if w
        then outcome_of done e kubernetes s
        else interrupted_after p (outcome_of done e kubernetes s))
      ≡ mark s
outcome_of-mark true true e kubernetes p s = refl
outcome_of-mark true false e kubernetes p s = refl
outcome_of-mark false true e kubernetes p s = refl
outcome_of-mark false false e kubernetes p s = refl

pub accept-mark :
    (x : Syntax) (h : Surroundings) (e : ExpectedHostState) (a : Agent)
    → conflicts x e a.saved ≡ false
    → Follows (mark a.saved) (mark (accept x h e a).saved)
unfolding accept
accept-mark x h e a c = elim (Bool-cases (is_stored h.accept_write)) [
  | inl w ↦ rw w (accepted-Follows x e a.saved c)
  | inr w ↦ rw w (inr refl)
]

locked-Follows :
    (x : Syntax) (h : Surroundings) (e : ExpectedHostState) (a : Agent)
    → Follows (mark a.saved) (mark (locked x h e a).1.saved)
unfolding locked conclude
locked-Follows x h e a = elim (Bool-cases (conflicts x e a.saved)) [
  | inl c ↦ rw c (inr refl)
  | inr c ↦ elim (Bool-cases (is_repeated e a.saved)) [
    | inl r ↦ rw (c, r) (inr refl)
    | inr r ↦ elim (Bool-cases (is_stored h.accept_write && h.accept_published)) [
      | inl w ↦
          rw
            (
              c,
              r,
              w,
              outcome_of-mark (enforce h e).1 (is_stored h.outcome_write) e (enforce h e).0 a.saved
                  (accept x h e a).saved,
            )
            (accept-mark x h e a c)
      | inr w ↦ rw (c, r, w) (accept-mark x h e a c)
    ]
  ]
]

pub Step-Follows :
    {x : Syntax} {a b : Agent} → Sound x a → Step x a b → Follows (mark a.saved) (mark b.saved)
unfolding update
Step-Follows {x} {a} s (handles h i) = elim (Result-cases (read_request x i)) [
  | inl (e, r) ↦ rw r (locked-Follows x h e a)
  | inr (code, r) ↦ rw r (inr refl)
]
Step-Follows {x} {a} {b} s (restarts n) =
    subst (Follows (mark a.saved)) (sym (start-Follows x a b s n)) s.ahead
Step-Follows {x} {a} {b} s (dies h i e done r c p w n) =
    let k = killed-Sound x h i e done a r c p s in
    Follows-trans (mark a.saved) (mark (accept x h e a).saved) (mark b.saved)
      (accept-mark x h e a c)
      (subst (Follows (mark (accept x h e a).saved))
        (sym (start-Follows x (killed x h e done a) b k n)) k.ahead)

-- Over any history that starts with a new agent's, restarts at any point included, what the agent
-- has accepted is a register that only newer revisions overwrite: a revision stands for one content.
pub Reach-Follows :
    (x : Syntax) (identity : String) (a b : Agent)
    → Reach x (new_agent identity) a
    → Reach x a b
    → Follows (mark a.saved) (mark b.saved)
Reach-Follows x identity a b r here = inr refl
Reach-Follows x identity a b r (onward {b = mid} t s) =
    Follows-trans (mark a.saved) (mark mid.saved) (mark b.saved)
      (Reach-Follows x identity a mid r t)
      (Step-Follows (Reach-Sound (reached-Sound identity r) t) s)

-- The file of an agent that has come from a new one, in any history, is one that NewServer accepts, and
-- the state read back is not behind the one in memory.
pub Reach-restarts :
    (x : Syntax) (identity : String) (a : Agent)
    → Reach x (new_agent identity) a
    → (b : Agent) × (new_server x a ≡ ok b) × Follows (mark a.saved) (mark b.saved)
Reach-restarts x identity a r =
    let s = reached-Sound identity r in
    (
      started a,
      new_server-started x a s,
      subst (Follows (mark a.saved)) (sym (read_back-mark a.file)) s.ahead,
    )

-- Where an agent that has come from a new one shows a version, its host has enforced a state of that
-- version, and the state has the accepted revision.
pub view-Logged :
    (x : Syntax) (identity : String) (a : Agent)
    → Reach x (new_agent identity) a
    → (a.view.expected_version == "") ≡ false
    → (e : ExpectedHostState) × Logged e a.enforced
      × (e.revision ≡ a.view.accepted_revision)
      × (e.version ≡ a.view.expected_version)
unfolding status
view-Logged x identity a r v =
    let s = reached-Sound identity r in
    let shown : (a.view ≡ status a.identity a.saved) = s.shown in
    elim (Bool-cases
      (is_applied a.saved.outcome && eqb a.saved.applied_revision a.saved.request.revision)) [
        | inl h ↦ (
          a.saved.request,
          (s.memory.exact (&&-true _ _ h).0).1,
          sym (ap (λ w. w.accepted_revision) shown),
          sym (ap (λ w. w.expected_version) shown ∙ rw h refl),
        )
        | inr h ↦
            let hidden : a.view.expected_version ≡ "" =
              ap (λ w. w.expected_version) shown ∙ rw h refl in
            ground (arith, eq_iff a.view.expected_version "")
      ]

conclude-409 :
    (h : Surroundings) (done : Bool) (e : ExpectedHostState) (b : Agent) (w : Bool)
    → (if w then concluded h done e b else refused 500).code ≡ 409
    → ⊥
conclude-409 h done e b true u = grind arith
conclude-409 h done e b false u = omega arith

not_409 : (n : ℕ) → n ≢ 409 → n ≡ 409 → ⊥
not_409 n d e = d e

conflict-409 :
    (x : Syntax) (h : Surroundings) (e : ExpectedHostState) (a : Agent)
    → (locked x h e a).0.code ≡ 409
    → conflicts x e a.saved ≡ true
unfolding locked conclude
conflict-409 x h e a u = elim (Bool-cases (conflicts x e a.saved)) [
  | inl c ↦ c
  | inr c ↦ elim (Bool-cases (is_repeated e a.saved)) [
    | inl r ↦ absurd (not_409 200 (omega arith) (rw (c, r) at u))
    | inr r ↦ elim (Bool-cases (is_stored h.accept_write && h.accept_published)) [
      | inl w ↦ absurd (
          conclude-409 h (enforce h e).1 e (settle h e a.saved (accept x h e a))
            (is_stored h.outcome_write) (rw (c, r, w) at u))
      | inr w ↦ absurd (not_409 500 (omega arith) (rw (c, r, w) at u))
    ]
  ]
]

conflicts-Follows :
    (x : Syntax) (e : ExpectedHostState) (a b : Agent)
    → conflicts x e a.saved ≡ true
    → Follows (mark a.saved) (mark b.saved)
    → conflicts x e b.saved ≡ true
conflicts-Follows x e a b c (inl l) = ground arith
conflicts-Follows x e a b c (inr m) =
    let n : a.saved.request.revision ≡ b.saved.request.revision = ap (λ k. k.revision) m in
    let d : a.saved.digest ≡ b.saved.digest = ap (λ k. k.digest) m in rw⁻¹ (n, d) c

-- A request that an agent, come from a new one, answers with 409 is answered so at any later time,
-- and changes nothing then.
pub update-refused :
    (x : Syntax) (identity : String) (a b : Agent) (h h' : Surroundings) (i : Arrival)
    (e : ExpectedHostState)
    → Reach x (new_agent identity) a
    → read_request x i ≡ ok e
    → (update x h i a).0.code ≡ 409
    → Reach x a b
    → update x h' i b ≡ (refused 409, b)
unfolding update locked
update-refused x identity a b h h' i e r q u t =
    let c : conflicts x e a.saved ≡ true = conflict-409 x h e a (rw q at u) in
    rw (q, conflicts-Follows x e a b c (Reach-Follows x identity a b r t)) refl
