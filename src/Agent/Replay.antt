-- ===== src/Agent/Replay.antt =====
-- A caller that repeats a request which has succeeded, because the answer was lost or for any other
-- reason: the host is not touched again.
use crane_oss.Base.{
  ℕ, ◌<◌, String, ◌≡◌, ◌≢◌, refl, sym, ap, subst, ◌∙◌, Bool, true, false, ◌&&◌, ◌⊎◌, inl, inr,
  Option, some, arith, Bool-cases, Result-cases, &&-true, ok, ok-injective, if◌then◌else◌, eq_iff,
  eq_refl,
}
use crane_oss.Api.{ExpectedHostState, KubernetesResult}
use crane_oss.Agent.Request.{Syntax}
use crane_oss.Agent.State.{
  AgentOutcome, unconfigured, applying, interrupted, applied, failed, is_applied, SavedState, Agent,
  is_stored, new_server, status,
}
use crane_oss.Agent.Server.{
  refused, Arrival, Surroundings, read_request, conflicts, is_repeated, accepted, accept, locked,
  settle, conclude, enforce, concluded, outcome_of, interrupted_after, respond, update,
}
use crane_oss.Agent.History.{killed, Step, handles, restarts, dies, Reach, here, onward, new_agent}
use crane_oss.Agent.Invariant.{Logged, Follows-≤, Sound}
use crane_oss.Agent.Restart.{started, resumed, read_back, new_server-started}
use crane_oss.Agent.Handling.{update-Sound}
use crane_oss.Agent.Register.{Reach-Sound, reached-Sound, start-Follows, killed-Sound, Step-Follows}

-- An applied state stays, until a newer revision is accepted.
abbrev Outlived : SavedState → SavedState → Type 0
Outlived s t = (t ≡ s) ⊎ (s.request.revision < t.request.revision)

-- A request that neither conflicts nor repeats an applied state is newer than that.
newer :
    (x : Syntax) (e : ExpectedHostState) (s : SavedState)
    → conflicts x e s ≡ false
    → is_repeated e s ≡ false
    → is_applied s.outcome ≡ true
    → s.request.revision < e.revision
newer x e s c r i = ground arith

outcome_of-revision :
    (done w : Bool) (e : ExpectedHostState) (kubernetes : _) (p s : SavedState)
    → (if w
        then outcome_of done e kubernetes s
        else interrupted_after p (outcome_of done e kubernetes s)).request
      ≡ s.request
outcome_of-revision true true e kubernetes p s = refl
outcome_of-revision true false e kubernetes p s = refl
outcome_of-revision false true e kubernetes p s = refl
outcome_of-revision false false e kubernetes p s = refl

accept-Outlived :
    (x : Syntax) (h : Surroundings) (e : ExpectedHostState) (a : Agent)
    → a.saved.request.revision < e.revision
    → Outlived a.saved (accept x h e a).saved
unfolding accept
accept-Outlived x h e a l = elim (Bool-cases (is_stored h.accept_write)) [
  | inl w ↦ rw w (inr l)
  | inr w ↦ rw w (inl refl)
]

accept-request :
    (x : Syntax) (h : Surroundings) (e : ExpectedHostState) (a : Agent)
    → is_stored h.accept_write ≡ true
    → (accept x h e a).saved ≡ accepted x e a.saved
unfolding accept
accept-request x h e a w = rw w refl

locked-Outlived :
    (x : Syntax) (h : Surroundings) (e : ExpectedHostState) (a : Agent)
    → is_applied a.saved.outcome ≡ true
    → Outlived a.saved (locked x h e a).1.saved
unfolding locked conclude
locked-Outlived x h e a i = elim (Bool-cases (conflicts x e a.saved)) [
  | inl c ↦ rw c (inl refl)
  | inr c ↦ elim (Bool-cases (is_repeated e a.saved)) [
    | inl r ↦ rw (c, r) (inl refl)
    | inr r ↦ elim (Bool-cases (is_stored h.accept_write && h.accept_published)) [
      | inl w ↦
          let kept =
            outcome_of-revision (enforce h e).1 (is_stored h.outcome_write) e (enforce h e).0
              a.saved (accept x h e a).saved in
          let taken = accept-request x h e a (&&-true _ _ w).0 in
          rw (c, r, w, kept, taken) (inr (newer x e a.saved c r i))
      | inr w ↦ rw (c, r, w) (accept-Outlived x h e a (newer x e a.saved c r i))
    ]
  ]
]

resumed-applied : (o : AgentOutcome) → is_applied o ≡ true → resumed o ≡ o
resumed-applied unconfigured h = refl
resumed-applied applying h = cc
resumed-applied interrupted h = refl
resumed-applied applied h = refl
resumed-applied failed h = refl

start-Outlived :
    (x : Syntax) (a b : Agent)
    → Sound x a
    → new_server x a ≡ ok b
    → is_applied a.saved.outcome ≡ true
    → Outlived a.saved b.saved
start-Outlived x a b s n i = elim (s.durable i) [
  | inl file ↦
      let back : b.saved ≡ read_back a.file =
        ap (λ c. c.saved) (sym (ok-injective (started a) b (new_server-started x a s) n)) in
      inl (
        back
        ∙ ap read_back file
        ∙ ap (λ o. record a.saved { outcome = o }) (resumed-applied a.saved.outcome i))
  | inr l ↦
      let m = ap (λ k. k.revision) (start-Follows x a b s n) in
      inr (subst (λ k. a.saved.request.revision < k) (sym m) l)
]

Step-Outlived :
    {x : Syntax} {a b : Agent}
    → Sound x a
    → Step x a b
    → is_applied a.saved.outcome ≡ true
    → Outlived a.saved b.saved
unfolding update
Step-Outlived {x} {a} s (handles h q) i = elim (Result-cases (read_request x q)) [
  | inl (e, r) ↦ rw r (locked-Outlived x h e a i)
  | inr (code, r) ↦ rw r (inl refl)
]
Step-Outlived {x} {a} {b} s (restarts n) i = start-Outlived x a b s n i
Step-Outlived {x} {a} {b} s (dies h q e done r c p w n) i =
    let k = killed-Sound x h q e done a r c p s in
    let new : (accept x h e a).saved.request.revision ≡ e.revision =
      ap (λ t. t.request.revision) (accept-request x h e a w) in
    let file = Follows-≤ _ _ k.ahead in
    let back = ap (λ m. m.revision) (start-Follows x (killed x h e done a) b k n) in
    inr (omega (arith, newer x e a.saved c p i))

Reach-Outlived :
    {x : Syntax} {a b : Agent}
    → Sound x a
    → is_applied a.saved.outcome ≡ true
    → Reach x a b
    → Outlived a.saved b.saved
Reach-Outlived s i here = inl refl
Reach-Outlived {x} {a} {b = c} s i (onward {b = mid} r t) =
    let later = Reach-Sound s r in
    elim (Reach-Outlived s i r) [
      | inl same ↦
          subst (λ k. Outlived k c.saved) same
            (Step-Outlived later t (ap (λ k. is_applied k.outcome) same ∙ i))
      | inr l ↦ inr (omega (arith, Follows-≤ _ _ (Step-Follows later t)))
    ]

not_200 : (n : ℕ) → n ≢ 200 → n ≡ 200 → ⊥
not_200 n d e = d e

-- What a success leaves in the memory.
record Served (x : Syntax) (e : ExpectedHostState) (s : SavedState) : Type 0 where
  pub applied_now : is_applied s.outcome ≡ true
  pub revision : s.request.revision ≡ e.revision
  pub digest : s.digest ≡ x.digest e

settled-200 :
    (x : Syntax) (h : Surroundings) (e : ExpectedHostState) (p t : SavedState) (b : Agent)
    (kubernetes : Option KubernetesResult) (done w : Bool)
    → (if w then concluded h done e b else refused 500).code ≡ 200
    → t ≡ accepted x e p
    → Served x e (
        if w
        then outcome_of done e kubernetes t
        else interrupted_after p (outcome_of done e kubernetes t))
settled-200 x h e p t b kubernetes true true u k = record {
  applied_now = refl;
  revision = ap (λ s. s.request.revision) k;
  digest = ap (λ s. s.digest) k;
}
settled-200 x h e p t b kubernetes false true u k = absurd (not_done u)
  where
    not_done : (concluded h false e b).code ≡ 200 → ⊥
    not_done v = grind arith
settled-200 x h e p t b kubernetes done false u k = absurd (not_200 500 (omega arith) u)

locked-200 :
    (x : Syntax) (h : Surroundings) (e : ExpectedHostState) (a : Agent)
    → (locked x h e a).0.code ≡ 200
    → Served x e (locked x h e a).1.saved
unfolding locked conclude
locked-200 x h e a u = elim (Bool-cases (conflicts x e a.saved)) [
  | inl c ↦ absurd (not_200 409 (omega arith) (rw c at u))
  | inr c ↦ elim (Bool-cases (is_repeated e a.saved)) [
    | inl r ↦
        rw (c, r)
          (record {
            applied_now = (&&-true _ _ r).1;
            revision = ground arith;
            digest = ground (arith, eq_iff (x.digest e) a.saved.digest);
          })
    | inr r ↦ elim (Bool-cases (is_stored h.accept_write && h.accept_published)) [
      | inl w ↦
          rw (c, r, w)
            (settled-200 x h e a.saved (accept x h e a).saved (settle h e a.saved (accept x h e a))
              (enforce h e).0 (enforce h e).1 (is_stored h.outcome_write) (rw (c, r, w) at u)
              (accept-request x h e a (&&-true _ _ w).0))
      | inr w ↦ absurd (not_200 500 (omega arith) (rw (c, r, w) at u))
    ]
  ]
]

Served-≡ :
    (x : Syntax) (e : ExpectedHostState) (s t : SavedState) → t ≡ s → Served x e s → Served x e t
Served-≡ x e s t same v = subst (Served x e) (sym same) v

again :
    (x : Syntax) (h : Surroundings) (e : ExpectedHostState) (b : Agent)
    → Served x e b.saved
    → locked x h e b ≡ (record { code = 200; body = some (status b.identity b.saved) }, b)
unfolding locked
again x h e b v =
    let calm : conflicts x e b.saved ≡ false =
      rw (v.revision, v.digest, eq_refl (x.digest e)) (ground arith) in
    let repeated : is_repeated e b.saved ≡ true = rw (v.revision, v.applied_now) (ground arith) in
    rw (calm, repeated) refl

late : (m n k : ℕ) → m < n → m ≡ k → n ≡ k → ⊥
late m n k l p q = omega arith

-- A request that an agent, come from a new one, has answered with 200 is answered with 200 at any
-- later time at which its revision is still the accepted one, restarts in between included; nothing
-- is enforced then and nothing changes.
pub update-again :
    (x : Syntax) (identity : String) (a b : Agent) (h h' : Surroundings) (i : Arrival)
    (e : ExpectedHostState)
    → Reach x (new_agent identity) a
    → read_request x i ≡ ok e
    → (update x h i a).0.code ≡ 200
    → Reach x (update x h i a).1 b
    → b.saved.request.revision ≡ e.revision
    → update x h' i b ≡ (record { code = 200; body = some (status b.identity b.saved) }, b)
unfolding update locked
update-again x identity a b h h' i e r q u t n =
    let served = locked-200 x h e a (rw q at u) in
    let sound : Sound x (locked x h e a).1 =
      subst (λ o. Sound x (respond x h a o).1) q
        (update-Sound x h i a (reached-Sound identity r)) in
    let onward' : Reach x (locked x h e a).1 b = subst (λ o. Reach x (respond x h a o).1 b) q t in
    elim (Reach-Outlived sound served.applied_now onward') [
      | inl same ↦ rw (q, again x h' e b (Served-≡ x e _ b.saved same served)) refl
      | inr l ↦ absurd (late _ _ _ l served.revision n)
    ]

-- Where an agent, come from a new one, answers a request with 200, its host has enforced a state of the
-- request's revision, and that state is the one it keeps, under the request's hash.
pub update-enforced :
    (x : Syntax) (identity : String) (a : Agent) (h : Surroundings) (i : Arrival)
    (e : ExpectedHostState)
    → Reach x (new_agent identity) a
    → read_request x i ≡ ok e
    → (update x h i a).0.code ≡ 200
    → (r : ExpectedHostState) × Logged r (update x h i a).1.enforced
      × (r.revision ≡ e.revision)
      × ((update x h i a).1.saved.request ≡ r)
      × ((update x h i a).1.saved.digest ≡ x.digest e)
unfolding update
update-enforced x identity a h i e r q u =
    let sound = update-Sound x h i a (reached-Sound identity r) in
    let served : Served x e (update x h i a).1.saved =
      subst (λ o. Served x e (respond x h a o).1.saved) (sym q) (locked-200 x h e a (rw q at u)) in
    (
      (update x h i a).1.saved.request,
      (sound.memory.exact served.applied_now).1,
      served.revision,
      refl,
      served.digest,
    )
