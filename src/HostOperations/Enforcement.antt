-- ===== src/HostOperations/Enforcement.antt =====
-- The controller and a host's agent, over a wire that loses requests and answers: a success that the
-- controller reports has been enforced on the host.
use crane_oss.Base.{
  ℕ, suc, String, ◌≡◌, refl, sym, ap, subst, ◌∙◌, Bool, true, false, not, ◌&&◌, ◌||◌, ◌==◌, Option,
  none, some, arith, Bool-cases, Option-cases, Result-cases, inl, inr, eqb, ltb, leb, if◌then◌else◌,
  Result, ok, err,
}
use mathlib.Core.Option.{some-injective}
use crane_oss.Base.Tables.{any}
use crane_oss.Api.{ExpectedHostState}
use crane_oss.Capacity.Policy.{max_int64}
use crane_oss.Agent.Request.{Syntax}
use crane_oss.Agent.State.{is_applied, is_stored, HostAgentStatus, Agent, status}
use crane_oss.Agent.Server.{
  Reply, refused, Arrival, Surroundings, read_request, conflicts, is_repeated, accept, concluded,
  enforce, settle, conclude, locked, update,
}
use crane_oss.Agent.History.{Reach, new_agent}
use crane_oss.Agent.Invariant.{Logged, Sound}
use crane_oss.Agent.Handling.{update-Sound}
use crane_oss.Agent.Register.{reached-Sound}
use crane_oss.HostOperations.Store.{
  RequestOutcome, failed_request, unknown_request, SecretResult, StateRequest, Store,
  find_state_request,
}
use crane_oss.HostOperations.Controller.{
  SecretRequest, Controller, Weather, Caller, Executed, Prepared, prepare, is_applied_request,
  is_own_answer, is_failed_agent, is_verified, or_before, judge, result_of, stop, persist,
  committed, delivered, deliver_state, allocate_at, known_maximum, with_request, contacted, checked,
  is_healthy, replayed, looked_up, after_prepare, execute, new_state_request, clashes,
  configures_telemetry,
}

-- What becomes of one call of the agent.
pub data Fate : Type 0 where
  request_lost answer_lost delivered_call : Fate

-- hostrpc's call: an answer of 200 without a status in its body is an error.
abbrev pub received_body : ℕ → Option HostAgentStatus → Option (ℕ × Option HostAgentStatus)
received_body code (some s) = some (code, some s)
received_body code none = if eqb code 200 then none else some (code, none)

abbrev pub carry : Fate → Reply × Agent → Agent → Option (ℕ × Option HostAgentStatus) × Agent
carry request_lost answer before = (none, before)
carry answer_lost answer before = (none, answer.1)
carry delivered_call answer before = (received_body answer.0.code answer.0.body, answer.1)

abbrev pub healthy : Fate → Agent → Option (ℕ × Option HostAgentStatus) × Agent
healthy delivered_call a = (some (200, some a.view), a)
healthy _ a = (none, a)

-- The agent of a host as the controller's caller reaches it.
abbrev pub agent_caller : Syntax → Surroundings → Bool → Fate → Fate → Caller Agent
agent_caller x h cancelled get put = record {
  health = healthy get;
  put_state = λ e a.
      carry put (update x h (record { deadline_ok = true; body = some e; cancelled = cancelled }) a)
        a;
}

no_body : (s : HostAgentStatus) → none ≡ some s → ⊥
no_body s k = cc

conclude-body :
    (h : Surroundings) (done w : Bool) (e : ExpectedHostState) (b : Agent) (s : HostAgentStatus)
    → (if w then concluded h done e b else refused 500).body ≡ some s
    → status b.identity b.saved ≡ s
conclude-body h done false e b s q = absurd (no_body s q)
conclude-body h done true e b s q = elim (Bool-cases h.outcome_published) [
  | inr p ↦ absurd (no_body s (rw p at q))
  | inl p ↦ elim (Bool-cases done) [
    | inl d ↦ some-injective _ s (rw (p, d) at q)
    | inr d ↦ elim (Option-cases e.secret) [
      | inl n ↦ absurd (no_body s (rw (p, d, n) at q))
      | inr (k, n) ↦ some-injective _ s (rw (p, d, n) at q)
    ]
  ]
]

-- The status in an answer is that of the agent as the answer leaves it.
locked-body :
    (x : Syntax) (h : Surroundings) (e : ExpectedHostState) (a : Agent) (s : HostAgentStatus)
    → (locked x h e a).0.body ≡ some s
    → status (locked x h e a).1.identity (locked x h e a).1.saved ≡ s
unfolding locked conclude
locked-body x h e a s q = elim (Bool-cases (conflicts x e a.saved)) [
  | inl c ↦ absurd (no_body s (rw c at q))
  | inr c ↦ elim (Bool-cases (is_repeated e a.saved)) [
    | inl r ↦ rw (c, r) (some-injective _ s (rw (c, r) at q))
    | inr r ↦ elim (Bool-cases (is_stored h.accept_write && h.accept_published)) [
      | inl w ↦
          rw (c, r, w)
            (conclude-body h (enforce h e).1 (is_stored h.outcome_write) e
              (settle h e a.saved (accept x h e a)) s (rw (c, r, w) at q))
      | inr w ↦ absurd (no_body s (rw (c, r, w) at q))
    ]
  ]
]

-- A status that an agent shows as applied is backed by its host.
abbrev Backs : Agent → ℕ → Type 0
Backs a n = (r : ExpectedHostState) × Logged r a.enforced × (r.revision ≡ n)

status-Backs :
    (x : Syntax) (a : Agent) (s : HostAgentStatus)
    → Sound x a
    → status a.identity a.saved ≡ s
    → is_applied s.outcome ≡ true
    → Backs a s.applied_revision
unfolding status
status-Backs x a s v same i =
    let (exact, logged) = v.memory.exact (ap (λ t. is_applied t.outcome) same ∙ i) in
    (a.saved.request, logged, sym exact ∙ ap (λ t. t.applied_revision) same)

-- What an answer that has been carried claims is so.
abbrev Honest : Option (ℕ × Option HostAgentStatus) × Agent → Type 0
Honest (none, b) = Unit {0}
Honest (some (code, none), b) = code ≡ 200 → ⊥
Honest (some (code, some s), b) = is_applied s.outcome ≡ true → Backs b s.applied_revision

update-body :
    (x : Syntax) (h : Surroundings) (i : Arrival) (a : Agent) (s : HostAgentStatus)
    → (update x h i a).0.body ≡ some s
    → status (update x h i a).1.identity (update x h i a).1.saved ≡ s
unfolding update
update-body x h i a s q = elim (Result-cases (read_request x i)) [
  | inl (e, r) ↦ rw r (locked-body x h e a s (rw r at q))
  | inr (code, r) ↦ absurd (no_body s (rw r at q))
]

received-Honest :
    (x : Syntax) (code : ℕ) (body : Option HostAgentStatus) (b : Agent)
    → Sound x b
    → ((s : HostAgentStatus) → body ≡ some s → status b.identity b.saved ≡ s)
    → Honest (received_body code body, b)
received-Honest x code (some s) b v k = status-Backs x b s v (k s refl)
received-Honest x code none b v k = elim (Bool-cases (eqb code 200)) [
  | inl e ↦ rw e tt
  | inr e ↦ rw e (λ c. ground (arith, c))
]

carry-Honest :
    (x : Syntax) (h : Surroundings) (i : Arrival) (put : Fate) (a : Agent)
    → Sound x a
    → Honest (carry put (update x h i a) a)
carry-Honest x h i request_lost a v = tt
carry-Honest x h i answer_lost a v = tt
carry-Honest x h i delivered_call a v =
    received-Honest x (update x h i a).0.code (update x h i a).0.body (update x h i a).1
      (update-Sound x h i a v) (update-body x h i a)

-- A success that an execution reports is backed by the agent that it leaves.
record Good (e : Executed Agent) : Type 0 where
  pub backs : e.error ≡ none → Backs e.state e.result.revision

failed-Good : (e : Executed Agent) (code : ℕ) → e.error ≡ some code → Good e
failed-Good e code h = record { backs = λ q. absurd (apart e.error q h) }
  where
    apart : (o : Option ℕ) → o ≡ none → o ≡ some code → ⊥
    apart o q k = cc

if-Good : (b : Bool) (e f : Executed Agent) → Good e → Good f → Good (if b then e else f)
if-Good true e f g k = g
if-Good false e f g k = k

refuse-Good :
    (w : Weather) (caller : Caller Agent) (b : Bool) (code : ℕ) (result : SecretResult) (st : Store)
    (s : Agent) (f : Executed Agent)
    → Good f
    → Good (if b then stop w caller code result st s else f)
refuse-Good w caller true code result st s f g = failed-Good _ code refl
refuse-Good w caller false code result st s f g = g

module _ (w : Weather) (caller : Caller Agent) where
  stop-Good :
      (code : ℕ) (result : SecretResult) (st : Store) (s : Agent)
      → Good (stop w caller code result st s)
  stop-Good code result st s = failed-Good _ code refl

  committed-Good :
      (result : SecretResult) (st : Store) (s : Agent)
      → (is_applied_request result.outcome ≡ true → Backs s result.revision)
      → Good (committed w caller result st s)
  committed-Good result st s b = elim (Bool-cases (is_applied_request result.outcome)) [
    | inl a ↦ rw a (record { backs = λ k. b a })
    | inr a ↦ rw a (stop-Good _ result st s)
  ]

  persist-Good :
      (p : Prepared) (result : SecretResult) (st : Store) (s : Agent)
      → (is_applied_request result.outcome ≡ true → Backs s result.revision)
      → Good (persist w caller p result st s)
  unfolding persist
  persist-Good p result st s b =
      elim (Bool-cases (
        not w.update_ok
        || (configures_telemetry p.secret && not w.observability_ok)
        || not w.commit_ok)) [
          | inl e ↦ rw e (stop-Good 503 result st s)
          | inr e ↦ rw e (committed-Good result _ s b)
        ]

  judge-Good :
      (p : Prepared) (revision code : ℕ) (t : HostAgentStatus) (s : Agent)
      → (code ≡ 200 → is_applied t.outcome ≡ true → Backs s t.applied_revision)
      → is_applied_request (judge p revision code t).outcome ≡ true
      → Backs s (judge p revision code t).revision
  judge-Good p revision code t s b a = elim (Bool-cases (is_own_answer p revision t)) [
    | inl o ↦
        elim (Bool-cases (
          eqb code 200
          && is_applied t.outcome
          && eqb t.applied_revision revision
          && is_verified p.secret t.kubernetes)) [
            | inl g ↦
                let answered : code ≡ 200 = ground arith in
                let applied : is_applied t.outcome ≡ true = ground arith in
                let same : t.applied_revision ≡ revision = ground arith in
                rw o (subst (Backs s) same (b answered applied))
            | inr n ↦ absurd (not_applied (is_failed_agent t.outcome) (rw (o, n) at a))
          ]
    | inr o ↦ absurd (not_unknown (rw o at a))
  ]
    where
      not_applied :
          (b : Bool) → is_applied_request (if b then failed_request else unknown_request) ≡ true → ⊥
      not_applied true h = cc
      not_applied false h = cc

      not_unknown : is_applied_request unknown_request ≡ true → ⊥
      not_unknown h = cc

  claims :
      (code : ℕ) (body : Option HostAgentStatus) (before : HostAgentStatus) (s : Agent)
      → Honest (some (code, body), s)
      → code ≡ 200
      → is_applied (or_before body before).outcome ≡ true
      → Backs s (or_before body before).applied_revision
  claims code none before s k c i = absurd (k c)
  claims code (some t) before s k c i = k i

  delivered-Good :
      (p : Prepared) (revision : ℕ) (before : HostAgentStatus) (st : Store)
      (answer : Option (ℕ × Option HostAgentStatus) × Agent)
      → Honest answer
      → Good (delivered w caller p revision before st answer)
  delivered-Good p revision before st (none, s) k = persist-Good p _ st s (λ a. cc)
  delivered-Good p revision before st (some (code, body), s) k =
      if-Good (eqb code 409) _ _ (failed-Good _ 409 refl) (
        persist-Good p _ st s
          (judge-Good p revision code (or_before body before) s (claims code body before s k)))

-- Where the agent answers honestly at `a`, and the health check leaves it at `a`.
module _ (w : Weather) (x : Syntax) (h : Surroundings) (cancelled : Bool) (get put : Fate)
    (a : Agent) (sound : Sound x a) where
  deliver_state-Good :
      (p : Prepared) (revision : ℕ) (before : HostAgentStatus) (st : Store)
      → Good (deliver_state w (agent_caller x h cancelled get put) p revision before st a)
  deliver_state-Good p revision before st =
      delivered-Good w (agent_caller x h cancelled get put) p revision before st _
        (carry-Honest x h _ put a sound)

  allocate-Good :
      (p : Prepared) (n : ℕ) (before : HostAgentStatus) (st : Store)
      → Good (allocate_at w (agent_caller x h cancelled get put) p n before st a)
  allocate-Good p n before st =
      let caller = agent_caller x h cancelled get put in
      let clash =
        not w.insert_ok || any (clashes (new_state_request p (suc n))) st.state_requests in
      let end = deliver_state w caller p (suc n) before (with_request p (suc n) st) a in
      let last =
        if clash then stop w caller 503 (result_of p (suc n) unknown_request none) st a else end in
      refuse-Good w caller (not w.maximum_ok) 503 (result_of p 0 unknown_request none) st a
        (if leb max_int64 n
          then stop w caller 409 (result_of p 0 unknown_request none) st a
          else last)
        (refuse-Good w caller (leb max_int64 n) 409 (result_of p 0 unknown_request none) st a last (
          refuse-Good w caller clash 503 (result_of p (suc n) unknown_request none) st a end
            (deliver_state-Good p (suc n) before (with_request p (suc n) st))))

  contacted-Good :
      (p : Prepared) (row : Option StateRequest) (before : HostAgentStatus) (st : Store)
      → Good (contacted w (agent_caller x h cancelled get put) p row before st a)
  contacted-Good p none before st = allocate-Good p (known_maximum p before st) before st
  contacted-Good p (some row) before st =
      refuse-Good w (agent_caller x h cancelled get put) (ltb row.revision before.accepted_revision)
        409 (result_of p row.revision unknown_request none) st a
        (deliver_state w (agent_caller x h cancelled get put) p row.revision before st a)
        (deliver_state-Good p row.revision before st)

  checked-Good :
      (p : Prepared) (row : Option StateRequest) (st : Store) (get' : Fate)
      → Good (checked w (agent_caller x h cancelled get put) p row st (healthy get' a))
  checked-Good p row st request_lost = failed-Good _ 502 refl
  checked-Good p row st answer_lost = failed-Good _ 502 refl
  checked-Good p row st delivered_call =
      if-Good (is_healthy p 200 a.view) _ _ (contacted-Good p row a.view st)
        (failed-Good _ 502 refl)

  looked_up-Good :
      (p : Prepared) (row : Option StateRequest) (st : Store)
      → ((old : StateRequest) → row ≡ some old → is_applied_request old.outcome ≡ false)
      → Good (looked_up w (agent_caller x h cancelled get put) p row st a)
  looked_up-Good p none st k = checked-Good p none st get
  looked_up-Good p (some row) st k =
      refuse-Good w (agent_caller x h cancelled get put) (not (row.fingerprint == p.fingerprint))
        409 (result_of p row.revision unknown_request none) st a _ (fresh row.outcome (k row refl))
    where
      fresh :
          (o : RequestOutcome)
          → is_applied_request o ≡ false
          → Good (
              if is_applied_request o
              then replayed w (agent_caller x h cancelled get put) p row row.result st a
              else checked w (agent_caller x h cancelled get put) p (some row) st (healthy get a))
      fresh o e = rw e (checked-Good p (some row) st get)

-- When the controller reports a success for a request that was not applied before, over a wire that may
-- lose any request and any answer, the host of the agent has enforced a state of the revision that the
-- result names. The agent has come from a new one.
pub execute-enforced :
    (w : Weather) (x : Syntax) (h : Surroundings) (cancelled : Bool) (get put : Fate)
    (identity : String) (a : Agent) (c : Controller) (host : String) (r : SecretRequest)
    (st : Store)
    → Reach x (new_agent identity) a
    → ((old : StateRequest)
        → find_state_request host r.request_id st ≡ some old
        → is_applied_request old.outcome ≡ false)
    → (execute w (agent_caller x h cancelled get put) x c host r st a).error ≡ none
    → (e : ExpectedHostState) × Logged e
        (execute w (agent_caller x h cancelled get put) x c host r st a).state.enforced
      × (e.revision
          ≡ (execute w (agent_caller x h cancelled get put) x c host r st a).result.revision)
unfolding execute
execute-enforced w x h cancelled get put identity a c host r st reach k =
    (ready (prepare x c w host r st.db)).backs
  where
    ready :
        (q : Result (ℕ × String) Prepared)
        → Good (after_prepare w (agent_caller x h cancelled get put) host r q st a)
    ready (err (code, zone)) = failed-Good _ code refl
    ready (ok p) = if-Good (not w.select_ok) _ _ (failed-Good _ 503 refl) (
        looked_up-Good w x h cancelled get put a (reached-Sound identity reach) p
          (find_state_request host r.request_id st) st k)
