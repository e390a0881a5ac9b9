-- ===== src/HostOperations/Revisions.antt =====
-- The revisions of a host's requests: each new one is above all before it, and none is reused.
use crane_oss.Base.{
  ℕ, suc, ◌≤◌, ◌<◌, String, ◌≡◌, refl, sym, ◌∙◌, Bool, true, false, not, ◌||◌, ◌==◌, eq_iff, Option,
  none, some, List, [], ◌∷◌, ◌++◌, arith, Bool-cases, inl, inr, eqb, ltb, leb, if◌then◌else◌,
  Result, ok, err,
}
use crane_oss.Base.Tables.{any, update}
use crane_oss.Base.Rows.{
  All, All-map, All-snoc, All-update, Grows, Grows-refl, Grows-trans, Grows-append, Grows-update,
}
use crane_oss.Capacity.Policy.{max_int64}
use crane_oss.Agent.Request.{Syntax}
use crane_oss.Agent.State.{HostAgentStatus}
use crane_oss.HostOperations.Store.{
  unknown_request, RequestOutcome, SecretResult, StateRequest, Store, find_state_request,
  max_revision,
}
use crane_oss.HostOperations.Controller.{
  SecretRequest, Controller, Weather, Caller, Executed, Prepared, prepare, is_applied_request,
  judge, or_before, result_of, stop, persist, committed, delivered, deliver_state, wanted_state,
  allocate_at, known_maximum, with_request, contacted, checked, is_healthy, known_revision,
  replayed, looked_up, after_prepare, execute, record_result, record_observability,
  new_state_request, clashes, configures_telemetry,
}

-- A row keeps its host, its request, the request's contents and its revision.
pub record SameRequest (x y : StateRequest) : Type 0 where
  pub host_id : y.host_id ≡ x.host_id
  pub request_id : y.request_id ≡ x.request_id
  pub fingerprint : y.fingerprint ≡ x.fingerprint
  pub revision : y.revision ≡ x.revision

-- Of one host's rows, a later one has the greater revision.
abbrev pub Ascending : List StateRequest → Type 0
Ascending [] = Unit {0}
Ascending (r ∷ rs) = All (λ t. t.host_id ≡ r.host_id → r.revision < t.revision) rs × Ascending rs

max_revision-above :
    (host : String) (rs : List StateRequest)
    → All (λ r. r.host_id ≡ host → r.revision ≤ max_revision host rs) rs
unfolding max_revision
max_revision-above host [] = tt
max_revision-above host (r ∷ rs) = (
  (λ e. ground (arith, eq_iff r.host_id host)),
  All-map _ _ (λ t h e. ground (arith, h e)) rs (max_revision-above host rs),
)

Ascending-snoc :
    (rs : List StateRequest) (n : StateRequest)
    → All (λ r. r.host_id ≡ n.host_id → r.revision < n.revision) rs
    → Ascending rs
    → Ascending (rs ++ n ∷ [])
Ascending-snoc [] n b a = (tt, tt)
Ascending-snoc (r ∷ rs) n b a =
    (All-snoc _ rs n a.0 (λ e. b.0 (sym e)), Ascending-snoc rs n b.1 a.1)

-- An update of columns that are no key.
Ascending-update :
    (p : StateRequest → Bool) (f : StateRequest → StateRequest)
    → ((r : StateRequest) → (f r).host_id ≡ r.host_id)
    → ((r : StateRequest) → (f r).revision ≡ r.revision)
    → (rs : List StateRequest) → Ascending rs
    → Ascending (update p f rs)
Ascending-update p f h k [] a = tt
Ascending-update p f h k (r ∷ rs) a = elim (Bool-cases (p r)) [
  | inl e ↦
      rw (e, h r, k r)
        (
          All-update _ p f (λ t q b same. rw (k t) (b (sym (h t) ∙ same))) rs a.0,
          Ascending-update p f h k rs a.1,
        )
  | inr e ↦ rw e (
    All-update _ p f (λ t q b same. rw (k t) (b (sym (h t) ∙ same))) rs a.0,
    Ascending-update p f h k rs a.1,
  )
]

-- What survives the two writes of an execution, on the rows, survives the execution.
module _ (P : List StateRequest → Type 0)
    (records : (p : Prepared) (result : SecretResult) (st : Store)
      → P st.state_requests
      → P (record_result p result st).state_requests)
    (requests : (p : Prepared) (n : ℕ) (st : Store)
      → max_revision p.target.host_id st.state_requests ≤ n
      → P st.state_requests
      → P (with_request p (suc n) st).state_requests) where
  Holds : {S : Type 0} → Executed S → Type 0
  Holds e = P e.store.state_requests

  observed :
      (p : Prepared) (result : SecretResult) (st : Store)
      → P st.state_requests
      → P (record_observability p result st).state_requests
  observed p result st h = elim (Bool-cases (configures_telemetry p.secret)) [
    | inl e ↦ rw e h
    | inr e ↦ rw e h
  ]

  module _ {S : Type 0} (w : Weather) (caller : Caller S) where
    either :
        (b : Bool) (e f : Executed S)
        → P e.store.state_requests
        → P f.store.state_requests
        → P (if b then e else f).store.state_requests
    either true e f h k = h
    either false e f h k = k

    persist-keeps :
        (p : Prepared) (result : SecretResult) (st : Store) (s : S)
        → P st.state_requests
        → P (persist w caller p result st s).store.state_requests
    unfolding persist
    persist-keeps p result st s h =
        let new = record_observability p result (record_result p result st) in
        either _ (stop w caller 503 result st s) (committed w caller result new s) h (
          either (is_applied_request result.outcome) _ _
            (observed p result _ (records p result st h))
            (observed p result _ (records p result st h)))

    delivered-keeps :
        (p : Prepared) (revision : ℕ) (before : HostAgentStatus) (st : Store)
        (answer : Option (ℕ × Option HostAgentStatus) × S)
        → P st.state_requests
        → P (delivered w caller p revision before st answer).store.state_requests
    delivered-keeps p revision before st (none, s) h = persist-keeps p _ st s h
    delivered-keeps p revision before st (some (code, body), s) h =
        let result = judge p revision code (or_before body before) in
        either (eqb code 409) (stop w caller 409 result st s) (persist w caller p result st s) h
          (persist-keeps p result st s h)

    allocate-keeps :
        (p : Prepared) (n : ℕ) (before : HostAgentStatus) (st : Store) (s : S)
        → max_revision p.target.host_id st.state_requests ≤ n
        → P st.state_requests
        → P (allocate_at w caller p n before st s).store.state_requests
    allocate-keeps p n before st s above h =
        let clash =
          not w.insert_ok || any (clashes (new_state_request p (suc n))) st.state_requests in
        let end = deliver_state w caller p (suc n) before (with_request p (suc n) st) s in
        let last =
          if clash
          then stop w caller 503 (result_of p (suc n) unknown_request none) st s
          else end in
        let rest =
          if leb max_int64 n
          then stop w caller 409 (result_of p 0 unknown_request none) st s
          else last in
        either (not w.maximum_ok) (stop w caller 503 (result_of p 0 unknown_request none) st s) rest
          h
          (either (leb max_int64 n) (stop w caller 409 (result_of p 0 unknown_request none) st s)
            last h
            (either clash (stop w caller 503 (result_of p (suc n) unknown_request none) st s) end h
              (delivered-keeps p (suc n) before (with_request p (suc n) st)
                (caller.put_state (wanted_state p (suc n)) s) (requests p n st above h))))

    contacted-keeps :
        (p : Prepared) (row : Option StateRequest) (before : HostAgentStatus) (st : Store) (s : S)
        → P st.state_requests
        → P (contacted w caller p row before st s).store.state_requests
    contacted-keeps p none before st s h =
        allocate-keeps p (known_maximum p before st) before st s (ground arith) h
    contacted-keeps p (some row) before st s h =
        either (ltb row.revision before.accepted_revision)
          (stop w caller 409 (result_of p row.revision unknown_request none) st s)
          (deliver_state w caller p row.revision before st s) h
          (delivered-keeps p row.revision before st
            (caller.put_state (wanted_state p row.revision) s) h)

    checked-keeps :
        (p : Prepared) (row : Option StateRequest) (st : Store)
        (answer : Option (ℕ × Option HostAgentStatus) × S)
        → P st.state_requests
        → P (checked w caller p row st answer).store.state_requests
    checked-keeps p row st (some (code, some before), s) h =
        either (is_healthy p code before) (contacted w caller p row before st s)
          (stop w caller 502 (result_of p (known_revision row) unknown_request none) st s)
          (contacted-keeps p row before st s h) h
    checked-keeps p row st (some (code, none), s) h = h
    checked-keeps p row st (none, s) h = h

    looked_up-keeps :
        (p : Prepared) (row : Option StateRequest) (st : Store) (s : S)
        → P st.state_requests
        → P (looked_up w caller p row st s).store.state_requests
    looked_up-keeps p none st s h = checked-keeps p none st (caller.health s) h
    looked_up-keeps p (some row) st s h =
        let fresh = checked w caller p (some row) st (caller.health s) in
        let old = replayed w caller p row row.result st s in
        either (not (row.fingerprint == p.fingerprint))
          (stop w caller 409 (result_of p row.revision unknown_request none) st s)
          (if is_applied_request row.outcome then old else fresh) h
          (either (is_applied_request row.outcome) old fresh (replay row.result)
            (checked-keeps p (some row) st (caller.health s) h))
      where
        replay : (r : Option SecretResult) → P (replayed w caller p row r st s).store.state_requests
        replay none = h
        replay (some r) = h

    execute-keeps :
        (x : Syntax) (c : Controller) (host : String) (r : SecretRequest) (st : Store) (s : S)
        → P st.state_requests
        → P (execute w caller x c host r st s).store.state_requests
    unfolding execute
    execute-keeps x c host r st s h = ready (prepare x c w host r st.db)
      where
        ready :
            (q : Result (ℕ × String) Prepared)
            → P (after_prepare w caller host r q st s).store.state_requests
        ready (err (code, zone)) = h
        ready (ok p) =
            either (not w.select_ok) (stop w caller 503 (result_of p 0 unknown_request none) st s)
              (looked_up w caller p (find_state_request host r.request_id st) st s) h
              (looked_up-keeps p (find_state_request host r.request_id st) st s h)

-- An execution keeps the revisions of each host's requests in the order in which the requests came,
-- whatever the agent answers and whatever fails: no revision stands for two requests of a host.
pub execute-Ascending :
    {S : Type 0} (w : Weather) (caller : Caller S) (x : Syntax) (c : Controller) (host : String)
    (r : SecretRequest) (st : Store) (s : S)
    → Ascending st.state_requests
    → Ascending (execute w caller x c host r st s).store.state_requests
execute-Ascending w caller x c host r st s a =
    execute-keeps Ascending
      (λ p result st h. Ascending-update _ _ (λ t. refl) (λ t. refl) st.state_requests h)
      (λ p n st above h.
        Ascending-snoc st.state_requests (new_state_request p (suc n))
          (All-map _ _ (λ t b e. omega (arith, b e)) st.state_requests
            (max_revision-above p.target.host_id st.state_requests))
          h)
      w caller x c host r st s a

-- An execution keeps of every known request the host, the id, the contents' hash and the revision.
pub execute-Grows :
    {S : Type 0} (w : Weather) (caller : Caller S) (x : Syntax) (c : Controller) (host : String)
    (r : SecretRequest) (st : Store) (s : S)
    → Grows SameRequest st.state_requests (execute w caller x c host r st s).store.state_requests
execute-Grows w caller x c host r st s =
    execute-keeps (Grows SameRequest st.state_requests)
      (λ p result now h.
        Grows-trans SameRequest same_trans _ _ _ h
          (Grows-update SameRequest _ _ same_refl (λ t e. same_refl' t) now.state_requests))
      (λ p n now above h.
        Grows-trans SameRequest same_trans _ _ _ h
          (Grows-append SameRequest same_refl now.state_requests _))
      w caller x c host r st s (Grows-refl SameRequest same_refl st.state_requests)
  where
    same_refl : (t : StateRequest) → SameRequest t t
    same_refl t = record { host_id = refl; request_id = refl; fingerprint = refl; revision = refl }

    same_refl' :
        (t : StateRequest) {o : RequestOutcome} {q : Option SecretResult}
        → SameRequest t (record t { outcome = o; result = q })
    same_refl' t = record { host_id = refl; request_id = refl; fingerprint = refl; revision = refl }

    same_trans : (t u v : StateRequest) → SameRequest t u → SameRequest u v → SameRequest t v
    same_trans t u v a b = record {
      host_id = b.host_id ∙ a.host_id;
      request_id = b.request_id ∙ a.request_id;
      fingerprint = b.fingerprint ∙ a.fingerprint;
      revision = b.revision ∙ a.revision;
    }
