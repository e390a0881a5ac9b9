-- ===== src/Agent/Invariant.antt =====
-- What holds of an agent through every history: its file can always be read back, it is never
-- behind the memory, and what counts as applied has been enforced.
use crane_oss.Base.{
  ℕ, ◌≤◌, ◌<◌, String, ◌≡◌, refl, sym, ap, subst, ◌∙◌, Bool, true, false, not, ◌⊎◌, inl, inr,
  Option, none, some, List, [], ◌∷◌, arith, Bool-cases, ok, >>=-eq-ok, refuse_if, refuse_if-eq-ok,
  or_fail, ok-injective, is_err, is_err-false, ltb, eq_iff,
}
use crane_oss.Api.{ExpectedHostState}
use crane_oss.Agent.Request.{Syntax, validate_expected, normalize_expected}
use crane_oss.Agent.Normal.{validate-normalize_expected}
use crane_oss.Agent.State.{
  AgentOutcome, interrupted, is_applied, resume, SavedState, Agent, Write, stored, failed_unchanged,
  failed_stored, write, no_state, status,
}
use crane_oss.Agent.Server.{Arrival, read_request, conflicts, accepted, log_of}

abbrev pub Logged : ExpectedHostState → List ExpectedHostState → Type 0
Logged e [] = ⊥
Logged e (r ∷ rs) = (r ≡ e) ⊎ Logged e rs

pub Logged-log_of :
    (done : Bool) (e r : ExpectedHostState) (log : List ExpectedHostState)
    → Logged r log
    → Logged r (log_of done e log)
Logged-log_of true e r log l = inr l
Logged-log_of false e r log l = l

-- The applied revision is that of an enforced state, and an applied state has been enforced itself.
abbrev pub Backed : List ExpectedHostState → ℕ → Type 0
Backed log n = (n ≡ 0) ⊎ ((r : ExpectedHostState) × Logged r log × (r.revision ≡ n))

pub record Fine (log : List ExpectedHostState) (s : SavedState) : Type 0 where
  pub bounded : s.applied_revision ≤ s.request.revision
  pub backed : Backed log s.applied_revision
  pub exact :
      is_applied s.outcome ≡ true → (s.applied_revision ≡ s.request.revision) × Logged s.request log

-- What a start accepts.
pub record Storable (x : Syntax) (s : SavedState) : Type 0 where
  pub valid : validate_expected x s.request ≡ ok tt
  pub hashed : s.digest ≡ x.digest s.request
  pub configured : (o : AgentOutcome) × (resume s.outcome ≡ some o)

-- What has been accepted: a revision and the hash of its contents.
pub record Mark : Type 0 where
  pub revision : ℕ
  pub digest : String

abbrev pub mark : SavedState → Mark
mark s = record { revision = s.request.revision; digest = s.digest }

abbrev pub file_mark : Option SavedState → Mark
file_mark none = mark no_state
file_mark (some s) = mark s

-- A register that only newer revisions may overwrite.
abbrev pub Follows : Mark → Mark → Type 0
Follows m n = (m.revision < n.revision) ⊎ (m ≡ n)

pub Follows-trans : (l m n : Mark) → Follows l m → Follows m n → Follows l n
Follows-trans l m n (inl a) (inl b) = inl (omega arith)
Follows-trans l m n (inl a) (inr b) = inl (subst (λ k. l.revision < k.revision) b a)
Follows-trans l m n (inr a) f = subst (λ k. Follows k n) (sym a) f

pub Follows-≤ : (m n : Mark) → Follows m n → m.revision ≤ n.revision
Follows-≤ m n (inl a) = omega arith
Follows-≤ m n (inr a) = subst (λ k. m.revision ≤ k.revision) a (omega arith)

abbrev pub Kept : Syntax → List ExpectedHostState → Option SavedState → Type 0
Kept x log none = Unit {0}
Kept x log (some s) = Storable x s × Fine log s

pub record Sound (x : Syntax) (a : Agent) : Type 0 where
  pub memory : Fine a.enforced a.saved
  pub kept : Kept x a.enforced a.file
  pub ahead : Follows (mark a.saved) (file_mark a.file)
  -- An applied state is in the file, until the file has a newer one.
  pub durable :
      is_applied a.saved.outcome ≡ true
      → (a.file ≡ some a.saved) ⊎ (a.saved.request.revision < (file_mark a.file).revision)
  pub shown : a.view ≡ status a.identity a.saved

pub read_request-valid :
    (x : Syntax) (i : Arrival) (e : ExpectedHostState)
    → read_request x i ≡ ok e
    → validate_expected x e ≡ ok tt
unfolding read_request
read_request-valid x i e h =
    let (_, _, h1) = >>=-eq-ok (refuse_if (not i.deadline_ok) 400) _ h in
    let (r, _, h2) = >>=-eq-ok (or_fail i.body 400) _ h1 in
    let (_, v, h3) = >>=-eq-ok (refuse_if (is_err (validate_expected x r)) 400) _ h2 in
    let (_, _, h4) = >>=-eq-ok (refuse_if i.cancelled 408) _ h3 in
    let valid = validate-normalize_expected x r (is_err-false _ (refuse_if-eq-ok _ _ v)) in
    subst (λ n. validate_expected x n ≡ ok tt) (ok-injective (normalize_expected x r) e refl h4)
      valid

pub Fine-log_of :
    (done : Bool) (e : ExpectedHostState) (log : List ExpectedHostState) (s : SavedState)
    → Fine log s
    → Fine (log_of done e log) s
Fine-log_of done e log s f = record {
  bounded = f.bounded;
  backed = elim f.backed [
    | inl z ↦ inl z
    | inr (r, l, n) ↦ inr (r, Logged-log_of done e r log l, n)
  ];
  exact = λ a. ((f.exact a).0, Logged-log_of done e s.request log (f.exact a).1);
}

pub Kept-log_of :
    (x : Syntax) (done : Bool) (e : ExpectedHostState) (log : List ExpectedHostState)
    (file : Option SavedState)
    → Kept x log file
    → Kept x (log_of done e log) file
Kept-log_of x done e log none k = tt
Kept-log_of x done e log (some s) k = (k.0, Fine-log_of done e log s k.1)

pub Kept-write :
    (x : Syntax) (log : List ExpectedHostState) (w : Write) (s : SavedState)
    (file : Option SavedState)
    → Kept x log file
    → Storable x s × Fine log s
    → Kept x log (write w s file)
Kept-write x log stored s file k n = n
Kept-write x log failed_unchanged s file k n = k
Kept-write x log failed_stored s file k n = n

-- What is accepted is as new as the state before it, and claims no more than that had applied.
pub Fine-accepted :
    (x : Syntax) (e : ExpectedHostState) (log : List ExpectedHostState) (s : SavedState)
    → conflicts x e s ≡ false
    → Fine log s
    → Fine log (accepted x e s)
Fine-accepted x e log s c f = record {
  bounded = ground (arith, f.bounded);
  backed = f.backed;
  exact = λ a. cc;
}

-- Where there is no conflict, the state before may be overwritten.
pub accepted-Follows :
    (x : Syntax) (e : ExpectedHostState) (s : SavedState)
    → conflicts x e s ≡ false
    → Follows (mark s) (mark (accepted x e s))
accepted-Follows x e s c = elim (Bool-cases (ltb s.request.revision e.revision)) [
  | inl l ↦ inl (ground arith)
  | inr g ↦
      let same : s.request.revision ≡ e.revision = ground arith in
      let hash : s.digest ≡ x.digest e = ground (arith, eq_iff (x.digest e) s.digest) in
      inr (
        ap (λ n. record { revision = n; digest = s.digest }) same
        ∙ ap (λ d. record { revision = e.revision; digest = d }) hash)
]

pub Storable-accepted :
    (x : Syntax) (e : ExpectedHostState) (s : SavedState)
    → validate_expected x e ≡ ok tt
    → Storable x (accepted x e s)
Storable-accepted x e s v = record { valid = v; hashed = refl; configured = (interrupted, refl) }

pub Sound-log_of :
    (x : Syntax) (done : Bool) (e : ExpectedHostState) (a : Agent)
    → Sound x a
    → Sound x (record a { enforced = log_of done e a.enforced })
Sound-log_of x done e a s = record {
  memory = Fine-log_of done e a.enforced a.saved s.memory;
  kept = Kept-log_of x done e a.enforced a.file s.kept;
  ahead = s.ahead;
  durable = s.durable;
  shown = s.shown;
}
