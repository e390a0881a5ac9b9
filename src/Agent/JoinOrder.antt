-- ===== src/Agent/JoinOrder.antt =====
-- cluster_join.go: histories of a host's cluster join, restarts included.
use crane_oss.Base.{
  eq_iff, sym, ℕ, ◌≤◌, ◌≡◌, refl, ap, subst, ◌∙◌, Bool, true, false, not, ◌||◌, Option, none, some,
  List, [], ◌∷◌, arith, Bool-cases, Result-cases, inl, inr, ok, err, ok-injective, Result,
  refuse_if, >>=-eq-ok, if◌then◌else◌, pos_part,
}
use crane_oss.Base.Rows.{All, All-map}
use crane_oss.Agent.State.{
  Write, stored, failed_unchanged, failed_stored, is_stored, write, applying, interrupted,
  invalid_join,
}
use crane_oss.Agent.Join.{
  JoinSyntax, ClusterJoinRequest, JoinState, Joiner, resumed_join, restore_join, JoinArrival,
  JoinSurroundings, join_fingerprint, new_join, read_join, join_conflicts, bind, outcome_state,
  finish_join, proceed, cluster_join, is_valid_state,
}

-- NewServer on the file of the join; nothing else of the join survives the process.
abbrev pub reopened : Joiner → Option JoinState → Joiner
reopened a join = record a { join = join }

-- The process dies after JoinCluster has been called and before its outcome is persisted.
abbrev pub dead : ClusterJoinRequest → JoinState → Joiner → Joiner
dead r s a =
    let next = record s { fence = pos_part r.fence; outcome = applying } in
    record a { file = some next; joined = r ∷ a.joined }

pub data JoinStep (x : JoinSyntax) : Joiner → Joiner → Type 0 where
  joins :
      {a : Joiner} (h : JoinSurroundings) (i : JoinArrival) → JoinStep x a (cluster_join x h i a).1
  reopens :
      {a : Joiner} (join : Option JoinState)
      → restore_join x a.file ≡ ok join
      → JoinStep x a (reopened a join)
  dies_joining :
      {a : Joiner} (i : JoinArrival) (r : ClusterJoinRequest) (s : JoinState)
      (join : Option JoinState)
      → read_join x i ≡ ok r
      → bind x r a.join ≡ ok s
      → restore_join x (dead r s a).file ≡ ok join
      → JoinStep x a (reopened (dead r s a) join)

pub data JoinReach (x : JoinSyntax) : Joiner → Joiner → Type 0 where
  at_start : {a : Joiner} → JoinReach x a a
  then_joins : {a b c : Joiner} → JoinReach x a b → JoinStep x b c → JoinReach x a c

abbrev pub new_joiner : Joiner
new_joiner = record { join = none; file = none; joined = [] }

-- `s` is of the same operation and contract as `t`, and its fence is not above that of `t`.
pub record Older (s t : JoinState) : Type 0 where
  pub operation : s.operation_id ≡ t.operation_id
  pub contract : s.contract_hash ≡ t.contract_hash
  pub fence_le : s.fence ≤ t.fence

Older-trans : (r s t : JoinState) → Older r s → Older s t → Older r t
Older-trans r s t a b = record {
  operation = a.operation ∙ b.operation;
  contract = a.contract ∙ b.contract;
  fence_le = omega (arith, a.fence_le, b.fence_le);
}

-- Both calls are for one operation with one contract, and the first's fence is not the higher one.
pub record CallOlder (x : JoinSyntax) (q r : ClusterJoinRequest) : Type 0 where
  pub operation : q.operation_id ≡ r.operation_id
  pub contract : join_fingerprint x q ≡ join_fingerprint x r
  pub fence_le : pos_part q.fence ≤ pos_part r.fence

-- Each call is older than those after it.
abbrev pub InOrder : JoinSyntax → List ClusterJoinRequest → Type 0
InOrder x [] = Unit {0}
InOrder x (r ∷ earlier) = All (λ q. CallOlder x q r) earlier × InOrder x earlier

-- The state is of the call's operation and contract, under no lower fence.
record Under (x : JoinSyntax) (q : ClusterJoinRequest) (s : JoinState) : Type 0 where
  pub operation : q.operation_id ≡ s.operation_id
  pub contract : join_fingerprint x q ≡ s.contract_hash
  pub fence_le : pos_part q.fence ≤ s.fence

Under-Older :
    (x : JoinSyntax) (q : ClusterJoinRequest) (s t : JoinState)
    → Under x q s
    → Older s t
    → Under x q t
Under-Older x q s t a b = record {
  operation = a.operation ∙ b.operation;
  contract = a.contract ∙ b.contract;
  fence_le = omega (arith, a.fence_le, b.fence_le);
}

-- A request and the state that it goes on with agree.
record Agrees (x : JoinSyntax) (r : ClusterJoinRequest) (s : JoinState) : Type 0 where
  pub operation : s.operation_id ≡ r.operation_id
  pub contract : s.contract_hash ≡ join_fingerprint x r

refused_bind : (code : ℕ) (s : JoinState) (r : Result ℕ JoinState) → r ≡ err code → r ≡ ok s → ⊥
refused_bind code s r e h = cc

bind-Agrees :
    (x : JoinSyntax) (r : ClusterJoinRequest) (m : Option JoinState) (s : JoinState)
    → bind x r m ≡ ok s
    → Agrees x r s
bind-Agrees x r none s b =
    subst (Agrees x r) (ok-injective (new_join x r) s refl b)
      (record { operation = refl; contract = refl })
bind-Agrees x r (some m) s b = elim (Bool-cases (join_conflicts x r m)) [
  | inl c ↦ absurd (refused_bind 409 s (err 409) refl (rw c at b))
  | inr c ↦ subst (Agrees x r) (ok-injective m s refl (rw c at b)) (record {
    operation = ground (arith, eq_iff m.operation_id r.operation_id);
    contract = ground (arith, eq_iff m.contract_hash (join_fingerprint x r));
  })
]

abbrev pub next_join : ClusterJoinRequest → JoinState → JoinState
next_join r s = record s { fence = pos_part r.fence; outcome = applying }

Agrees-CallOlder :
    (x : JoinSyntax) (r : ClusterJoinRequest) (s : JoinState)
    → Agrees x r s
    → (q : ClusterJoinRequest) → Under x q (next_join r s)
    → CallOlder x q r
Agrees-CallOlder x r s a q u = record {
  operation = u.operation ∙ a.operation;
  contract = u.contract ∙ a.contract;
  fence_le = u.fence_le;
}

Agrees-Under :
    (x : JoinSyntax) (r : ClusterJoinRequest) (s : JoinState)
    → Agrees x r s
    → Under x r (next_join r s)
Agrees-Under x r s a = record {
  operation = sym a.operation;
  contract = sym a.contract;
  fence_le = omega arith;
}

abbrev Covers : JoinSyntax → Option JoinState → ClusterJoinRequest → Type 0
Covers x none q = ⊥
Covers x (some s) q = Under x q s

abbrev pub Behind : Option JoinState → Option JoinState → Type 0
Behind none m = Unit {0}
Behind (some f) none = ⊥
Behind (some f) (some m) = Older f m

record JoinSound (x : JoinSyntax) (a : Joiner) : Type 0 where
  pub ordered : InOrder x a.joined
  pub covered : All (Covers x a.file) a.joined
  pub behind : Behind a.file a.join

Older-resumed : (s : JoinState) → Older s (record s { outcome = resumed_join s.outcome })
Older-resumed s = record { operation = refl; contract = refl; fence_le = omega arith }

bind-Older :
    (x : JoinSyntax) (r : ClusterJoinRequest) (m : Option JoinState) (s : JoinState)
    → bind x r m ≡ ok s
    → Behind m (some (record s { fence = pos_part r.fence; outcome = applying }))
bind-Older x r none s b = tt
bind-Older x r (some m) s b = elim (Bool-cases (join_conflicts x r m)) [
  | inl c ↦ absurd (refused_bind 409 s (err 409) refl (rw c at b))
  | inr c ↦
      let same : m ≡ s = ok-injective m s refl (rw c at b) in
      record {
        operation = ap (λ t. t.operation_id) same;
        contract = ap (λ t. t.contract_hash) same;
        fence_le = ground (arith, c);
      }
]

Behind-trans :
    (f m : Option JoinState) (s : JoinState) → Behind f m → Behind m (some s) → Behind f (some s)
Behind-trans none m s a b = tt
Behind-trans (some f) none s a b = absurd a
Behind-trans (some f) (some m) s a b = Older-trans f m s a b

Covers-Behind :
    (x : JoinSyntax) (f : Option JoinState) (s : JoinState) (q : ClusterJoinRequest)
    → Behind f (some s)
    → Covers x f q
    → Under x q s
Covers-Behind x none s q b c = absurd c
Covers-Behind x (some f) s q b c = Under-Older x q f s c b

-- What a request that does not conflict goes on with covers all calls before it.
all-Under :
    (x : JoinSyntax) (r : ClusterJoinRequest) (s : JoinState) (a : Joiner)
    → bind x r a.join ≡ ok s
    → JoinSound x a
    → All (λ q. Under x q (next_join r s)) a.joined
all-Under x r s a b v =
    All-map (Covers x a.file) (λ q. Under x q (next_join r s))
      (λ q c.
        Covers-Behind x a.file (next_join r s) q
          (Behind-trans a.file a.join (next_join r s) v.behind (bind-Older x r a.join s b)) c)
      a.joined v.covered

ordered_call :
    (x : JoinSyntax) (r : ClusterJoinRequest) (s : JoinState) (joined : List ClusterJoinRequest)
    → Agrees x r s
    → InOrder x joined
    → All (λ q. Under x q (next_join r s)) joined
    → InOrder x (r ∷ joined)
ordered_call x r s joined g o a = (
  All-map (λ q. Under x q (next_join r s)) (λ q. CallOlder x q r) (Agrees-CallOlder x r s g) joined
      a,
  o,
)

pub restore_join-Behind :
    (x : JoinSyntax) (file join : Option JoinState)
    → restore_join x file ≡ ok join
    → Behind file join
unfolding restore_join
restore_join-Behind x none join n = tt
restore_join-Behind x (some f) join n =
    let (_, _, n1) = >>=-eq-ok (refuse_if (not (is_valid_state x f)) invalid_join) _ n in
    subst (Behind (some f)) (ok-injective _ join refl n1) (Older-resumed f)

reopened-JoinSound :
    (x : JoinSyntax) (a : Joiner) (join : Option JoinState)
    → restore_join x a.file ≡ ok join
    → InOrder x a.joined
    → All (Covers x a.file) a.joined
    → JoinSound x (reopened a join)
reopened-JoinSound x a join n o c = record {
  ordered = o;
  covered = c;
  behind = restore_join-Behind x a.file join n;
}

-- Where the file comes to hold `t`, it covers what is under an older state.
All-Covers :
    (x : JoinSyntax) (w : Write) (s t : JoinState) (file : Option JoinState)
    (joined : List ClusterJoinRequest)
    → Older s t
    → All (λ q. Under x q s) joined
    → All (Covers x file) joined
    → All (Covers x (write w t file)) joined
All-Covers x stored s t file joined o a c = All-map _ _ (λ q h. Under-Older x q s t h o) joined a
All-Covers x failed_unchanged s t file joined o a c = c
All-Covers x failed_stored s t file joined o a c =
    All-map _ _ (λ q h. Under-Older x q s t h o) joined a

Older-refl : (s : JoinState) → Older s s
Older-refl s = record { operation = refl; contract = refl; fence_le = omega arith }

Behind-write :
    (w : Write) (s m : JoinState) (file : Option JoinState)
    → Older s m
    → Behind file (some m)
    → Behind (write w s file) (some m)
Behind-write stored s m file o b = o
Behind-write failed_unchanged s m file o b = b
Behind-write failed_stored s m file o b = o

finish_join-JoinSound :
    (x : JoinSyntax) (h : JoinSurroundings) (r : ClusterJoinRequest) (s : JoinState)
    (joined : List ClusterJoinRequest)
    → InOrder x (r ∷ joined)
    → All (λ q. Under x q s) (r ∷ joined)
    → JoinSound x (finish_join h r s (record { join = some s; file = some s; joined = joined })).1
finish_join-JoinSound x h r s joined o a = record {
  ordered = o;
  covered = All-Covers x h.outcome_write s next (some s) (r ∷ joined) same a a;
  behind =
      Behind-write h.outcome_write next _ (some s)
        (from_next (either (not h.joins || is_stored h.outcome_write)))
        (either (not h.joins || is_stored h.outcome_write));
}
  where
    next : JoinState
    next = outcome_state h.joins s

    same : Older s (outcome_state h.joins s)
    same = record { operation = refl; contract = refl; fence_le = omega arith }

    from_next : {t : JoinState} → Older s t → Older (outcome_state h.joins s) t
    from_next k = record { operation = k.operation; contract = k.contract; fence_le = k.fence_le }

    either :
        (b : Bool)
        → Older s (
            if b
            then outcome_state h.joins s
            else record (outcome_state h.joins s) { outcome = interrupted })
    either true = record { operation = refl; contract = refl; fence_le = omega arith }
    either false = record { operation = refl; contract = refl; fence_le = omega arith }

bound-JoinSound :
    (x : JoinSyntax) (r : ClusterJoinRequest) (s : JoinState) (a : Joiner)
    → bind x r a.join ≡ ok s
    → JoinSound x a
    → JoinSound x (record a { join = some s })
bound-JoinSound x r s a b v = record {
  ordered = v.ordered;
  covered = v.covered;
  behind = Behind-trans a.file a.join s v.behind (bind-same x r a.join s b);
}
  where
    bind-same :
        (x : JoinSyntax) (r : ClusterJoinRequest) (m : Option JoinState) (s : JoinState)
        → bind x r m ≡ ok s
        → Behind m (some s)
    bind-same x r none s b = tt
    bind-same x r (some m) s b = elim (Bool-cases (join_conflicts x r m)) [
      | inl c ↦ absurd (refused_bind 409 s (err 409) refl (rw c at b))
      | inr c ↦ subst (Older m) (ok-injective m s refl (rw c at b)) (Older-refl m)
    ]

written-JoinSound :
    (x : JoinSyntax) (w : Write) (r : ClusterJoinRequest) (s : JoinState) (a : Joiner)
    → bind x r a.join ≡ ok s
    → JoinSound x a
    → JoinSound x (record a { join = some (next_join r s); file = write w (next_join r s) a.file })
written-JoinSound x w r s a b v = record {
  ordered = v.ordered;
  covered =
      All-Covers x w (next_join r s) (next_join r s) a.file a.joined (Older-refl (next_join r s))
        (all-Under x r s a b v) v.covered;
  behind =
      Behind-write w (next_join r s) (next_join r s) a.file (Older-refl (next_join r s))
        (Behind-trans a.file a.join (next_join r s) v.behind (bind-Older x r a.join s b));
}

proceed-JoinSound :
    (x : JoinSyntax) (h : JoinSurroundings) (r : ClusterJoinRequest) (s : JoinState) (a : Joiner)
    → bind x r a.join ≡ ok s
    → JoinSound x a
    → JoinSound x (proceed h r s a).1
proceed-JoinSound x h r s a b v = elim (Bool-cases h.can_join) [
  | inl c ↦ rw c (go h.progress_write)
  | inr c ↦ rw c (bound-JoinSound x r s a b v)
]
  where
    go :
        (w : Write)
        → JoinSound x
            (if is_stored w
              then finish_join h r
                  (next_join r s)
                  (record a { join = some (next_join r s); file = write w (next_join r s) a.file })
              else (
                503,
                record a { join = some (next_join r s); file = write w (next_join r s) a.file },
              )).1
    go stored =
        finish_join-JoinSound x h r (next_join r s) a.joined
          (ordered_call x r s a.joined (bind-Agrees x r a.join s b) v.ordered
            (all-Under x r s a b v))
          (Agrees-Under x r s (bind-Agrees x r a.join s b), all-Under x r s a b v)
    go failed_unchanged = written-JoinSound x failed_unchanged r s a b v
    go failed_stored = written-JoinSound x failed_stored r s a b v

cluster_join-JoinSound :
    (x : JoinSyntax) (h : JoinSurroundings) (i : JoinArrival) (a : Joiner)
    → JoinSound x a
    → JoinSound x (cluster_join x h i a).1
unfolding cluster_join
cluster_join-JoinSound x h i a v = elim (Result-cases (read_join x i)) [
  | inl (r, e) ↦ elim (Result-cases (bind x r a.join)) [
    | inl (s, b) ↦ rw (e, b) (proceed-JoinSound x h r s a b v)
    | inr (code, b) ↦ rw (e, b) v
  ]
  | inr (code, e) ↦ rw e v
]

JoinStep-JoinSound :
    {x : JoinSyntax} {a b : Joiner} → JoinSound x a → JoinStep x a b → JoinSound x b
JoinStep-JoinSound {x} {a} v (joins h i) = cluster_join-JoinSound x h i a v
JoinStep-JoinSound {x} {a} v (reopens join n) = reopened-JoinSound x a join n v.ordered v.covered
JoinStep-JoinSound {x} {a} v (dies_joining i r s join e b n) =
    let under = all-Under x r s a b v in
    let agrees = bind-Agrees x r a.join s b in
    reopened-JoinSound x (dead r s a) join n (ordered_call x r s a.joined agrees v.ordered under)
      (Agrees-Under x r s agrees, under)

JoinReach-JoinSound :
    {x : JoinSyntax} {a b : Joiner} → JoinSound x a → JoinReach x a b → JoinSound x b
JoinReach-JoinSound v at_start = v
JoinReach-JoinSound v (then_joins r s) = JoinStep-JoinSound (JoinReach-JoinSound v r) s

-- Over any history of a new host, restarts and deaths in the middle of a request included, all requests
-- with which JoinCluster is called are for one operation with one contract, and their fences never
-- fall.
pub JoinReach-InOrder :
    (x : JoinSyntax) (a : Joiner) → JoinReach x new_joiner a → InOrder x a.joined
JoinReach-InOrder x a r =
    let v = JoinReach-JoinSound (record { ordered = tt; covered = tt; behind = tt }) r in v.ordered
