-- ===== src/Agent/Startup.antt =====
-- server.go: NewServer on both of the agent's files, and what a history leaves in the file of the join.
use crane_oss.Base.{
  ℕ, String, ◌≡◌, refl, subst, Bool, true, false, not, ◌||◌, ◌==◌, Option, none, some, arith, ltb,
  Bool-cases, Result-cases, inl, inr, Result, ok, err, ok-injective, ◌>>=◌, ◌>>◌, refuse_if,
  refuse_if-eq-ok, or_fail, >>=-eq-ok, pos_part, if◌then◌else◌,
}
use crane_oss.Agent.Request.{Syntax}
use crane_oss.Agent.Registration.{WorkerRegistration}
use crane_oss.Agent.State.{
  AgentOutcome, applying, interrupted, applied, failed, Agent, Write, stored, failed_unchanged,
  failed_stored, is_stored, write, StartError, invalid_config, invalid_identity, unreadable_state,
  unreadable_join, invalid_join, new_server,
}
use crane_oss.Agent.Join.{
  JoinSyntax, ClusterJoinRequest, JoinState, Joiner, is_valid_join, is_configured, is_valid_state,
  resumed_join, restore_join, JoinArrival, JoinSurroundings, read_join, join_conflicts, new_join,
  bind, outcome_state, finish_join, proceed, cluster_join,
}
use crane_oss.Agent.JoinOrder.{
  JoinStep, joins, reopens, dies_joining, JoinReach, at_start, then_joins, new_joiner, reopened,
  Behind, restore_join-Behind, next_join,
}
use crane_oss.Agent.History.{Reach, new_agent}
use crane_oss.Agent.Invariant.{Follows, mark}
use crane_oss.Agent.Register.{Reach-restarts}

-- Whether the configuration and the agent's own identity are valid, and whether the operating system can
-- read each file or say that there is none.
pub record Installation : Type 0 where
  pub config_ok : Bool
  pub identity_ok : Bool
  pub state_readable : Bool
  pub join_readable : Bool

-- NewServer
unfoldable pub start :
    Syntax → JoinSyntax → Installation → Agent → Joiner → Result StartError (Agent × Joiner)
start x y c a j = do
  refuse_if (not c.config_ok) invalid_config
  refuse_if (not c.identity_ok) invalid_identity
  refuse_if (not c.state_readable) unreadable_state
  b ← new_server x a
  refuse_if (not c.join_readable) unreadable_join
  join ← restore_join y j.file
  ok (b, reopened j join)

-- A state that NewServer accepts, where there is one.
abbrev Valid : JoinSyntax → Option JoinState → Type 0
Valid y none = Unit {0}
Valid y (some s) = is_valid_state y s ≡ true

record Fit (y : JoinSyntax) (j : Joiner) : Type 0 where
  pub file : Valid y j.file
  pub memory : Valid y j.join

outcome-Valid :
    (y : JoinSyntax) (s : JoinState) (o : AgentOutcome)
    → is_configured o ≡ true
    → is_valid_state y s ≡ true
    → is_valid_state y (record s { outcome = o }) ≡ true
unfolding is_valid_state
outcome-Valid y s o c v = ground (arith, c, v)

fence-Valid :
    (y : JoinSyntax) (s : JoinState) (n : ℕ)
    → ltb 0 n ≡ true
    → is_valid_state y s ≡ true
    → is_valid_state y (record s { fence = n; outcome = applying }) ≡ true
unfolding is_valid_state
fence-Valid y s n c v = ground (arith, c, v)

resumed-configured :
    (o : AgentOutcome) → is_configured o ≡ true → is_configured (resumed_join o) ≡ true
resumed-configured applying h = refl
resumed-configured AgentOutcome.unconfigured h = h
resumed-configured interrupted h = h
resumed-configured applied h = h
resumed-configured failed h = h

valid-configured :
    (y : JoinSyntax) (s : JoinState) → is_valid_state y s ≡ true → is_configured s.outcome ≡ true
unfolding is_valid_state
valid-configured y s v = ground (arith, v)

outcome_state-configured :
    (b : Bool) (s : JoinState) → is_configured (outcome_state b s).outcome ≡ true
outcome_state-configured true s = refl
outcome_state-configured false s = refl

write-Valid :
    (y : JoinSyntax) (w : Write) (s : JoinState) (file : Option JoinState)
    → is_valid_state y s ≡ true
    → Valid y file
    → Valid y (write w s file)
write-Valid y stored s file v f = v
write-Valid y failed_unchanged s file v f = f
write-Valid y failed_stored s file v f = v

restored-Valid :
    (y : JoinSyntax) (file join : Option JoinState)
    → restore_join y file ≡ ok join
    → Valid y file
    → Valid y join
unfolding restore_join
restored-Valid y none join h v = subst (Valid y) (ok-injective none join refl h) tt
restored-Valid y (some s) join h v =
    let (_, _, h1) = >>=-eq-ok (refuse_if (not (is_valid_state y s)) invalid_join) _ h in
    subst (Valid y) (ok-injective _ join refl h1) (
      outcome-Valid y s (resumed_join s.outcome)
        (resumed-configured s.outcome (valid-configured y s v)) v)

-- What `sha256` in hexadecimal and a URL that is one give.
pub record Documented (y : JoinSyntax) : Type 0 where
  pub digest_length :
      (e h : String) (w : WorkerRegistration) → y.byte_length (y.fingerprint e h w) ≡ 64
  pub endpoint_given : (e : String) → y.is_endpoint e ≡ true → (e == "") ≡ false

module _ (y : JoinSyntax) (d : Documented y) where
  new_join-Valid :
      (r : ClusterJoinRequest) → is_valid_join y r ≡ true → is_valid_state y (new_join y r) ≡ true
  unfolding is_valid_join is_valid_state
  new_join-Valid r v = ground (
    arith,
    v,
    d.digest_length r.api_server_endpoint r.ca_cert_hash r.registration,
    d.endpoint_given r.api_server_endpoint,
  )

  bind-Valid :
      (r : ClusterJoinRequest) (m : Option JoinState) (s : JoinState)
      → is_valid_join y r ≡ true
      → Valid y m
      → bind y r m ≡ ok s
      → is_valid_state y s ≡ true
  bind-Valid r none s v h b =
      subst (λ t. is_valid_state y t ≡ true) (ok-injective (new_join y r) s refl b)
        (new_join-Valid r v)
  bind-Valid r (some m) s v h b = elim (Bool-cases (join_conflicts y r m)) [
    | inl c ↦ absurd (refused 409 s (err 409) refl (rw c at b))
    | inr c ↦ subst (λ t. is_valid_state y t ≡ true) (ok-injective m s refl (rw c at b)) h
  ]
    where
      refused : (code : ℕ) (s : JoinState) (r : Result ℕ JoinState) → r ≡ err code → r ≡ ok s → ⊥
      refused code s r e h = cc

  next_join-Valid :
      (r : ClusterJoinRequest) (s : JoinState)
      → is_valid_join y r ≡ true
      → is_valid_state y s ≡ true
      → is_valid_state y (next_join r s) ≡ true
  unfolding is_valid_join
  next_join-Valid r s v h = fence-Valid y s (pos_part r.fence) (ground (arith, v)) h

  read_join-valid :
      (i : JoinArrival) (r : ClusterJoinRequest) → read_join y i ≡ ok r → is_valid_join y r ≡ true
  unfolding read_join
  read_join-valid i r h =
      let (_, _, h1) = >>=-eq-ok (refuse_if (not i.deadline_ok) 400) _ h in
      let (q, _, h2) = >>=-eq-ok (or_fail i.body 400) _ h1 in
      let (_, g, h3) = >>=-eq-ok (refuse_if (not (is_valid_join y q)) 400) _ h2 in
      subst (λ t. is_valid_join y t ≡ true) (ok-injective q r refl h3)
        (unnot (is_valid_join y q) (refuse_if-eq-ok _ 400 g))
    where
      unnot : (b : Bool) → not b ≡ false → b ≡ true
      unnot true h = refl
      unnot false h = cc

  finish_join-Fit :
      (h : JoinSurroundings) (r : ClusterJoinRequest) (s : JoinState) (j : Joiner)
      → is_valid_state y s ≡ true
      → Valid y j.file
      → Fit y (finish_join h r s j).1
  finish_join-Fit h r s j v f =
      let next = outcome-Valid y s _ (outcome_state-configured h.joins s) v in
      record {
        file = write-Valid y h.outcome_write (outcome_state h.joins s) j.file next f;
        memory = either (not h.joins || is_stored h.outcome_write) next;
      }
    where
      either :
          (b : Bool)
          → is_valid_state y (outcome_state h.joins s) ≡ true
          → is_valid_state y (
              if b
              then outcome_state h.joins s
              else record (outcome_state h.joins s) { outcome = interrupted })
            ≡ true
      either true k = k
      either false k = outcome-Valid y (outcome_state h.joins s) interrupted refl k

  proceed-Fit :
      (h : JoinSurroundings) (r : ClusterJoinRequest) (s : JoinState) (j : Joiner)
      → is_valid_state y s ≡ true
      → is_valid_state y (next_join r s) ≡ true
      → Valid y j.file
      → Fit y (proceed h r s j).1
  proceed-Fit h r s j v n f = elim (Bool-cases h.can_join) [
    | inl c ↦ elim (Bool-cases (is_stored h.progress_write)) [
      | inl w ↦
          rw (c, w)
            (finish_join-Fit h r (next_join r s)
              (record j {
                join = some (next_join r s);
                file = write h.progress_write (next_join r s) j.file;
              })
              n (write-Valid y h.progress_write (next_join r s) j.file n f))
      | inr w ↦
          rw (c, w)
            (record {
              file = write-Valid y h.progress_write (next_join r s) j.file n f;
              memory = n;
            })
    ]
    | inr c ↦ rw c (record { file = f; memory = v })
  ]

  cluster_join-Fit :
      (h : JoinSurroundings) (i : JoinArrival) (j : Joiner)
      → Fit y j
      → Fit y (cluster_join y h i j).1
  unfolding cluster_join
  cluster_join-Fit h i j f = elim (Result-cases (read_join y i)) [
    | inl (r, e) ↦ elim (Result-cases (bind y r j.join)) [
      | inl (s, b) ↦
          let ok_request = read_join-valid i r e in
          let v = bind-Valid r j.join s ok_request f.memory b in
          rw (e, b) (proceed-Fit h r s j v (next_join-Valid r s ok_request v) f.file)
      | inr (code, b) ↦ rw (e, b) f
    ]
    | inr (code, e) ↦ rw e f
  ]

  JoinStep-Fit : {a b : Joiner} → Fit y a → JoinStep y a b → Fit y b
  JoinStep-Fit {a} f (joins h i) = cluster_join-Fit h i a f
  JoinStep-Fit {a} f (reopens join n) = record {
    file = f.file;
    memory = restored-Valid y a.file join n f.file;
  }
  JoinStep-Fit {a} f (dies_joining i r s join e b n) =
      let ok_request = read_join-valid i r e in
      let v = next_join-Valid r s ok_request (bind-Valid r a.join s ok_request f.memory b) in
      record { file = v; memory = restored-Valid y (some (next_join r s)) join n v }

  JoinReach-Fit : {a b : Joiner} → Fit y a → JoinReach y a b → Fit y b
  JoinReach-Fit f at_start = f
  JoinReach-Fit f (then_joins r s) = JoinStep-Fit (JoinReach-Fit f r) s

  restore_join-some :
      (file : Option JoinState)
      → Valid y file
      → (join : Option JoinState) × (restore_join y file ≡ ok join)
  unfolding restore_join
  restore_join-some none v = (none, refl)
  restore_join-some (some s) v = (some (record s { outcome = resumed_join s.outcome }), rw v refl)

-- An agent that has come from a new one and a join that has come from a new one, in any histories, can
-- be started again from their files: NewServer accepts them, the state read back is not behind the one
-- in memory, and the join read back is not behind its file. The configuration and the identity are
-- valid, the files can be read, hashes have 64 digits, and no empty text is a valid endpoint.
pub start-restarts :
    (x : Syntax) (y : JoinSyntax) (c : Installation) (identity : String) (a : Agent) (j : Joiner)
    → Documented y
    → c.config_ok ≡ true
    → c.identity_ok ≡ true
    → c.state_readable ≡ true
    → c.join_readable ≡ true
    → Reach x (new_agent identity) a
    → JoinReach y new_joiner j
    → (b : Agent) × (k : Joiner) × (start x y c a j ≡ ok (b, k))
      × Follows (mark a.saved) (mark b.saved)
      × Behind j.file k.join
unfolding start
start-restarts x y c identity a j d config own state joined r t =
    let (b, served, follows) = Reach-restarts x identity a r in
    let fit = JoinReach-Fit y d (record { file = tt; memory = tt }) t in
    let (join, restored) = restore_join-some y d j.file fit.file in
    (
      b,
      reopened j join,
      rw (config, own, state, joined, served, restored) refl,
      follows,
      restore_join-Behind y j.file join restored,
    )
