-- ===== src/Agent/Handling.antt =====
-- A request keeps the invariant, wherever it fails.
use crane_oss.Base.{
  ◌≡◌, refl, Bool, true, false, ◌&&◌, inl, inr, Option, some, List, arith, Bool-cases, Result-cases,
  &&-true, ok, if◌then◌else◌,
}
use crane_oss.Api.{ExpectedHostState, KubernetesResult}
use crane_oss.Agent.Request.{Syntax, validate_expected}
use crane_oss.Agent.State.{
  applied, failed, SavedState, Agent, Write, stored, failed_unchanged, failed_stored, is_stored,
  write,
}
use crane_oss.Agent.Server.{
  Arrival, Surroundings, read_request, conflicts, is_repeated, accepted, accept, log_of, update,
  locked, publish, settle, conclude, enforce, outcome_of, interrupted_after,
}
use crane_oss.Agent.Invariant.{
  Fine, Storable, accepted-Follows, Kept, Sound, read_request-valid, Fine-log_of, Kept-log_of,
  Fine-accepted, Storable-accepted,
}

pub accept-Sound :
    (x : Syntax) (h : Surroundings) (e : ExpectedHostState) (a : Agent)
    → validate_expected x e ≡ ok tt
    → conflicts x e a.saved ≡ false
    → is_repeated e a.saved ≡ false
    → Sound x a
    → Sound x (accept x h e a)
unfolding accept
accept-Sound x h e a v c r s = go h.accept_write
  where
    go :
        (w : Write)
        → Sound x (
            if is_stored w
            then publish (record a {
              saved = accepted x e a.saved;
              file = write w (accepted x e a.saved) a.file;
            })
            else record a { file = write w (accepted x e a.saved) a.file })
    go stored = record {
      memory = Fine-accepted x e a.enforced a.saved c s.memory;
      kept = (Storable-accepted x e a.saved v, Fine-accepted x e a.enforced a.saved c s.memory);
      ahead = inr refl;
      durable = λ d. cc;
      shown = refl;
    }
    go failed_unchanged = record {
      memory = s.memory;
      kept = s.kept;
      ahead = s.ahead;
      durable = s.durable;
      shown = s.shown;
    }
    go failed_stored = record {
      memory = s.memory;
      kept = (Storable-accepted x e a.saved v, Fine-accepted x e a.enforced a.saved c s.memory);
      ahead = accepted-Follows x e a.saved c;
      durable = λ d. inr (ground arith);
      shown = s.shown;
    }

abbrev taken : Syntax → ExpectedHostState → Agent → Agent
taken x e a =
    publish (record a { saved = accepted x e a.saved; file = some (accepted x e a.saved) })

accept-taken :
    (x : Syntax) (h : Surroundings) (e : ExpectedHostState) (a : Agent)
    → is_stored h.accept_write ≡ true
    → accept x h e a ≡ taken x e a
unfolding accept
accept-taken x h e a i = go h.accept_write i
  where
    go :
        (w : Write)
        → is_stored w ≡ true
        → (if is_stored w
            then publish (record a {
              saved = accepted x e a.saved;
              file = write w (accepted x e a.saved) a.file;
            })
            else record a { file = write w (accepted x e a.saved) a.file })
          ≡ taken x e a
    go stored i = refl
    go failed_unchanged i = cc
    go failed_stored i = cc

Fine-outcome_of :
    (x : Syntax) (e : ExpectedHostState) (log : List ExpectedHostState) (s : SavedState)
    (done : Bool) (kubernetes : Option KubernetesResult)
    → Fine log (accepted x e s)
    → Fine (log_of done e log) (outcome_of done e kubernetes (accepted x e s))
Fine-outcome_of x e log s true kubernetes f = record {
  bounded = omega arith;
  backed = inr (e, inl refl, refl);
  exact = λ a. (refl, inl refl);
}
Fine-outcome_of x e log s false kubernetes f = record {
  bounded = f.bounded;
  backed = f.backed;
  exact = λ a. cc;
}

Fine-interrupted :
    (x : Syntax) (e : ExpectedHostState) (log : List ExpectedHostState) (s : SavedState)
    (done : Bool) (kubernetes : Option KubernetesResult)
    → Fine log (accepted x e s)
    → Fine (log_of done e log) (interrupted_after s (outcome_of done e kubernetes (accepted x e s)))
Fine-interrupted x e log s true kubernetes f =
    let g = Fine-log_of true e log (accepted x e s) f in
    record { bounded = g.bounded; backed = g.backed; exact = λ a. cc }
Fine-interrupted x e log s false kubernetes f = record {
  bounded = f.bounded;
  backed = f.backed;
  exact = λ a. cc;
}

Storable-outcome_of :
    (x : Syntax) (e : ExpectedHostState) (s : SavedState) (done : Bool)
    (kubernetes : Option KubernetesResult)
    → validate_expected x e ≡ ok tt
    → Storable x (outcome_of done e kubernetes (accepted x e s))
Storable-outcome_of x e s true kubernetes v = record {
  valid = v;
  hashed = refl;
  configured = (applied, refl);
}
Storable-outcome_of x e s false kubernetes v = record {
  valid = v;
  hashed = refl;
  configured = (failed, refl);
}

settle-Sound :
    (x : Syntax) (h : Surroundings) (e : ExpectedHostState) (a : Agent)
    → validate_expected x e ≡ ok tt
    → conflicts x e a.saved ≡ false
    → Sound x a
    → Sound x (settle h e a.saved (taken x e a))
settle-Sound x h e a v c s = go (enforce h e).1 (enforce h e).0 h.outcome_write
  where
    fine : Fine a.enforced (accepted x e a.saved)
    fine = Fine-accepted x e a.enforced a.saved c s.memory

    new :
        (done : Bool) (kubernetes : Option KubernetesResult)
        → Kept x
            (log_of done e a.enforced)
            (some (outcome_of done e kubernetes (accepted x e a.saved)))
    new done kubernetes = (
      Storable-outcome_of x e a.saved done kubernetes v,
      Fine-outcome_of x e a.enforced a.saved done kubernetes fine,
    )

    old : (done : Bool) → Kept x (log_of done e a.enforced) (some (accepted x e a.saved))
    old done =
        Kept-log_of x done e a.enforced (some (accepted x e a.saved))
          (Storable-accepted x e a.saved v, fine)

    go :
        (done : Bool) (kubernetes : Option KubernetesResult) (w : Write)
        → Sound x (
            publish (record (taken x e a) {
              saved =
                  if is_stored w
                  then outcome_of done e kubernetes (accepted x e a.saved)
                  else interrupted_after a.saved
                      (outcome_of done e kubernetes (accepted x e a.saved));
              file =
                  write w
                    (outcome_of done e kubernetes (accepted x e a.saved))
                    (some (accepted x e a.saved));
              enforced = log_of done e a.enforced;
            }))
    go done kubernetes stored = record {
      memory = (new done kubernetes).1;
      kept = new done kubernetes;
      ahead = inr refl;
      durable = λ d. inl refl;
      shown = refl;
    }
    go true kubernetes failed_unchanged = record {
      memory = Fine-interrupted x e a.enforced a.saved true kubernetes fine;
      kept = old true;
      ahead = inr refl;
      durable = λ d. cc;
      shown = refl;
    }
    go false kubernetes failed_unchanged = record {
      memory = Fine-interrupted x e a.enforced a.saved false kubernetes fine;
      kept = old false;
      ahead = inr refl;
      durable = λ d. cc;
      shown = refl;
    }
    go true kubernetes failed_stored = record {
      memory = Fine-interrupted x e a.enforced a.saved true kubernetes fine;
      kept = new true kubernetes;
      ahead = inr refl;
      durable = λ d. cc;
      shown = refl;
    }
    go false kubernetes failed_stored = record {
      memory = Fine-interrupted x e a.enforced a.saved false kubernetes fine;
      kept = new false kubernetes;
      ahead = inr refl;
      durable = λ d. cc;
      shown = refl;
    }

-- A whole request.
locked-Sound :
    (x : Syntax) (h : Surroundings) (e : ExpectedHostState) (a : Agent)
    → validate_expected x e ≡ ok tt
    → Sound x a
    → Sound x (locked x h e a).1
unfolding locked conclude
locked-Sound x h e a v s = elim (Bool-cases (conflicts x e a.saved)) [
  | inl c ↦ rw c s
  | inr c ↦ elim (Bool-cases (is_repeated e a.saved)) [
    | inl r ↦ rw (c, r) s
    | inr r ↦ elim (Bool-cases (is_stored h.accept_write && h.accept_published)) [
      | inl w ↦
          let eq = accept-taken x h e a (&&-true _ _ w).0 in
          rw (c, r, w, eq) (settle-Sound x h e a v c s)
      | inr w ↦ rw (c, r, w) (accept-Sound x h e a v c r s)
    ]
  ]
]

pub update-Sound :
    (x : Syntax) (h : Surroundings) (i : Arrival) (a : Agent)
    → Sound x a
    → Sound x (update x h i a).1
unfolding update
update-Sound x h i a s = elim (Result-cases (read_request x i)) [
  | inl (e, r) ↦ rw r (locked-Sound x h e a (read_request-valid x i e r) s)
  | inr (code, r) ↦ rw r s
]
