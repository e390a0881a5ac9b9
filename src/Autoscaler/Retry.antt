-- ===== src/Autoscaler/Retry.antt =====
-- The loop of the adapter's retries ends, and what it keeps.
use crane_oss.Base.{
  ℕ, zero, suc, ◌≡◌, refl, subst, Bool, true, false, not, ◌||◌, Option, none, some, Result, err,
}
use mathlib.Core.Option.{some-injective}
use crane_oss.Autoscaler.Groups.{Code}
use crane_oss.Autoscaler.Server.{
  Context, is_unavailable, unless_done, after_call, retry_from, retry,
}

abbrev Ends :
    {S : Type 0}
    → Option (Result Code (Unit {0}) × S)
    → Option (Result Code (Unit {0}) × S)
    → Type 0
Ends {S} o p = (answer : Result Code (Unit {0}) × S) × (o ≡ some answer) × (p ≡ some answer)

module _ {S : Type 0} where
  unless_done-Ends :
      (m : Option Code) (s : S) (o p : Option (Result Code (Unit {0}) × S))
      → Ends o p
      → Ends (unless_done m s o) (unless_done m s p)
  unless_done-Ends none s o p e = e
  unless_done-Ends (some code) s o p e = ((err code, s), refl, refl)

  after_call-Ends :
      (stop : Bool) (m : Option Code) (answer : Result Code (Unit {0}) × S)
      (o p : Option (Result Code (Unit {0}) × S))
      → Ends o p
      → Ends (after_call stop m answer o) (after_call stop m answer p)
  after_call-Ends true m answer o p e = (answer, refl, refl)
  after_call-Ends false (some code) answer o p e = ((err code, answer.1), refl, refl)
  after_call-Ends false none answer o p e = e

  after_third-Ends :
      (b : Bool) (m : Option Code) (answer : Result Code (Unit {0}) × S)
      (o p : Option (Result Code (Unit {0}) × S))
      → Ends (after_call (b || true) m answer o) (after_call (b || true) m answer p)
  after_third-Ends true m answer o p = (answer, refl, refl)
  after_third-Ends false m answer o p = (answer, refl, refl)

  unless_done-keeps :
      (P : S → Type 0) (m : Option Code) (s : S) (o : Option (Result Code (Unit {0}) × S))
      (answer : Result Code (Unit {0}) × S)
      → P s
      → (o ≡ some answer → P answer.1)
      → unless_done m s o ≡ some answer
      → P answer.1
  unless_done-keeps P none s o answer p k e = k e
  unless_done-keeps P (some code) s o answer p k e =
      subst (λ a. P a.1) (some-injective _ answer e) p

  after_call-keeps :
      (P : S → Type 0) (stop : Bool) (m : Option Code) (first answer : Result Code (Unit {0}) × S)
      (o : Option (Result Code (Unit {0}) × S))
      → P first.1
      → (o ≡ some answer → P answer.1)
      → after_call stop m first o ≡ some answer
      → P answer.1
  after_call-keeps P true m first answer o p k e = subst (λ a. P a.1) (some-injective _ answer e) p
  after_call-keeps P false (some code) first answer o p k e =
      subst (λ a. P a.1) (some-injective _ answer e) p
  after_call-keeps P false none first answer o p k e = k e

module _ {S : Type 0} (ctx : Context) (call : S → Result Code (Unit {0}) × S) where
  -- What holds of the state before the loop and survives each call holds after it.
  pub retry_from-keeps :
      (P : S → Type 0)
      → ((s : S) → P s → P (call s).1)
      → (fuel attempt : ℕ) (s : S) (answer : Result Code (Unit {0}) × S) → P s
      → retry_from fuel attempt ctx call s ≡ some answer
      → P answer.1
  unfolding retry_from
  retry_from-keeps P k zero attempt s answer p e = cc
  retry_from-keeps P k (suc fuel) attempt s answer p e =
      unless_done-keeps P (ctx.before attempt) s _ answer p
        (after_call-keeps P _ (ctx.waiting attempt) (call s) answer _ (k s p)
          (retry_from-keeps P k fuel (suc attempt) (call s).1 answer (k s p)))
        e

  third-Ends :
      (more : ℕ) (s : S) → Ends (retry_from 1 2 ctx call s) (retry_from (suc more) 2 ctx call s)
  unfolding retry_from
  third-Ends more s =
      unless_done-Ends (ctx.before 2) s _ _
        (after_third-Ends (not (is_unavailable (call s).0)) (ctx.waiting 2) (call s) _ _)

  second-Ends :
      (more : ℕ) (s : S)
      → Ends (retry_from 2 1 ctx call s) (retry_from (suc (suc more)) 1 ctx call s)
  unfolding retry_from
  second-Ends more s =
      unless_done-Ends (ctx.before 1) s _ _
        (after_call-Ends _ (ctx.waiting 1) (call s) _ _ (third-Ends more (call s).1))

-- The loop of retry ends after three attempts at most, whatever the calls and the context answer:
-- three rounds of fuel are enough, and more fuel gives the same.
pub retry-ends :
    {S : Type 0} (ctx : Context) (call : S → Result Code (Unit {0}) × S) (more : ℕ) (s : S)
    → (answer : Result Code (Unit {0}) × S) × (retry ctx call s ≡ some answer)
      × (retry_from (suc (suc (suc more))) 0 ctx call s ≡ some answer)
unfolding retry_from
retry-ends ctx call more s =
    unless_done-Ends (ctx.before 0) s _ _
      (after_call-Ends _ (ctx.waiting 0) (call s) _ _ (second-Ends ctx call more (call s).1))
