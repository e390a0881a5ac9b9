-- ===== src/Base/Rows.antt =====
-- How the rows of a table develop. `Grows R` relates each old row to the row now in its place and
-- allows new rows behind them; `All` and `Unique` hold of the rows of one table.
use crane_oss.Base.Tests.{Bool-cases, &&-true}
use crane_oss.Base.Tables.{update, any, find, count}
use Prim.Native.String.{String}
use mathlib.Core.Path.{◌≡◌, refl, subst, ◌∙◌}
use mathlib.Core.Logic.{inl, inr}
use mathlib.Core.Bool.{Bool, true, false, ◌&&◌}
use mathlib.Core.Option.{none, some, some-injective}
use mathlib.Core.List.{List, [], ◌∷◌, ◌++◌}
use native.Mathlib.Omega.{arith}
use text.Mathlib.Text.{◌==◌}
use text.Mathlib.TextEquality.{eq_iff}

module _ {ℓ} {A : Type ℓ} where
  abbrev pub All : (A → Type 0) → List A → Type 0
  All P [] = Unit {0}
  All P (x ∷ xs) = P x × All P xs

  abbrev pub Grows : (A → A → Type 0) → List A → List A → Type 0
  Grows R [] ys = Unit {0}
  Grows R (x ∷ xs) [] = ⊥
  Grows R (x ∷ xs) (y ∷ ys) = R x y × Grows R xs ys

  pub Grows-refl : (R : A → A → Type 0) → ((x : A) → R x x) → (xs : List A) → Grows R xs xs
  Grows-refl R r [] = tt
  Grows-refl R r (x ∷ xs) = (r x, Grows-refl R r xs)

  pub Grows-trans :
      (R : A → A → Type 0)
      → ((x y z : A) → R x y → R y z → R x z)
      → (xs ys zs : List A) → Grows R xs ys
      → Grows R ys zs
      → Grows R xs zs
  Grows-trans R t [] ys zs g h = tt
  Grows-trans R t (x ∷ xs) [] zs g h = absurd g
  Grows-trans R t (x ∷ xs) (y ∷ ys) [] g h = absurd h
  Grows-trans R t (x ∷ xs) (y ∷ ys) (z ∷ zs) g h =
      (t x y z g.0 h.0, Grows-trans R t xs ys zs g.1 h.1)

  pub Grows-append :
      (R : A → A → Type 0) → ((x : A) → R x x) → (xs ys : List A) → Grows R xs (xs ++ ys)
  Grows-append R r [] ys = tt
  Grows-append R r (x ∷ xs) ys = (r x, Grows-append R r xs ys)

  -- An update that respects `R` on the rows it chooses.
  pub Grows-update :
      (R : A → A → Type 0) (p : A → Bool) (f : A → A)
      → ((x : A) → R x x)
      → ((x : A) → p x ≡ true → R x (f x))
      → (xs : List A) → Grows R xs (update p f xs)
  Grows-update R p f r h [] = tt
  Grows-update R p f r h (x ∷ xs) = (
    elim (Bool-cases (p x)) [ inl e ↦ rw e (h x e) | inr e ↦ rw e (r x) ],
    Grows-update R p f r h xs,
  )

  -- The same, where the rows that it chooses are known to allow it.
  pub Grows-update_All :
      (R : A → A → Type 0) (p : A → Bool) (f : A → A)
      → ((x : A) → R x x)
      → (xs : List A) → All (λ x. p x ≡ true → R x (f x)) xs
      → Grows R xs (update p f xs)
  Grows-update_All R p f r [] a = tt
  Grows-update_All R p f r (x ∷ xs) a = (
    elim (Bool-cases (p x)) [ inl e ↦ rw e (a.0 e) | inr e ↦ rw e (r x) ],
    Grows-update_All R p f r xs a.1,
  )

  pub All-update :
      (P : A → Type 0) (p : A → Bool) (f : A → A)
      → ((x : A) → p x ≡ true → P x → P (f x))
      → (xs : List A) → All P xs
      → All P (update p f xs)
  All-update P p f h [] a = tt
  All-update P p f h (x ∷ xs) a = (
    elim (Bool-cases (p x)) [ inl e ↦ rw e (h x e a.0) | inr e ↦ rw e a.0 ],
    All-update P p f h xs a.1,
  )

  pub All-snoc : (P : A → Type 0) (xs : List A) (x : A) → All P xs → P x → All P (xs ++ x ∷ [])
  All-snoc P [] x a p = (p, tt)
  All-snoc P (y ∷ ys) x a p = (a.0, All-snoc P ys x a.1 p)

  pub All-map : (P Q : A → Type 0) → ((x : A) → P x → Q x) → (xs : List A) → All P xs → All Q xs
  All-map P Q h [] a = tt
  All-map P Q h (x ∷ xs) a = (h x a.0, All-map P Q h xs a.1)

  -- No row passes a test that all rows fail.
  pub count-none : (p : A → Bool) (xs : List A) → All (λ x. p x ≡ false) xs → count p xs ≡ 0
  count-none p [] a = refl
  count-none p (x ∷ xs) a = rw a.0 (count-none p xs a.1)

  pub any-none : (p : A → Bool) (xs : List A) → All (λ x. p x ≡ false) xs → any p xs ≡ false
  any-none p [] a = refl
  any-none p (x ∷ xs) a = rw a.0 (any-none p xs a.1)

  pub find-none : (p : A → Bool) (xs : List A) → All (λ x. p x ≡ false) xs → find p xs ≡ none
  find-none p [] a = refl
  find-none p (x ∷ xs) a = rw a.0 (find-none p xs a.1)

  pub any-snoc :
      (p : A → Bool) (xs : List A) (x : A) → any p xs ≡ true → any p (xs ++ x ∷ []) ≡ true
  any-snoc p [] x h = cc
  any-snoc p (y ∷ ys) x h = ground (arith, any-snoc p ys x)

  -- A test that an update does not change.
  pub any-update :
      (q p : A → Bool) (f : A → A)
      → ((x : A) → q (f x) ≡ q x)
      → (xs : List A) → any q (update p f xs) ≡ any q xs
  any-update q p f h [] = refl
  any-update q p f h (x ∷ xs) = ground (arith, h x, any-update q p f h xs)

  pub find-All :
      (P : A → Type 0) (p : A → Bool) (xs : List A) (x : A) → All P xs → find p xs ≡ some x → P x
  find-All P p [] x a e = cc
  find-All P p (y ∷ ys) x a e = elim (Bool-cases (p y)) [
    | inl h ↦ subst P (some-injective y x (rw h at e)) a.0
    | inr h ↦ find-All P p ys x a.1 (rw h at e)
  ]

  pub find-true : (p : A → Bool) (xs : List A) (x : A) → find p xs ≡ some x → p x ≡ true
  find-true p [] x e = cc
  find-true p (y ∷ ys) x e = ground (arith, find-true p ys x)

  pub find-any : (p : A → Bool) (xs : List A) (x : A) → find p xs ≡ some x → any p xs ≡ true
  find-any p [] x e = cc
  find-any p (y ∷ ys) x e = ground (arith, find-any p ys x)

  -- What the first row that passes has besides, some row that passes has.
  pub find-any_and :
      (p q : A → Bool) (xs : List A) (x : A)
      → find p xs ≡ some x
      → q x ≡ true
      → any (λ y. p y && q y) xs ≡ true
  find-any_and p q [] x e h = cc
  find-any_and p q (y ∷ ys) x e h = ground (arith, find-any_and p q ys x)

  pub any-All : (p : A → Bool) (xs : List A) → any p xs ≡ false → All (λ x. p x ≡ false) xs
  any-All p [] h = tt
  any-All p (x ∷ xs) h = ground (arith, any-All p xs)

  pub any_mono :
      (p q : A → Bool)
      → ((x : A) → p x ≡ true → q x ≡ true)
      → (xs : List A) → any p xs ≡ true
      → any q xs ≡ true
  any_mono p q h [] e = cc
  any_mono p q h (x ∷ xs) e = ground (arith, h x, any_mono p q h xs)

-- A key names at most one row.
module _ {ℓ} {A : Type ℓ} (key : A → String) where
  abbrev pub Unique : List A → Type 0
  Unique [] = Unit {0}
  Unique (x ∷ xs) = (any (λ y. key y == key x) xs ≡ false) × Unique xs

  other_key :
      (k : String) (q : A → Bool) (x : A) (xs : List A)
      → key x ≡ k
      → any (λ y. key y == key x) xs ≡ false
      → All (λ y. key y ≡ k → q y ≡ true) xs
  other_key k q x xs e u =
      All-map (λ y. (key y == key x) ≡ false) (λ y. key y ≡ k → q y ≡ true)
        (λ y miss same. ground (arith, eq_iff (key y) (key x))) xs (any-All _ xs u)

  not_tail :
      (k : String) (q : A → Bool) (x : A) (xs : List A)
      → any (λ y. key y == key x) xs ≡ false
      → any (λ y. key y == k && q y) xs ≡ true
      → key x ≡ k
      → q x ≡ true
  not_tail k q x xs u h e =
      let found : any (λ y. key y == key x) xs ≡ true =
        any_mono (λ y. key y == k && q y) (λ y. key y == key x)
          (λ y hit. ground (arith, eq_iff (key y) (key x), eq_iff (key y) k)) xs h in
      cc

  -- Where a row of this key passes a test, every row of this key does, since there is one.
  pub Unique-any :
      (k : String) (q : A → Bool) (xs : List A)
      → Unique xs
      → any (λ x. key x == k && q x) xs ≡ true
      → All (λ x. key x ≡ k → q x ≡ true) xs
  Unique-any k q [] u h = tt
  Unique-any k q (x ∷ xs) u h = elim (Bool-cases (key x == k && q x)) [
    | inl hit ↦
        let (same, pass) = &&-true (key x == k) (q x) hit in
        (λ e. pass, other_key k q x xs ((eq_iff (key x) k).0 same) u.0)
    | inr miss ↦
        let tail : any (λ y. key y == k && q y) xs ≡ true = rw miss at h in
        (not_tail k q x xs u.0 tail, Unique-any k q xs u.1 tail)
  ]

  pub Unique-snoc :
      (xs : List A) (n : A)
      → Unique xs
      → any (λ x. key x == key n) xs ≡ false
      → Unique (xs ++ n ∷ [])
  Unique-snoc [] n u h = (refl, tt)
  Unique-snoc (x ∷ xs) n u h = (
    snoc_miss x xs n u.0 (ground (arith, eq_iff (key x) (key n), eq_iff (key n) (key x))),
    Unique-snoc xs n u.1 (ground arith),
  )
    where
      snoc_miss :
          (x : A) (xs : List A) (n : A)
          → any (λ y. key y == key x) xs ≡ false
          → (key n == key x) ≡ false
          → any (λ y. key y == key x) (xs ++ n ∷ []) ≡ false
      snoc_miss x [] n e h = ground arith
      snoc_miss x (y ∷ ys) n e h = ground (arith, snoc_miss x ys n)

  pub Unique-update :
      (p : A → Bool) (f : A → A)
      → ((x : A) → key (f x) ≡ key x)
      → (xs : List A) → Unique xs
      → Unique (update p f xs)
  Unique-update p f h [] u = tt
  Unique-update p f h (x ∷ xs) u = elim (Bool-cases (p x)) [
    | inl e ↦
        rw (e, h x)
          (
            any-update (λ y. key y == key x) p f (λ y. rw (h y)) xs ∙ u.0,
            Unique-update p f h xs u.1,
          )
    | inr e ↦
        rw e (
          any-update (λ y. key y == key x) p f (λ y. rw (h y)) xs ∙ u.0,
          Unique-update p f h xs u.1,
        )
  ]
