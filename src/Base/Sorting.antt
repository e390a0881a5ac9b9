-- ===== src/Base/Sorting.antt =====
-- Filters and ORDER BY: what holds of the chosen rows, and which rows they are.
use crane_oss.Base.Tests.{length, Bool-cases}
use crane_oss.Base.Tables.{any, filter, count, take, insert_by, sort_by}
use crane_oss.Base.Rows.{All, All-map, any_mono}
use Prim.Native.Nat.{ℕ, zero, suc, ◌≤◌, min}
use mathlib.Core.Path.{◌≡◌, refl, sym, ◌∙◌, ap, subst}
use mathlib.Core.Logic.{inl, inr}
use mathlib.Core.Bool.{Bool, true, false, ◌&&◌, ◌||◌}
use mathlib.Core.Option.{Option, none, some, some-injective}
use mathlib.Core.List.{List, [], ◌∷◌, Memᴰ}
use native.Mathlib.Omega.{arith}

module _ {ℓ} {A : Type ℓ} where
  abbrev pub first : List A → Option A
  first [] = none
  first (x ∷ xs) = some x

  pub any-filter : (p q : A → Bool) (xs : List A) → any q (filter p xs) ≡ any (λ x. p x && q x) xs
  any-filter p q [] = refl
  any-filter p q (x ∷ xs) = ground (arith, any-filter p q xs)

  any-insert_by :
      (le : A → A → Bool) (q : A → Bool) (x : A) (ys : List A)
      → any q (insert_by le x ys) ≡ (q x || any q ys)
  any-insert_by le q x [] = refl
  any-insert_by le q x (y ∷ ys) = ground (arith, any-insert_by le q x ys)

  pub any-sort_by :
      (le : A → A → Bool) (q : A → Bool) (xs : List A) → any q (sort_by le xs) ≡ any q xs
  any-sort_by le q [] = refl
  any-sort_by le q (x ∷ xs) =
      ground (arith, any-insert_by le q x (sort_by le xs), any-sort_by le q xs)

  length-insert_by :
      (le : A → A → Bool) (x : A) (ys : List A) → length (insert_by le x ys) ≡ suc (length ys)
  length-insert_by le x [] = refl
  length-insert_by le x (y ∷ ys) = ground (arith, length-insert_by le x ys)

  pub length-sort_by : (le : A → A → Bool) (xs : List A) → length (sort_by le xs) ≡ length xs
  length-sort_by le [] = refl
  length-sort_by le (x ∷ xs) = length-insert_by le x (sort_by le xs) ∙ ap suc (length-sort_by le xs)

  pub length-filter : (p : A → Bool) (xs : List A) → length (filter p xs) ≡ count p xs
  length-filter p [] = refl
  length-filter p (x ∷ xs) = ground (arith, length-filter p xs)

  pub length-take : (n : ℕ) (xs : List A) → length (take n xs) ≡ min n (length xs)
  length-take zero [] = omega arith
  length-take (suc n) [] = omega arith
  length-take zero (x ∷ xs) = omega arith
  length-take (suc n) (x ∷ xs) = omega (arith, length-take n xs)

  pub All-filter : (p : A → Bool) (xs : List A) → All (λ x. p x ≡ true) (filter p xs)
  All-filter p [] = tt
  All-filter p (x ∷ xs) = elim (Bool-cases (p x)) [
    | inl e ↦ rw e (e, All-filter p xs)
    | inr e ↦ rw e (All-filter p xs)
  ]

  All-insert_by :
      (P : A → Type 0) (le : A → A → Bool) (x : A) (ys : List A)
      → P x
      → All P ys
      → All P (insert_by le x ys)
  All-insert_by P le x [] p a = (p, tt)
  All-insert_by P le x (y ∷ ys) p a = elim (Bool-cases (le x y)) [
    | inl e ↦ rw e (p, a)
    | inr e ↦ rw e (a.0, All-insert_by P le x ys p a.1)
  ]

  pub All-sort_by :
      (P : A → Type 0) (le : A → A → Bool) (xs : List A) → All P xs → All P (sort_by le xs)
  All-sort_by P le [] a = tt
  All-sort_by P le (x ∷ xs) a = All-insert_by P le x (sort_by le xs) a.0 (All-sort_by P le xs a.1)

  pub All-take : (P : A → Type 0) (n : ℕ) (xs : List A) → All P xs → All P (take n xs)
  All-take P zero [] a = tt
  All-take P (suc n) [] a = tt
  All-take P zero (x ∷ xs) a = tt
  All-take P (suc n) (x ∷ xs) a = (a.0, All-take P n xs a.1)

  pub All-first : (P : A → Type 0) (xs : List A) (x : A) → All P xs → first xs ≡ some x → P x
  All-first P [] x a e = cc
  All-first P (y ∷ ys) x a e = subst P (some-injective y x e) a.0

  pub any-first :
      (q : A → Bool) (xs : List A) (x : A) → first xs ≡ some x → q x ≡ true → any q xs ≡ true
  any-first q [] x e h = cc
  any-first q (y ∷ ys) x e h = ground arith

  first-any : (q : A → Bool) (xs : List A) → any q xs ≡ true → (x : A) × (first xs ≡ some x)
  first-any q [] h = cc
  first-any q (x ∷ xs) h = (x, refl)

  -- Such a statement finds a row where the table has one.
  pub first-sort_by-any :
      (le : A → A → Bool) (p : A → Bool) (xs : List A)
      → any p xs ≡ true
      → (x : A) × (first (sort_by le (filter p xs)) ≡ some x)
  first-sort_by-any le p xs h =
      first-any (λ x. true) (sort_by le (filter p xs))
        (ground (
          arith,
          any-sort_by le (λ x. true) (filter p xs),
          any-filter p (λ x. true) xs,
          any_mono p (λ x. p x && true) (λ x e. ground arith) xs h,
        ))

  -- The row that `SELECT … WHERE p ORDER BY … LIMIT 1` finds passes the test and is in the table.
  pub first-sort_by-filter :
      (le : A → A → Bool) (p : A → Bool) (xs : List A) (x : A)
      → first (sort_by le (filter p xs)) ≡ some x
      → p x ≡ true
  first-sort_by-filter le p xs x e =
      All-first (λ y. p y ≡ true) _ x (All-sort_by _ le _ (All-filter p xs)) e

  first-Mem : (xs : List A) (x : A) → first xs ≡ some x → Memᴰ x xs
  first-Mem [] x e = cc
  first-Mem (y ∷ ys) x e = Memᴰ.head (sym (some-injective y x e))

  under_head :
      (x z : A) (xs ys : List A) → (Memᴰ z xs → Memᴰ z ys) → Memᴰ z (x ∷ xs) → Memᴰ z (x ∷ ys)
  under_head x z xs ys f (Memᴰ.head e) = Memᴰ.head e
  under_head x z xs ys f (Memᴰ.tail k) = Memᴰ.tail (f k)

  swapped : (x y z : A) (ys : List A) → Memᴰ z (y ∷ x ∷ ys) → Memᴰ z (x ∷ y ∷ ys)
  swapped x y z ys (Memᴰ.head e) = Memᴰ.tail (Memᴰ.head e)
  swapped x y z ys (Memᴰ.tail k) = under_head x z ys (y ∷ ys) (λ m. Memᴰ.tail m) k

  insert_by-Mem :
      (le : A → A → Bool) (x z : A) (ys : List A) → Memᴰ z (insert_by le x ys) → Memᴰ z (x ∷ ys)
  insert_by-Mem le x z [] m = m
  insert_by-Mem le x z (y ∷ ys) m = elim (Bool-cases (le x y)) [
    | inl e ↦ rw e at m
    | inr e ↦
        swapped x y z ys
          (under_head y z (insert_by le x ys) (x ∷ ys) (insert_by-Mem le x z ys) (rw e at m))
  ]

  sort_by-Mem : (le : A → A → Bool) (z : A) (xs : List A) → Memᴰ z (sort_by le xs) → Memᴰ z xs
  sort_by-Mem le z [] m = m
  sort_by-Mem le z (x ∷ xs) m =
      under_head x z (sort_by le xs) xs (sort_by-Mem le z xs)
        (insert_by-Mem le x z (sort_by le xs) m)

  filter-Mem : (p : A → Bool) (z : A) (xs : List A) → Memᴰ z (filter p xs) → Memᴰ z xs
  filter-Mem p z [] m = m
  filter-Mem p z (x ∷ xs) m = elim (Bool-cases (p x)) [
    | inl e ↦ under_head x z (filter p xs) xs (filter-Mem p z xs) (rw e at m)
    | inr e ↦ Memᴰ.tail (filter-Mem p z xs (rw e at m))
  ]

  -- The row that such a statement finds is a row of the table.
  pub first-sort_by-Mem :
      (le : A → A → Bool) (p : A → Bool) (xs : List A) (x : A)
      → first (sort_by le (filter p xs)) ≡ some x
      → Memᴰ x xs
  first-sort_by-Mem le p xs x e =
      filter-Mem p x xs (sort_by-Mem le x (filter p xs) (first-Mem (sort_by le (filter p xs)) x e))

  pub any-first-sort_by :
      (le : A → A → Bool) (p q : A → Bool) (xs : List A) (x : A)
      → first (sort_by le (filter p xs)) ≡ some x
      → q x ≡ true
      → any (λ y. p y && q y) xs ≡ true
  any-first-sort_by le p q xs x e h = ground (
    arith,
    any-first q (sort_by le (filter p xs)) x e h,
    any-sort_by le q (filter p xs),
    any-filter p q xs,
  )

-- From a sorted or filtered table back to the table.
module _ {ℓ} {A : Type ℓ} (P : A → Type 0) where
  All-uninsert :
      (le : A → A → Bool) (x : A) (ys : List A) → All P (insert_by le x ys) → P x × All P ys
  All-uninsert le x [] a = a
  All-uninsert le x (y ∷ ys) a = elim (Bool-cases (le x y)) [
    | inl e ↦ rw e at a
    | inr e ↦
        let split : (P y × All P (insert_by le x ys)) = (rw e at a) in
        let (px, rest) = All-uninsert le x ys split.1 in (px, (split.0, rest))
  ]

  All-unsort : (le : A → A → Bool) (xs : List A) → All P (sort_by le xs) → All P xs
  All-unsort le [] a = tt
  All-unsort le (x ∷ xs) a =
      let (px, rest) = All-uninsert le x (sort_by le xs) a in (px, All-unsort le xs rest)

  All-unfilter : (q : A → Bool) (xs : List A) → All P (filter q xs) → All (λ x. q x ≡ true → P x) xs
  All-unfilter q [] a = tt
  All-unfilter q (x ∷ xs) a = elim (Bool-cases (q x)) [
    | inl e ↦
        let split : (P x × All P (filter q xs)) = (rw e at a) in
        (λ h. split.0, All-unfilter q xs split.1)
    | inr e ↦ (λ h. cc, All-unfilter q xs (rw e at a))
  ]

-- The first row has the least number.
module _ {ℓ} {A : Type ℓ} (f : A → ℕ) where
  abbrev pub Least : List A → Type 0
  Least [] = Unit {0}
  Least (x ∷ xs) = All (λ y. f x ≤ f y) xs

-- Where the order refines a number, its first row has the least.
module _ {ℓ} {A : Type ℓ} (f : A → ℕ) (le : A → A → Bool)
    (refines : (a b : A) → (le a b ≡ true → f a ≤ f b) × (le a b ≡ false → f b ≤ f a)) where
  Least-insert_by : (x : A) (ys : List A) → Least f ys → Least f (insert_by le x ys)
  Least-insert_by x [] l = tt
  Least-insert_by x (y ∷ ys) l = elim (Bool-cases (le x y)) [
    | inl e ↦
        let h = (refines x y).0 e in
        rw e (h, All-map (λ z. f y ≤ f z) (λ z. f x ≤ f z) (λ z k. omega arith) ys l)
    | inr e ↦ rw e (All-insert_by (λ z. f y ≤ f z) le x ys ((refines x y).1 e) l)
  ]

  pub Least-sort_by : (xs : List A) → Least f (sort_by le xs)
  Least-sort_by [] = tt
  Least-sort_by (x ∷ xs) = Least-insert_by x (sort_by le xs) (Least-sort_by xs)

  first-Least : (xs : List A) (x : A) → first xs ≡ some x → Least f xs → All (λ y. f x ≤ f y) xs
  first-Least [] x e l = tt
  first-Least (y ∷ ys) x e l =
      subst (λ z. All (λ y. f z ≤ f y) (y ∷ ys)) (some-injective y x e) (omega arith, l)

  -- The row that ORDER BY puts first, among those that WHERE chooses.
  pub first-sort_by-Least :
      (p : A → Bool) (xs : List A) (x : A)
      → first (sort_by le (filter p xs)) ≡ some x
      → All (λ y. p y ≡ true → f x ≤ f y) xs
  first-sort_by-Least p xs x e =
      All-unfilter (λ y. f x ≤ f y) p xs
        (All-unsort (λ y. f x ≤ f y) le (filter p xs)
          (first-Least (sort_by le (filter p xs)) x e (Least-sort_by (filter p xs))))
