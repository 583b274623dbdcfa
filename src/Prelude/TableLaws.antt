-- ===== src/Prelude/TableLaws.antt =====
-- Laws of the queries: what a count sees of an insert, an update of one row, or a filter.
use Prim.Native.Nat.{ℕ, ◌+◌, ◌≤◌, ◌<◌}
use i_dolly_backend.Prelude.Table.{length, find, filter, count, any, update, delete, All}
use i_dolly_backend.Prelude.Tests.{if◌then◌else◌, bit, ◌==◌, Bool-cases}
use mathlib.Core.Bool.{Bool, true, false, not, ◌&&◌}
use mathlib.Core.List.{List, [], ◌∷◌, ◌++◌}
use mathlib.Core.Logic.{◌⊎◌, inl, inr}
use mathlib.Core.Option
use mathlib.Core.Option.{none, some, some-injective}
use mathlib.Core.Path.{◌≡◌, refl, subst}
use native.Mathlib.Omega.{arith}

module _ {ℓ} {A : Type ℓ} where
  pub count-append : (p : A → Bool) (xs ys : List A) → count p (xs ++ ys) ≡ count p xs + count p ys
  count-append p [] ys = omega arith
  count-append p (x ∷ xs) ys = omega (arith, count-append p xs ys)

  pub length-append : (xs ys : List A) → length (xs ++ ys) ≡ length xs + length ys
  length-append [] ys = omega arith
  length-append (x ∷ xs) ys = omega (arith, length-append xs ys)

  pub count-le-length : (p : A → Bool) (xs : List A) → count p xs ≤ length xs
  count-le-length p [] = omega arith
  count-le-length p (x ∷ xs) = ground (arith, count-le-length p xs)

  -- The row that `find` returns passes the test.
  pub find_passes : (p : A → Bool) (xs : List A) {x : A} → find p xs ≡ some x → p x ≡ true
  find_passes p [] h = cc
  find_passes p (y ∷ xs) {x} h = elim (Bool-cases (p y)) [
    | inl e ↦ ground (arith, e)
    | inr e ↦ find_passes p xs (ground (arith, e))
  ]

  pub All-find :
      (P : A → Type 0) (p : A → Bool) (xs : List A) {x : A} → All P xs → find p xs ≡ some x → P x
  All-find P p [] h e = cc
  All-find P p (y ∷ xs) {x} h e = step (p y) refl (All-find P p xs h.1)
    where
      step : (b : Bool) → p y ≡ b → (find p xs ≡ some x → P x) → P x
      step true t later = subst P (some-injective y x (rw t at e)) h.0
      step false t later = later (rw t at e)

  pub count_zero_of_find : (p : A → Bool) (xs : List A) → find p xs ≡ none → count p xs ≡ 0
  count_zero_of_find p [] h = refl
  count_zero_of_find p (x ∷ xs) h = ground (arith, count_zero_of_find p xs)

  pub any-eq_false : (p : A → Bool) (xs : List A) → any p xs ≡ false → count p xs ≡ 0
  any-eq_false p [] h = refl
  any-eq_false p (x ∷ xs) h = ground (arith, any-eq_false p xs)

  -- Where the test names no row, an update changes nothing.
  pub update_none : (p : A → Bool) (f : A → A) (xs : List A) → count p xs ≡ 0 → update p f xs ≡ xs
  update_none p f [] h = refl
  update_none p f (x ∷ xs) h = ground (arith, update_none p f xs)

  pub delete_none : (p : A → Bool) (xs : List A) → count p xs ≡ 0 → delete p xs ≡ xs
  delete_none p [] h = refl
  delete_none p (x ∷ xs) h = ground (arith, delete_none p xs)

  -- Where the test names one row, a count moves by what that row counted before and after.
  pub count-update :
      (q p : A → Bool) (f : A → A) (xs : List A) {x : A}
      → find p xs ≡ some x
      → count p xs ≤ 1
      → count q (update p f xs) + bit (q x) ≡ count q xs + bit (q (f x))
  count-update q p f [] h u = cc
  count-update q p f (y ∷ xs) {x} h u = elim (Bool-cases (p y)) [
    | inl t ↦ ground (arith, t, update_none p f xs)
    | inr t ↦ ground (arith, t, count-update q p f xs {x = x})
  ]

  -- A count that an update does not touch.
  pub count-update_same :
      (q p : A → Bool) (f : A → A) (xs : List A)
      → ((x : A) → q (f x) ≡ q x)
      → count q (update p f xs) ≡ count q xs
  count-update_same q p f [] h = refl
  count-update_same q p f (x ∷ xs) h = ground (arith, count-update_same q p f xs h, h x)

  pub count-filter :
      (q p : A → Bool) (xs : List A) → count q (filter p xs) ≡ count (λ x. p x && q x) xs
  count-filter q p [] = refl
  count-filter q p (x ∷ xs) = ground (arith, count-filter q p xs)

  pub count_mono :
      (q p : A → Bool) (xs : List A) → ((x : A) → q x ≡ true → p x ≡ true) → count q xs ≤ count p xs
  count_mono q p [] h = omega arith
  count_mono q p (x ∷ xs) h = ground (arith, count_mono q p xs h, h x)

  pub All-update :
      (P Q : A → Type 0) (p : A → Bool) (f : A → A) (xs : List A)
      → ((x : A) → p x ≡ true → P x → Q (f x))
      → ((x : A) → p x ≡ false → P x → Q x)
      → All P xs
      → All Q (update p f xs)
  All-update P Q p f [] hit miss h = tt
  All-update P Q p f (x ∷ xs) hit miss h = (step (p x) refl, All-update P Q p f xs hit miss h.1)
    where
      step : (b : Bool) → p x ≡ b → Q (if p x then f x else x)
      step true e = rw e (hit x e h.0)
      step false e = rw e (miss x e h.0)

  pub All-map : (P Q : A → Type 0) (xs : List A) → ((x : A) → P x → Q x) → All P xs → All Q xs
  All-map P Q [] f h = tt
  All-map P Q (x ∷ xs) f h = (f x h.0, All-map P Q xs f h.1)

  pub All-append : (P : A → Type 0) (xs ys : List A) → All P xs → All P ys → All P (xs ++ ys)
  All-append P [] ys h k = k
  All-append P (x ∷ xs) ys h k = (h.0, All-append P xs ys h.1 k)

  pub count-none : (p : A → Bool) (xs : List A) → ((x : A) → p x ≡ false) → count p xs ≡ 0
  count-none p [] h = refl
  count-none p (x ∷ xs) h = ground (arith, count-none p xs h, h x)

  -- A count after an update is no larger, if what it counts then was counted before.
  pub count-update-le :
      (q' q p : A → Bool) (f : A → A) (xs : List A)
      → ((x : A) → q' (f x) ≡ true → q x ≡ true)
      → ((x : A) → q' x ≡ true → q x ≡ true)
      → count q' (update p f xs) ≤ count q xs
  count-update-le q' q p f [] changed same = omega arith
  count-update-le q' q p f (x ∷ xs) changed same =
      ground (arith, count-update-le q' q p f xs changed same, changed x, same x)

  -- A test that no row passes, or a row that passes it.
  pub count-cases :
      (q : A → Bool) (key : A → ℕ) (xs : List A)
      → (count q xs ≡ 0) ⊎ ((x : A) × (q x ≡ true) × (0 < count (λ y. q y && key y == key x) xs))
  count-cases q key [] = inl refl
  count-cases q key (x ∷ xs) = elim (Bool-cases (q x)) [
    | inl e ↦ inr (x, e, ground (arith, e))
    | inr e ↦ elim (count-cases q key xs) [
      | inl z ↦ inl (ground (arith, e, z))
      | inr (y, t, c) ↦ inr (y, t, ground (arith, c, e))
    ]
  ]

  pub count_pos-any : (p : A → Bool) (xs : List A) → 0 < count p xs → any p xs ≡ true
  count_pos-any p [] h = absurd (omega arith)
  count_pos-any p (x ∷ xs) h = ground (arith, count_pos-any p xs)

  pub count-not : (p : A → Bool) (xs : List A) → count p xs + count (λ x. not (p x)) xs ≡ length xs
  count-not p [] = refl
  count-not p (x ∷ xs) = ground (arith, count-not p xs)

  pub length-filter : (p : A → Bool) (xs : List A) → length (filter p xs) ≡ count p xs
  length-filter p [] = refl
  length-filter p (x ∷ xs) = ground (arith, length-filter p xs)

  pub count-split :
      (p q : A → Bool) (xs : List A)
      → count (λ x. p x && q x) xs + count (λ x. p x && not (q x)) xs ≡ count p xs
  count-split p q [] = refl
  count-split p q (x ∷ xs) = ground (arith, count-split p q xs)

  -- A row that is found after an update is the row that was found before, updated.
  pub find-update_same :
      (q p : A → Bool) (f : A → A) (xs : List A)
      → ((x : A) → q (f x) ≡ q x)
      → find q (update p f xs) ≡ Option.map (λ x. if p x then f x else x) (find q xs)
  find-update_same q p f [] h = refl
  find-update_same q p f (x ∷ xs) h = ground (arith, find-update_same q p f xs h, h x)

  pub count-delete-le : (q p : A → Bool) (xs : List A) → count q (delete p xs) ≤ count q xs
  count-delete-le q p [] = omega arith
  count-delete-le q p (x ∷ xs) = ground (arith, count-delete-le q p xs)

  pub find-delete-none :
      (q p : A → Bool) (xs : List A) → find q xs ≡ none → find q (delete p xs) ≡ none
  find-delete-none q p [] f = refl
  find-delete-none q p (y ∷ xs) f = ground (arith, f, find-delete-none q p xs)

  pub find-none_of_count : (q : A → Bool) (xs : List A) → count q xs ≡ 0 → find q xs ≡ none
  find-none_of_count q [] h = refl
  find-none_of_count q (x ∷ xs) h = ground (arith, h, find-none_of_count q xs)

  -- Of a row that stands alone, a DELETE leaves it or nothing.
  pub find-delete :
      (q p : A → Bool) (xs : List A) {x : A}
      → count q xs ≤ 1
      → find q xs ≡ some x
      → find q (delete p xs) ≡ (if p x then none else some x)
  find-delete q p [] {x} h f = cc
  find-delete q p (y ∷ xs) {x} h f = elim (Bool-cases (q y)) [
    | inl here ↦ ground (arith, h, f, here, find-delete-none q p xs, find-none_of_count q xs)
    | inr there ↦ ground (arith, h, f, there, find-delete q p xs {x = x})
  ]
