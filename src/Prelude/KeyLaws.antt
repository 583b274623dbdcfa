-- ===== src/Prelude/KeyLaws.antt =====
-- Rows looked up by a key: what an update, an insert or a filter does to the row of each key.
use Prim.Native.Nat.{ℕ}
use i_dolly_backend.Prelude.Table.{count, find, update}
use i_dolly_backend.Prelude.Tests.{if◌then◌else◌, ◌==◌, ==_refl, ==→eq, Bool-cases}
use mathlib.Core.Bool.{Bool, true, false}
use mathlib.Core.Logic.{inl, inr}
use mathlib.Core.List.{List, [], ◌∷◌, ◌++◌}
use mathlib.Core.Option
use mathlib.Core.Option.{Option, none, some, some-injective}
use mathlib.Core.Path.{◌≡◌, refl}
use native.Mathlib.Omega.{arith}

module _ {ℓ} {A : Type ℓ} (key : A → ℕ) where
  pub key-find : (k : ℕ) (xs : List A) {x : A} → find (λ y. key y == k) xs ≡ some x → key x ≡ k
  key-find k [] h = cc
  key-find k (y ∷ xs) {x} h = ground (arith, key-find k xs {x = x})

  -- An update of the rows with key `j` by a function that keeps the key.
  pub find-update :
      (j k : ℕ) (f : A → A) (xs : List A)
      → ((x : A) → key (f x) ≡ key x)
      → find (λ x. key x == k) (update (λ x. key x == j) f xs)
        ≡ (if j == k then Option.map f (find (λ x. key x == k) xs) else find (λ x. key x == k) xs)
  find-update j k f [] h = ground arith
  find-update j k f (x ∷ xs) h = ground (arith, find-update j k f xs h, h x)

  pub find-append :
      (k : ℕ) (xs ys : List A)
      → find (λ x. key x == k) xs ≡ none
      → find (λ x. key x == k) (xs ++ ys) ≡ find (λ x. key x == k) ys
  find-append k [] ys h = refl
  find-append k (x ∷ xs) ys h = ground (arith, find-append k xs ys)

  pub find-append_some :
      (k : ℕ) (xs ys : List A) {x : A}
      → find (λ x. key x == k) xs ≡ some x
      → find (λ x. key x == k) (xs ++ ys) ≡ some x
  find-append_some k [] ys h = cc
  find-append_some k (y ∷ xs) ys {x} h = ground (arith, find-append_some k xs ys {x = x})

  -- An update that puts `y` in the place of the rows with its key.
  pub find-put :
      (y : A) (xs : List A) {x : A}
      → find (λ z. key z == key y) xs ≡ some x
      → find (λ z. key z == key y) (update (λ z. key z == key y) (λ _. y) xs) ≡ some y
  find-put y [] h = cc
  find-put y (z ∷ xs) {x} h = elim (Bool-cases (key z == key y)) [
    | inl own ↦ ground (arith, own, ==_refl (key y))
    | inr other ↦ ground (arith, other, find-put y xs {x = x} (ground (arith, h, other)))
  ]

  -- The rows that such an update changes keep their key.
  pub count-put :
      (k : ℕ) (y : A) (xs : List A)
      → count (λ z. key z == k) (update (λ z. key z == key y) (λ _. y) xs)
        ≡ count (λ z. key z == k) xs
  count-put k y [] = refl
  count-put k y (z ∷ xs) = elim (Bool-cases (key z == key y)) [
    | inl own ↦
        let same : key z ≡ key y = ==→eq (key z) (key y) own in
        ground (arith, own, same, count-put k y xs)
    | inr other ↦ ground (arith, other, count-put k y xs)
  ]

  pub find-put_other :
      (k : ℕ) (y : A) (xs : List A)
      → (key y == k) ≡ false
      → find (λ z. key z == k) (update (λ z. key z == key y) (λ _. y) xs)
        ≡ find (λ z. key z == k) xs
  find-put_other k y [] h = refl
  find-put_other k y (z ∷ xs) h = elim (Bool-cases (key z == key y)) [
    | inl own ↦
        let same : key z ≡ key y = ==→eq (key z) (key y) own in
        ground (arith, own, same, h, find-put_other k y xs h)
    | inr other ↦ ground (arith, other, find-put_other k y xs h)
  ]

  -- The first row that passes a test, where the row that is put in its place passes it too.
  pub find-put_same :
      (q : A → Bool) (y : A) (xs : List A) {x : A}
      → find q xs ≡ some x
      → key x ≡ key y
      → q y ≡ true
      → find q (update (λ z. key z == key y) (λ _. y) xs) ≡ some y
  find-put_same q y [] h e t = cc
  find-put_same q y (z ∷ xs) {x} h e t = elim (Bool-cases (key z == key y)) [
    | inl own ↦ ground (arith, own, t)
    | inr other ↦ elim (Bool-cases (q z)) [
      | inl first ↦
          let same : z ≡ x = some-injective z x (rw first at h) in
          absurd (ground (arith, other, e, same, ==_refl (key y)))
      | inr later ↦
          ground (arith, other, later, find-put_same q y xs {x = x} (ground (arith, h, later)) e t)
    ]
  ]
