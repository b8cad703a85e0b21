-- ===== src/Prelude/Sorting.antt =====
-- `slices.Sort` and `slices.Sorted`: insertion sort over an order given as an instance.
use Prim.Native.Nat.{ℕ}
use mathlib.Core.Path.{◌≡◌, refl}
use mathlib.Core.Logic.{inl, inr}
use mathlib.Core.Bool.{Bool, true, false, ◌&&◌, ◌||◌}
use mathlib.Core.List.{List, [], ◌∷◌}
use native.Mathlib.Omega.{arith}
use ts1p.Prelude.Tests.{if◌then◌else◌, leb, ltb, eqb, Bool-cases}
use ts1p.Prelude.Lists.{All, All-map}
use ts1p.Prelude.Equality.{Comparable, ◌==◌, Bytes}
use ts1p.Prelude.Maps.{contains}

pub record Ord {ℓ} (A : Type ℓ) : Type ℓ where
  pub le : A → A → Bool
  pub le_total : (a b : A) → le a b ≡ false → le b a ≡ true
  pub le_trans : (a b c : A) → le a b ≡ true → le b c ≡ true → le a c ≡ true

pub leb_total : (a b : ℕ) → leb a b ≡ false → leb b a ≡ true
leb_total a b h = ground arith

pub leb_trans : (a b c : ℕ) → leb a b ≡ true → leb b c ≡ true → leb a c ≡ true
leb_trans a b c h k = ground arith

instance abbrev pub nat_ord : Ord ℕ
nat_ord = record { le = leb; le_total = leb_total; le_trans = leb_trans }

-- The order of Go's strings: by bytes, from the left.
unfoldable pub bytes_le : Bytes → Bytes → Bool
bytes_le [] t = true
bytes_le (a ∷ s) [] = false
bytes_le (a ∷ s) (b ∷ t) = ltb a b || eqb a b && bytes_le s t

pub bytes_le_total : (s t : Bytes) → bytes_le s t ≡ false → bytes_le t s ≡ true
unfolding bytes_le
bytes_le_total [] t h = cc
bytes_le_total (a ∷ s) [] h = refl
bytes_le_total (a ∷ s) (b ∷ t) h = ground (arith, bytes_le_total s t)

pub bytes_le_trans :
    (s t u : Bytes) → bytes_le s t ≡ true → bytes_le t u ≡ true → bytes_le s u ≡ true
unfolding bytes_le
bytes_le_trans [] t u h k = refl
bytes_le_trans (a ∷ s) [] u h k = cc
bytes_le_trans (a ∷ s) (b ∷ t) [] h k = cc
bytes_le_trans (a ∷ s) (b ∷ t) (c ∷ u) h k = ground (arith, bytes_le_trans s t u)

instance abbrev pub bytes_ord : Ord Bytes
bytes_ord = record { le = bytes_le; le_total = bytes_le_total; le_trans = bytes_le_trans }

module _ {ℓ} {A : Type ℓ} ⦃o : Ord A⦄ where
  abbrev pub IsSorted : List A → Type ℓ
  IsSorted [] = Unit
  IsSorted (x ∷ xs) = All (λ y. o.le x y ≡ true) xs × IsSorted xs

  insert : A → List A → List A
  insert x [] = x ∷ []
  insert x (y ∷ ys) = if o.le x y then x ∷ y ∷ ys else y ∷ insert x ys

  unfoldable pub sort : List A → List A
  unfolding insert
  sort [] = []
  sort (x ∷ xs) = insert x (sort xs)

  insert-All {κ} : (P : A → Type κ) (x : A) (xs : List A) → P x → All P xs → All P (insert x xs)
  unfolding insert
  insert-All P x [] p h = (p, tt)
  insert-All P x (y ∷ ys) p h = elim (Bool-cases (o.le x y)) [
    | inl e ↦ rw e (p, h)
    | inr e ↦ rw e (h.0, insert-All P x ys p h.1)
  ]

  insert-IsSorted : (x : A) (xs : List A) → IsSorted xs → IsSorted (insert x xs)
  unfolding insert
  insert-IsSorted x [] h = (tt, tt)
  insert-IsSorted x (y ∷ ys) h = elim (Bool-cases (o.le x y)) [
    | inl e ↦ rw e ((e, All-map (λ z. o.le_trans x y z e) ys h.0), h)
    | inr e ↦
        rw e
          (insert-All (λ z. o.le y z ≡ true) x ys (o.le_total x y e) h.0, insert-IsSorted x ys h.1)
  ]

  pub sort-IsSorted : (xs : List A) → IsSorted (sort xs)
  unfolding sort
  sort-IsSorted [] = tt
  sort-IsSorted (x ∷ xs) = insert-IsSorted x (sort xs) (sort-IsSorted xs)

  pub sort-All {κ} : (P : A → Type κ) (xs : List A) → All P xs → All P (sort xs)
  unfolding sort
  sort-All P [] h = tt
  sort-All P (x ∷ xs) h = insert-All P x (sort xs) h.0 (sort-All P xs h.1)

  module _ ⦃e : Comparable A⦄ where
    contains-insert : (a x : A) (xs : List A) → contains a (insert x xs) ≡ (x == a || contains a xs)
    unfolding insert contains
    contains-insert a x [] = refl
    contains-insert a x (y ∷ ys) = ground (arith, contains-insert a x ys)

    -- Sorting loses no element and adds none.
    pub contains-sort : (a : A) (xs : List A) → contains a (sort xs) ≡ contains a xs
    unfolding sort contains
    contains-sort a [] = refl
    contains-sort a (x ∷ xs) = ground (arith, contains-insert a x (sort xs), contains-sort a xs)
