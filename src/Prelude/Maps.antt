-- ===== src/Prelude/Maps.antt =====
-- Go's maps as association lists. A write to a key that is there replaces its entry, so that a map
-- made from the empty one by writes and deletions has each key once (`Distinct`).
use mathlib.Core.Path.{◌≡◌, refl}
use mathlib.Core.Bool.{Bool, true, false, ◌||◌}
use mathlib.Core.List.{List, [], ◌∷◌}
use mathlib.Core.Option.{Option, none, some}
use native.Mathlib.Omega.{arith}
use ts1p.Prelude.Tests.{if◌then◌else◌, is_some}
use ts1p.Prelude.Equality.{Comparable, ◌==◌}

abbrev pub Map {ℓ} : Type ℓ → Type ℓ → Type ℓ
Map K V = List (K × V)

module _ {ℓ} {K V : Type ℓ} where
  unfoldable pub keys : Map K V → List K
  keys [] = []
  keys ((k, v) ∷ m) = k ∷ keys m

module _ {ℓ} {K : Type ℓ} ⦃e : Comparable K⦄ where
  pub eq_refl : (k : K) → (k == k) ≡ true
  eq_refl k = (e.test_iff k k).1 refl

  -- slices.Contains
  unfoldable pub contains : K → List K → Bool
  contains k [] = false
  contains k (j ∷ xs) = j == k || contains k xs

module _ {ℓ} {K V : Type ℓ} ⦃e : Comparable K⦄ where
  -- v, ok := m[k]
  unfoldable pub lookup : K → Map K V → Option V
  lookup k [] = none
  lookup k ((j, v) ∷ m) = if j == k then some v else lookup k m

  -- _, ok := m[k]
  abbrev pub has_key : K → Map K V → Bool
  has_key k m = is_some (lookup k m)

  -- m[k] = v
  unfoldable pub put : K → V → Map K V → Map K V
  put k v [] = (k, v) ∷ []
  put k v ((j, w) ∷ m) = if j == k then (k, v) ∷ m else (j, w) ∷ put k v m

  -- delete(m, k)
  unfoldable pub delete : K → Map K V → Map K V
  delete k [] = []
  delete k ((j, v) ∷ m) = let rest = delete k m in if j == k then rest else (j, v) ∷ rest

  abbrev pub Distinct : Map K V → Type ℓ
  Distinct [] = Unit
  Distinct ((k, v) ∷ m) = (has_key k m ≡ false) × Distinct m

  pub lookup-put :
      (k j : K) (v : V) (m : Map K V)
      → lookup j (put k v m) ≡ (if k == j then some v else lookup j m)
  unfolding lookup put
  lookup-put k j v [] = refl
  lookup-put k j v ((i, w) ∷ m) =
      ground (arith, e.test_iff k j, e.test_iff i k, e.test_iff i j, lookup-put k j v m)

  pub lookup-put_self : (k : K) (v : V) (m : Map K V) → lookup k (put k v m) ≡ some v
  lookup-put_self k v m = rw (lookup-put, eq_refl k)

  pub lookup-delete :
      (k j : K) (m : Map K V) → lookup j (delete k m) ≡ (if k == j then none else lookup j m)
  unfolding lookup delete
  lookup-delete k j [] = ground arith
  lookup-delete k j ((i, w) ∷ m) =
      ground (arith, e.test_iff k j, e.test_iff i k, e.test_iff i j, lookup-delete k j m)

  pub put-Distinct : (k : K) (v : V) (m : Map K V) → Distinct m → Distinct (put k v m)
  unfolding put lookup
  put-Distinct k v [] h = ground arith
  put-Distinct k v ((i, w) ∷ m) h =
      ground (arith, e.test_iff i k, e.test_iff k i, lookup-put k i v m, put-Distinct k v m h.1)

  pub delete-Distinct : (k : K) (m : Map K V) → Distinct m → Distinct (delete k m)
  unfolding delete lookup
  delete-Distinct k [] h = ground arith
  delete-Distinct k ((i, w) ∷ m) h =
      ground (arith, e.test_iff i k, e.test_iff k i, lookup-delete k i m, delete-Distinct k m h.1)

  pub contains-keys : (k : K) (m : Map K V) → contains k (keys m) ≡ has_key k m
  unfolding contains keys lookup
  contains-keys k [] = refl
  contains-keys k ((j, v) ∷ m) = ground (arith, contains-keys k m)
