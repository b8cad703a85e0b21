-- ===== src/Cache/Eviction.antt =====
-- The LRU of hashicorp/golang-lru that backend/cache/cache.go uses, as an interface: its methods, and
-- what their documentation says. A bounded LRU may evict any other entry when one is added.
use ts1p.Prelude.{
  ℕ, ◌≡◌, sym, subst, ◌∙◌, ◌⊎◌, inl, inr, false, Bool-cases, Option, none, some, if◌then◌else◌,
  Bytes, bytes_eq, bytes_eq_iff, arith,
}
use mathlib.Core.Option.{some-injective}
use ts1p.Backend.{Record}

-- entry[*backend.Record]: no expiry is the zero time, no value a nil record.
pub record Entry : Type 0 where
  pub val : Option Record
  pub expires : Option ℕ

pub record Lru (L : Type 0) : Type 0 where
  pub get : Bytes → L → Option Entry × L
  pub peek : Bytes → L → Option Entry
  pub add : Bytes → Entry → L → L
  pub remove : Bytes → L → L
  pub purge : L → L

pub record IsLru {L : Type 0} (lru : Lru L) : Type 0 where
  -- Get is Peek, and moves the entry in the order of use.
  pub get_value : (k : Bytes) (l : L) → (lru.get k l).0 ≡ lru.peek k l
  pub peek_get : (j k : Bytes) (l : L) → lru.peek j (lru.get k l).1 ≡ lru.peek j l
  pub peek_add_self : (k : Bytes) (e : Entry) (l : L) → lru.peek k (lru.add k e l) ≡ some e
  pub peek_add_ne :
      (j k : Bytes) (e : Entry) (l : L)
      → bytes_eq k j ≡ false
      → (lru.peek j (lru.add k e l) ≡ lru.peek j l) ⊎ (lru.peek j (lru.add k e l) ≡ none)
  pub peek_remove :
      (j k : Bytes) (l : L)
      → lru.peek j (lru.remove k l) ≡ (if bytes_eq k j then none else lru.peek j l)
  pub peek_purge : (j : Bytes) (l : L) → lru.peek j (lru.purge l) ≡ none

module _ {L : Type 0} (lru : Lru L) (good : IsLru lru) (P : Bytes → Entry → Type 0) (l : L)
    (name : Bytes) where
  -- An entry that is added, and the others but for it.
  pub add-all :
      (e : Entry)
      → ((k : Bytes) (f : Entry) → bytes_eq name k ≡ false → lru.peek k l ≡ some f → P k f)
      → P name e
      → (k : Bytes) (f : Entry) → lru.peek k (lru.add name e l) ≡ some f
      → P k f
  add-all e h p k f q = elim (Bool-cases (bytes_eq name k)) [
    | inl same ↦
        let i : name ≡ k = (bytes_eq_iff name k).0 same in
        let r : e ≡ f = some-injective _ _ (
          sym (good.peek_add_self name e l)
          ∙ subst (λ j. lru.peek j (lru.add name e l) ≡ some f) (sym i) q) in
        subst (λ j. P j f) i (subst (P name) r p)
    | inr other ↦ elim (good.peek_add_ne k name e l other) [
      | inl kept ↦ h k f other (sym kept ∙ q)
      | inr gone ↦ absurd (cc)
    ]
  ]

  pub remove-all :
      ((k : Bytes) (f : Entry) → bytes_eq name k ≡ false → lru.peek k l ≡ some f → P k f)
      → (k : Bytes) (f : Entry) → lru.peek k (lru.remove name l) ≡ some f
      → P k f
  remove-all h k f q = elim (Bool-cases (bytes_eq name k)) [
    | inl same ↦ absurd (ground (arith, good.peek_remove k name l))
    | inr other ↦ h k f other (ground (arith, good.peek_remove k name l))
  ]
