-- ===== src/Backend/Equality.antt =====
-- backend/backend.go: Equal, with maps.EqualFunc and maps.Equal as they are documented: maps of one length
-- are equal if each entry of the first is one of the second.
use ts1p.Prelude.{
  ℕ, suc, ◌≡◌, refl, sym, ap, ◌∙◌, ◌↔◌, Bool, true, false, not, ◌&&◌, ◌||◌, Option, none, some, [],
  ◌∷◌, if◌then◌else◌, eqb, is_some, bytes_eq, bytes_eq_iff, bytes_eq_eq, nat_eq, Map, lookup,
  has_key, delete, Distinct, length, lookup-delete, delete-Distinct, arith,
}
use ts1p.Backend.Records.{Record, deleted_set}

module _ {V : Type 0} (eq : V → V → Bool) where
  -- Whether `v` is what the map holds.
  holds : V → Option V → Bool
  holds v none = false
  holds v (some w) = eq v w

  -- Each entry of the first map is in the second.
  within : Map ℕ V → Map ℕ V → Bool
  unfolding holds
  within [] m = true
  within ((k, v) ∷ l) m = let rest = within l m in if holds v (lookup k m) then rest else false

  unfoldable pub maps_equal : Map ℕ V → Map ℕ V → Bool
  unfolding within
  maps_equal l m = eqb (length l) (length m) && within l m

unfoldable pub equal : Record → Record → Bool
equal r o =
    if not (bytes_eq r.name o.name) || not (eqb r.active o.active) || not (eqb r.latest o.latest)
    then false
    else if not (maps_equal bytes_eq r.versions o.versions)
    then false
    else maps_equal (λ u v. true) (deleted_set r) (deleted_set o)

module _ {V : Type 0} where
  delete-absent : (k : ℕ) (m : Map ℕ V) → has_key k m ≡ false → length (delete k m) ≡ length m
  unfolding lookup delete
  delete-absent k [] h = refl
  delete-absent k ((j, v) ∷ m) h = ground (arith, delete-absent k m)

  -- Without one of its keys, a map is shorter by one.
  length-delete :
      (k : ℕ) (m : Map ℕ V) → Distinct m → has_key k m ≡ true → suc (length (delete k m)) ≡ length m
  unfolding lookup delete
  length-delete k [] d h = absurd (cc)
  length-delete k ((j, v) ∷ m) (new, d) h = ground (arith, delete-absent j m, length-delete k m d)

  lookup-head : (k : ℕ) (v : V) (l : Map ℕ V) → lookup k ((k, v) ∷ l) ≡ some v
  unfolding lookup
  lookup-head k v l = ground arith

  -- The rest of the entries, if the first of a map is what another has.
  lookup-rest :
      (k : ℕ) (v : V) (l m : Map ℕ V)
      → has_key k l ≡ false
      → ((j : ℕ) → lookup j ((k, v) ∷ l) ≡ lookup j m)
      → (j : ℕ) → lookup j l ≡ lookup j (delete k m)
  unfolding lookup
  lookup-rest k v l m new h j = ground (arith, lookup-delete k j m, h j, new)

  module _ (eq : V → V → Bool) (eq_iff : (u v : V) → (eq u v ≡ true) ↔ (u ≡ v)) where
    within-delete :
        (k : ℕ) (l m : Map ℕ V) → has_key k l ≡ false → within eq l (delete k m) ≡ within eq l m
    unfolding within lookup
    within-delete k [] m h = refl
    within-delete k ((j, v) ∷ l) m h =
        let same : lookup j (delete k m) ≡ lookup j m = ground (arith, lookup-delete k j m, h) in
        let rest : within eq l (delete k m) ≡ within eq l m =
          within-delete k l m (ground (arith, h)) in
        rw (same, rest) refl

    holds_lem : (v : V) (o : Option V) → holds eq v o ≡ true → o ≡ some v
    unfolding holds
    holds_lem v none h = absurd (cc)
    holds_lem v (some w) h = ap some (sym ((eq_iff v w).0 h))

    within-lookup :
        (l m : Map ℕ V)
        → Distinct l
        → Distinct m
        → length l ≡ length m
        → within eq l m ≡ true
        → (j : ℕ) → lookup j l ≡ lookup j m
    unfolding within lookup
    within-lookup [] [] d e n h j = refl
    within-lookup [] (p ∷ m) d e n h j = absurd (omega (arith, n))
    within-lookup ((k, v) ∷ l) m (new, d) e n h j =
        let there : lookup k m ≡ some v = holds_lem v (lookup k m) (ground (arith, h)) in
        let rest : within eq l m ≡ true = ground (arith, h) in
        let shorter : length l ≡ length (delete k m) =
          omega (arith, n, length-delete k m e (ap is_some there)) in
        let same =
          within-lookup l (delete k m) d (delete-Distinct k m e) shorter
            (within-delete k l m new ∙ rest) j in
        ground (arith, same, lookup-delete k j m, there)

    lookup-within :
        (l m : Map ℕ V)
        → Distinct l
        → Distinct m
        → ((j : ℕ) → lookup j l ≡ lookup j m)
        → (length l ≡ length m) × (within eq l m ≡ true)
    unfolding within lookup holds
    lookup-within [] [] d e h = (refl, refl)
    lookup-within [] ((k, v) ∷ m) d e h = absurd (cc (h k, lookup-head k v m))
    lookup-within ((k, v) ∷ l) m (new, d) e h =
        let there : lookup k m ≡ some v = sym (h k) ∙ lookup-head k v l in
        let (shorter, inside) =
          lookup-within l (delete k m) d (delete-Distinct k m e) (lookup-rest k v l m new h) in
        let itself : eq v v ≡ true = (eq_iff v v).1 refl in
        (
          omega (arith, shorter, length-delete k m e (ap is_some there)),
          rw (there, itself) (sym (within-delete k l m new) ∙ inside),
        )

    maps_equal_iff :
        (l m : Map ℕ V)
        → Distinct l
        → Distinct m
        → (maps_equal eq l m ≡ true) ↔ ((j : ℕ) → lookup j l ≡ lookup j m)
    unfolding maps_equal
    maps_equal_iff l m d e = (
      λ h. within-lookup l m d e (ground (arith, h)) (ground (arith, h)),
      λ h. let (n, w) = lookup-within l m d e h in ground (arith, n, w),
    )

-- Two records with the same data: of the maps, what their lookups tell.
pub record SameData (r o : Record) : Type 0 where
  pub name : r.name ≡ o.name
  pub active : r.active ≡ o.active
  pub latest : r.latest ≡ o.latest
  pub versions : (v : ℕ) → lookup v r.versions ≡ lookup v o.versions
  pub deleted : (v : ℕ) → lookup v (deleted_set r) ≡ lookup v (deleted_set o)

-- Equal holds of two records exactly if their names, active and latest versions are the same, and so is
-- what is held for every version and which versions are deleted, however the maps are ordered and
-- whether an empty set of deleted versions is nil. Their maps have each key once.
pub equal_iff :
    (r o : Record)
    → Distinct r.versions
    → Distinct o.versions
    → Distinct (deleted_set r)
    → Distinct (deleted_set o)
    → (equal r o ≡ true) ↔ SameData r o
unfolding equal
equal_iff r o a b c d = (
  λ h. record {
    name = (bytes_eq_iff r.name o.name).0 (ground (arith, h));
    active = ground (arith, h);
    latest = ground (arith, h);
    versions = versions_iff.0 (ground (arith, h));
    deleted = deleted_iff.0 (ground (arith, h));
  },
  λ s.
      let named : bytes_eq r.name o.name ≡ true = (bytes_eq_iff r.name o.name).1 s.name in
      ground (arith, named, s.active, s.latest, versions_iff.1 s.versions, deleted_iff.1 s.deleted),
)
  where
    versions_iff :
        (maps_equal bytes_eq r.versions o.versions ≡ true)
        ↔ ((v : ℕ) → lookup v r.versions ≡ lookup v o.versions)
    versions_iff = maps_equal_iff bytes_eq bytes_eq_iff r.versions o.versions a b

    deleted_iff :
        (maps_equal (λ u v. true) (deleted_set r) (deleted_set o) ≡ true)
        ↔ ((v : ℕ) → lookup v (deleted_set r) ≡ lookup v (deleted_set o))
    deleted_iff =
        maps_equal_iff (λ u v. true) (λ u v. (λ h. refl, λ h. refl)) (deleted_set r) (deleted_set o)
          c d
