-- ===== src/Backend/Records.antt =====
-- backend/backend.go: the record of a secret and the request context, as far as backends read it.
use ts1p.Prelude.{
  ℕ, ◌≡◌, refl, ap, Bool, true, false, Option, none, some, [], ◌∷◌, if◌then◌else◌, Bytes, nat_eq,
  Map, has_key,
}

-- Record. A nil `Deleted` is `none`. A nil `Versions` reads as the empty map; the code never
-- writes to one, since every record that it changes was made or decoded with a map there.
pub record Record : Type 0 where
  pub name : Bytes
  pub versions : Map ℕ Bytes
  pub active : ℕ
  pub latest : ℕ
  pub deleted : Option (Map ℕ (Unit {0}))

-- Reading a nil map is reading an empty one.
abbrev pub deleted_set : Record → Map ℕ (Unit {0})
deleted_set r = elim r.deleted [ none ↦ [] | some m ↦ m ]

unfoldable pub is_claimed : Record → ℕ → Bool
is_claimed r v = if has_key v r.versions then true else has_key v (deleted_set r)

-- slices.Clone
clone_bytes : Bytes → Bytes
clone_bytes [] = []
clone_bytes (b ∷ s) = b ∷ clone_bytes s

-- The loop over `r.Versions`, whose keys differ, so that each write adds an entry.
clone_versions : Map ℕ Bytes → Map ℕ Bytes
unfolding clone_bytes
clone_versions [] = []
clone_versions ((ver, val) ∷ m) = (ver, clone_bytes val) ∷ clone_versions m

-- maps.Clone
clone_set : Map ℕ (Unit {0}) → Map ℕ (Unit {0})
clone_set [] = []
clone_set ((v, u) ∷ m) = (v, u) ∷ clone_set m

unfoldable pub clone : Record → Record
unfolding clone_versions clone_set
clone r = record {
  name = r.name;
  versions = clone_versions r.versions;
  active = r.active;
  latest = r.latest;
  deleted = elim r.deleted [ none ↦ none | some m ↦ some (clone_set m) ];
}

-- The context of a call: `force` is the `WithForceRefresh` hint, `gone` tells that the caller has
-- disconnected.
pub record Context : Type 0 where
  pub force : Bool
  pub gone : Bool

unfoldable pub with_force_refresh : Context → Context
with_force_refresh ctx = record ctx { force = true }

unfoldable pub force_refresh : Context → Bool
force_refresh ctx = ctx.force

-- context.WithoutCancel keeps the values and drops the cancellation.
unfoldable pub without_cancel : Context → Context
without_cancel ctx = record ctx { gone = false }

clone_bytes-id : (s : Bytes) → clone_bytes s ≡ s
unfolding clone_bytes
clone_bytes-id [] = refl
clone_bytes-id (b ∷ s) = ap (◌∷◌ b) (clone_bytes-id s)

clone_versions-id : (m : Map ℕ Bytes) → clone_versions m ≡ m
unfolding clone_versions
clone_versions-id [] = refl
clone_versions-id ((ver, val) ∷ m) = rw (clone_versions-id m, clone_bytes-id val)

clone_set-id : (m : Map ℕ (Unit {0})) → clone_set m ≡ m
unfolding clone_set
clone_set-id [] = refl
clone_set-id ((v, u) ∷ m) = rw (clone_set-id m)

clone_deleted-id :
    (d : Option (Map ℕ (Unit {0}))) → elim d [ none ↦ none | some m ↦ some (clone_set m) ] ≡ d
clone_deleted-id none = refl
clone_deleted-id (some m) = rw (clone_set-id m)

-- A copy holds the same data.
pub clone-id : (r : Record) → clone r ≡ r
unfolding clone
clone-id r = λ i. record r {
  versions = clone_versions-id r.versions i;
  deleted = clone_deleted-id r.deleted i;
}
