-- ===== src/Backend/Examples.antt =====
-- backend/backend.go: two records with the same versions in another order; one has an empty set of deleted
-- versions, the other none.
use ts1p.Prelude.{◌≡◌, refl, ◌↔◌, true, none, some, [], ◌∷◌, nat_eq, text, lookup}
use ts1p.Backend.Records.{Record}
use ts1p.Backend.Equality.{equal, SameData, equal_iff}

abbrev one : Record
one = record {
  name = text "db";
  versions = (1, text "a") ∷ (2, text "b") ∷ [];
  active = 2;
  latest = 2;
  deleted = none;
}

abbrev other : Record
other = record one { versions = (2, text "b") ∷ (1, text "a") ∷ []; deleted = some [] }

equal_iff_example : (equal one other ≡ true) ↔ SameData one other
unfolding lookup
equal_iff_example = equal_iff one other (refl, (refl, tt)) (refl, (refl, tt)) tt tt
