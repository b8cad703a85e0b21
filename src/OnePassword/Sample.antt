-- ===== src/OnePassword/Sample.antt =====
-- A vault in memory with the interface of the items API, for tests: an item's ID is its title, and a title
-- that was used once is refused. An entry whose fields are gone is that of a deleted item.
pub mod Law
pub mod Codec
use ts1p.Prelude.{
  ◌≡◌, refl, sym, ap, ◌∙◌, ◌⊎◌, inl, inr, Bool, true, false, Bool-cases, Option, none, some,
  Option-cases, List, [], ◌∷◌, ◌++◌, if◌then◌else◌, is_some, Bytes, bytes_eq, bytes_eq_iff,
  bytes_eq_refl, bytes_eq_eq, text, Map, lookup, has_key, put, Distinct, contains, lookup-put,
  put-Distinct, arith,
}
use ts1p.Errors.{Error, opaque, Result, ok, err}
use ts1p.Exec.{Exec}
use ts1p.Backend.{Context}
use ts1p.OnePassword.{Items, overview_titles}
use ts1p.OnePassword.Titles.{Overview}
use ts1p.OnePassword.Fields.{ItemField, Item}
use ts1p.OnePassword.Vault.{IsVault, IsListing, Foreign, drop, created}

abbrev pub Vault : Type 0
Vault = Map Bytes (Option (List ItemField))

item_of : Bytes → Option (Option (List ItemField)) → Option Item
item_of k none = none
item_of k (some none) = none
item_of k (some (some fields)) = some (created k k fields)

item_at : Vault → Bytes → Option Item
unfolding item_of
item_at v k = item_of k (lookup k v)

abbrev pub absent : Error
absent = opaque (text "item not found")

overviews : Vault → List Overview
overviews [] = []
overviews ((k, none) ∷ v) = overviews v
overviews ((k, some fields) ∷ v) = record { title = k; id = k } ∷ overviews v

abbrev answered : Vault → Option Item → Result Item × Vault
answered v none = (err absent, v)
answered v (some item) = (ok item, v)

abbrev replaced : Item → Vault → Option Item → Result (Unit {0}) × Vault
replaced item v none = (err absent, v)
replaced item v (some old) = (ok tt, put item.id (some item.fields) v)

abbrev dropped : Bytes → Vault → Option Item → Result (Unit {0}) × Vault
dropped id v none = (err absent, v)
dropped id v (some old) = (ok tt, put id none v)

abbrev made : Bytes → List ItemField → Vault → Bool → Result Bytes × Vault
made name fields v true = (err (opaque (text "title in use")), v)
made name fields v false = (ok name, put name (some fields) v)

unfoldable pub items : Items Vault
unfolding item_at item_of overviews
items = record {
  list_items = λ ctx v. (ok (overviews v), v);
  get_item = λ ctx id v. answered v (item_at v id);
  put_item = λ ctx item v. replaced item v (item_at v item.id);
  create_item = λ ctx name fields v. made name fields v (has_key name v);
  delete_item = λ ctx id v. dropped id v (item_at v id);
}

absent-Foreign : (m : Bytes) → Foreign (opaque m)
absent-Foreign m = record { no_backend = refl; no_api = refl }

-- An item stands at its title and its ID.
item_of-its :
    (k : Bytes) (o : Option (Option (List ItemField))) (i : Item)
    → item_of k o ≡ some i
    → (i.title ≡ k) × (i.id ≡ k) × (is_some o ≡ true)
unfolding item_of
item_of-its k none i e = absurd (cc)
item_of-its k (some none) i e = absurd (cc)
item_of-its k (some (some fields)) i e = (cc, cc, refl)

item_at-its :
    (v : Vault) (k : Bytes) (i : Item)
    → item_at v k ≡ some i
    → (i.title ≡ k) × (i.id ≡ k) × (has_key k v ≡ true)
unfolding item_at
item_at-its v k i e = item_of-its k (lookup k v) i e

item_at-put :
    (v : Vault) (k j : Bytes) (o : Option (List ItemField))
    → item_at (put k o v) j ≡ (if bytes_eq k j then item_of k (some o) else item_at v j)
unfolding item_at
item_at-put v k j o = elim (Bool-cases (bytes_eq k j)) [
  | inl e ↦ rw (lookup-put, e) (ap (λ l. item_of l (some o)) (sym ((bytes_eq_iff k j).0 e)))
  | inr e ↦ rw (lookup-put, e) refl
]

contains-overviews :
    (v : Vault) (k : Bytes)
    → has_key k v ≡ false
    → contains k (overview_titles (overviews v)) ≡ false
unfolding overviews overview_titles contains lookup
contains-overviews [] k h = refl
contains-overviews ((j, none) ∷ v) k h = contains-overviews v k (ground arith)
contains-overviews ((j, some fields) ∷ v) k h = ground (arith, contains-overviews v k)

unlisted_lem :
    (v : Vault) (k : Bytes)
    → Distinct v
    → item_at v k ≡ none
    → contains k (overview_titles (overviews v)) ≡ false
unfolding overviews overview_titles contains item_at item_of lookup
unlisted_lem [] k d e = refl
unlisted_lem ((j, none) ∷ v) k (new, d) e = elim (Bool-cases (bytes_eq j k)) [
  | inl p ↦ contains-overviews v k (ap (λ l. has_key l v) (sym ((bytes_eq_iff j k).0 p)) ∙ new)
  | inr p ↦ unlisted_lem v k d (ground (arith, e, p))
]
unlisted_lem ((j, some fields) ∷ v) k (new, d) e = elim (Bool-cases (bytes_eq j k)) [
  | inl p ↦ absurd (ground (arith, e, p))
  | inr p ↦ rw p (unlisted_lem v k d (ground (arith, e, p)))
]

Placed : List Overview → Bytes → Item → Type 0
Placed os k item =
    (xs : List Overview) × (ys : List Overview) × (os
      ≡ xs ++ record { title = k; id = item.id } ∷ ys)
    × (contains k (overview_titles xs) ≡ false)
    × (contains k (overview_titles ys) ≡ false)

listed_lem :
    (v : Vault) (k : Bytes) (item : Item)
    → Distinct v
    → item_at v k ≡ some item
    → Placed (overviews v) k item
unfolding Placed overviews overview_titles contains item_at item_of lookup
listed_lem [] k item d e = absurd (cc)
listed_lem ((j, none) ∷ v) k item (new, d) e = elim (Bool-cases (bytes_eq j k)) [
  | inl p ↦ absurd (ground (arith, e, p))
  | inr p ↦ listed_lem v k item d (ground (arith, e, p))
]
listed_lem ((j, some fields) ∷ v) k item (new, d) e = elim (Bool-cases (bytes_eq j k)) [
  | inl p ↦
      let same : j ≡ k = (bytes_eq_iff j k).0 p in
      let (title_is, id_is, _) = item_at-its ((j, some fields) ∷ v) k item e in
      (
        [],
        overviews v,
        ap (λ t. record { title = t; id = t } ∷ overviews v) same
            ∙ ap (λ t. record { title = k; id = t } ∷ overviews v) (sym id_is),
        refl,
        contains-overviews v k (ap (λ l. has_key l v) (sym same) ∙ new),
      )
  | inr p ↦
      let (xs, ys, q, r, t) = listed_lem v k item d (ground (arith, e, p)) in
      (
        record { title = j; id = j } ∷ xs,
        ys,
        ap (λ os. record { title = j; id = j } ∷ os) q,
        rw p r,
        t,
      )
]
