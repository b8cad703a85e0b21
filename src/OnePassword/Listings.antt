-- ===== src/OnePassword/Listings.antt =====
-- backend/onepassword/onepassword.go: a listing of a vault, the count of resolveID, and the memo.
use ts1p.Prelude.{
  ℕ, ◌≡◌, refl, sym, ap, ◌∙◌, inl, inr, false, ◌||◌, Bool-cases, Option, none, some, Option-cases,
  List, [], ◌∷◌, ◌++◌, is_some, Bytes, bytes_eq, bytes_eq_refl, bytes_eq_eq, lookup, contains,
  arith,
}
use ts1p.OnePassword.{overview_titles}
use ts1p.OnePassword.Titles.{
  Overview, titled, count_titled, count_one, remember_ids, remember_ids-titled, sole_id,
}
use ts1p.OnePassword.Fields.{Item}
use ts1p.OnePassword.Vault.{IsListing}

-- What resolveID counts for the item of a title.
abbrev pub counted : Option Item → Bytes × ℕ
counted none = ([], 0)
counted (some item) = (item.id, 1)

abbrev pub id_of : Option Item → Option Bytes
id_of none = none
id_of (some item) = some item.id

module _ (name : Bytes) where
  count_titled-unlisted :
      (os : List Overview) (p : Bytes × ℕ)
      → contains name (overview_titles os) ≡ false
      → count_titled name os p ≡ p
  unfolding count_titled count_one overview_titles contains
  count_titled-unlisted [] p h = refl
  count_titled-unlisted (o ∷ os) (id, n) h = elim (Bool-cases (bytes_eq o.title name)) [
    | inl e ↦ absurd (ground (arith, h))
    | inr e ↦ rw e (count_titled-unlisted os (id, n) (ground (arith, h)))
  ]

  count_titled-append :
      (xs ys : List Overview) (p : Bytes × ℕ)
      → count_titled name (xs ++ ys) p ≡ count_titled name ys (count_titled name xs p)
  unfolding count_titled
  count_titled-append [] ys p = refl
  count_titled-append (o ∷ xs) ys p = count_titled-append xs ys (count_one name o p)

  contains-append :
      (xs ys : List Overview)
      → contains name (overview_titles (xs ++ ys))
        ≡ (contains name (overview_titles xs) || contains name (overview_titles ys))
  unfolding overview_titles contains
  contains-append [] ys = refl
  contains-append (o ∷ xs) ys = ground (arith, contains-append xs ys)

  module _ (os : List Overview) (at : Bytes → Option Item) (h : IsListing os at) where
    titled_by : (o : Option Item) → at name ≡ o → titled name os ≡ counted o
    unfolding titled count_titled count_one
    titled_by none e = count_titled-unlisted os ([], 0) (h.unlisted name e)
    titled_by (some item) e =
        let (xs, ys, p, q, r) = h.listed name item e in
        ap (λ l. count_titled name l ([], 0)) p
        ∙ count_titled-append xs _ ([], 0)
        ∙ ap (count_titled name (record { title = name; id = item.id } ∷ ys))
            (count_titled-unlisted xs ([], 0) q)
        ∙ (rw (bytes_eq_refl name) (count_titled-unlisted ys (item.id, 1) r))

    pub titled-counted : titled name os ≡ counted (at name)
    titled-counted = titled_by (at name) refl

    pub contains-is_some : contains name (overview_titles os) ≡ is_some (at name)
    unfolding overview_titles contains
    contains-is_some = elim (Option-cases (at name)) [
      | inl e ↦ h.unlisted name e ∙ ap is_some (sym e)
      | inr (item, e) ↦
          let (xs, ys, p, q, r) = h.listed name item e in
          ap (λ l. contains name (overview_titles l)) p
          ∙ contains-append xs _
          ∙ ground (arith, bytes_eq_refl name, e)
    ]

    pub remember_ids-at : lookup name (remember_ids os) ≡ id_of (at name)
    remember_ids-at =
        remember_ids-titled name os
        ∙ ap sole_id titled-counted
        ∙ elim (at name) as (λ o. sole_id (counted o) ≡ id_of o) [ none ↦ refl | some item ↦ refl ]
