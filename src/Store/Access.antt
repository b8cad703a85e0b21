-- ===== src/Store/Access.antt =====
-- What one read and one write of a lawful backend can do, as the methods of the store meet it.
use ts1p.Prelude.{◌≡◌, refl, ◌⊎◌, inl, inr, true, false, none, some, Bytes, Bool-cases}
use ts1p.Errors.{Error, Sentinel, sentinel, is, Result, ok, err}
use ts1p.Backend.{Record, Context, Backend, IsLawful, Unchanged, Stored}
use ts1p.Store.{load, translate}

module _ {S : Type 0} (b : Backend S) (law : IsLawful b) where
  open law use {Inv, view, current}

  -- A current read finds the record, finds that there is none, or passes on an error of the backend,
  -- which is no not-found.
  abbrev pub Loaded : Context → Bytes → S → Type 0
  Loaded ctx n s =
      ((r : Record) × (load b ctx n s ≡ (ok r, (b.load ctx n s).1)) × (view s n ≡ some r))
      ⊎ (load b ctx n s ≡ (err (sentinel Sentinel.api_not_found), (b.load ctx n s).1))
        × (view s n ≡ none)
      ⊎ ((e : Error) × (load b ctx n s ≡ (err e, (b.load ctx n s).1))
          × (is e Sentinel.api_not_found ≡ false)
          × (is e Sentinel.backend_not_found ≡ false)
          × ((b.load ctx n s).0 ≡ err e))

  Loaded-by :
      (ctx : Context) (n : Bytes) (s : S) (x : Result Record)
      → (b.load ctx n s).0 ≡ x
      → Inv s
      → current ctx ≡ true
      → Loaded ctx n s
  unfolding load translate
  Loaded-by ctx n s (ok r) e i c = inl (r, rw e, law.load_ok ctx n s r i c e)
  Loaded-by ctx n s (err e) p i c = elim (Bool-cases (is e Sentinel.backend_not_found)) [
    | inl q ↦ inr (inl (rw p (rw q), law.load_not_found ctx n s e i c p q))
    | inr q ↦ inr (inr (e, rw p (rw q), law.load_api ctx n s e i p, q, p))
  ]

  pub loaded : (ctx : Context) (n : Bytes) (s : S) → Inv s → current ctx ≡ true → Loaded ctx n s
  loaded ctx n s = Loaded-by ctx n s (b.load ctx n s).0 refl

  abbrev pub Saved : Context → Bytes → Record → S → Type 0
  Saved ctx n r s =
      ((b.save ctx n r s ≡ (ok tt, (b.save ctx n r s).1))
        × Stored (view s) n r (view (b.save ctx n r s).1))
      ⊎ ((e : Error) × (b.save ctx n r s ≡ (err e, (b.save ctx n r s).1))
          × (Unchanged (view s) (view (b.save ctx n r s).1)
              ⊎ Stored (view s) n r (view (b.save ctx n r s).1)))

  Saved-by :
      (ctx : Context) (n : Bytes) (r : Record) (s : S) (x : Result (Unit {0}))
      → (b.save ctx n r s).0 ≡ x
      → Inv s
      → Saved ctx n r s
  Saved-by ctx n r s (ok u) e inv =
      inl (λ i. (e i, (b.save ctx n r s).1), law.save_ok ctx n r s inv e)
  Saved-by ctx n r s (err e) p inv =
      inr (e, λ i. (p i, (b.save ctx n r s).1), law.save_err ctx n r s e inv p)

  pub saved : (ctx : Context) (n : Bytes) (r : Record) (s : S) → Inv s → Saved ctx n r s
  saved ctx n r s = Saved-by ctx n r s (b.save ctx n r s).0 refl
