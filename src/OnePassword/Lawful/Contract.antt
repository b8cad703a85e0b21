-- ===== src/OnePassword/Lawful/Contract.antt =====
-- backend/onepassword/onepassword.go as an instance of the contract of backend/backend.go.
use ts1p.Prelude.{◌≡◌, refl, subst, true, Bytes}
use ts1p.Errors.{Result, ok, err}
use ts1p.Backend.{Record, Context, IsLawful}
use ts1p.OnePassword.{Items, OnePassword, backend, load}
use ts1p.OnePassword.Fields.{Text}
use ts1p.OnePassword.Validity.{IsCodec}
use ts1p.OnePassword.Vault.{IsVault}
use ts1p.OnePassword.Lawful.{IsRight}
use ts1p.OnePassword.Lawful.Silence.{load-IsSilent, list-IsSilent}
use ts1p.OnePassword.Lawful.Loading.{view, view-same, Reading, load-Loaded}
use ts1p.OnePassword.Lawful.Listing.{Names, list-Listed_vault}
use ts1p.OnePassword.Lawful.Writing.{Outcome}
use ts1p.OnePassword.Lawful.Saving.{save-Saved}
use ts1p.OnePassword.Lawful.Removing.{Removal, remove-Removed}

module _ {V : Type 0} (items : Items V) (json : Text) (law : IsVault items)
    (codec : IsCodec json) where
  -- What Load answers of the records that were held before it.
  pub answered :
      (ctx : Context) (n : Bytes) (s : OnePassword V) (x : Result Record)
      → IsRight items json law s
      → (load items json ctx n s).0 ≡ x
      → Reading items json law (view items json law s n) x
  answered ctx n s x h e =
      let l = load-Loaded items json law ctx n s h in
      subst (λ o. Reading items json law o x) (view-same items json law s _ n (l.still.same n))
        (subst (Reading items json law _) e l.answer)

  unfoldable pub backend-IsLawful : IsLawful (backend items json)
  backend-IsLawful = record {
    Inv = IsRight items json law;
    view = view items json law;
    current = λ ctx. true;
    current_of_force = λ ctx e. refl;
    load_inv = λ ctx n s h. (load-Loaded items json law ctx n s h).still.right;
    save_inv = λ ctx n r s h. (save-Saved items json law codec ctx n r s h).right;
    list_inv = λ ctx s h. (list-Listed_vault items json law ctx s h).still.right;
    delete_inv = λ ctx n s h. (remove-Removed items json law ctx n s h).right;
    load_view =
        λ ctx n s k. view-same items json law s _ k ((load-IsSilent items json law ctx n).same s k);
    list_view =
        λ ctx s k. view-same items json law s _ k ((list-IsSilent items json law ctx).same s k);
    load_ok = λ ctx n s r h c e. answered ctx n s (ok r) h e;
    load_not_found = λ ctx n s e h c p. (answered ctx n s (err e) h p).0;
    load_api = λ ctx n s e h p. (answered ctx n s (err e) h p).1;
    save_ok = λ ctx n r s h e.
        subst (Outcome items json law _ n r _) e
          (save-Saved items json law codec ctx n r s h).outcome;
    save_err = λ ctx n r s x h e.
        subst (Outcome items json law _ n r _) e
          (save-Saved items json law codec ctx n r s h).outcome;
    delete_ok = λ ctx n s h e.
        subst (Removal items json law _ n _) e (remove-Removed items json law ctx n s h).outcome;
    delete_err = λ ctx n s x h e.
        subst (Removal items json law _ n _) e (remove-Removed items json law ctx n s h).outcome;
    list_ok = λ ctx s names h c e.
        subst (Names items json law (view items json law s)) e
          (list-Listed_vault items json law ctx s h).answer;
  }

-- The backend as one that keeps the contract, holding what the vault's items are read as.
pub record Keeping {V : Type 0} (items : Items V) (json : Text) (law : IsVault items) : Type 1 where
  pub lawful : IsLawful (backend items json)
  pub inv : (s : OnePassword V) → IsRight items json law s → lawful.Inv s
  pub held : (s : OnePassword V) (k : Bytes) → lawful.view s k ≡ view items json law s k
  pub always : (ctx : Context) → lawful.current ctx ≡ true

-- Over a vault that nothing else writes to, where requests may fail with or without effect, and with JSON
-- that reads back what it wrote, the backend keeps the whole contract, whatever its memo has of deleted
-- items: what it holds under a name is the record that the item of that title is read as.
pub backend-Keeping :
    {V : Type 0} (items : Items V) (json : Text) (law : IsVault items)
    → IsCodec json
    → Keeping items json law
unfolding backend-IsLawful
backend-Keeping items json law codec = record {
  lawful = backend-IsLawful items json law codec;
  inv = λ s h. h;
  held = λ s k. refl;
  always = λ ctx. refl;
}
