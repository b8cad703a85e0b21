-- ===== src/OnePassword/Lawful/Silence.antt =====
-- backend/onepassword/onepassword.go: the methods that only read, and the items of the vault.
use ts1p.Prelude.{
  ◌≡◌, refl, ◌∙◌, inl, inr, Bool-cases, Option, none, some, [], Bytes, bytes_eq, bytes_eq_eq, ℕ,
  ltb, Map, lookup, delete,
}
use ts1p.Errors.{Error, Result, ok, err}
use ts1p.Exec.{Exec, lift, continue, attempt, ◌>>=◌}
use ts1p.Backend.{Context}
use ts1p.OnePassword.{
  Items, OnePassword, on_vault, set_ids, resolve_id, known, find_id, again, loaded_item, load_found,
  load, list, sole, overview_titles,
}
use ts1p.OnePassword.Titles.{remember_ids, titled}
use ts1p.OnePassword.Fields.{Text, Item, record_from_item}
use ts1p.OnePassword.Vault.{IsVault}

module _ {V : Type 0} (items : Items V) (json : Text) (law : IsVault items) where
  open law use {at}

  -- A computation that changes no item.
  pub record IsSilent {A : Type 0} (m : Exec (OnePassword V) A) : Type 0 where
    pub same : (s : OnePassword V) (k : Bytes) → at (m s).1.vault k ≡ at s.vault k

  continue-same :
      {A B : Type 0} (f : A → Exec (OnePassword V) B) (x : Result A × OnePassword V) (k : Bytes)
      → ((a : A) → IsSilent (f a))
      → at (continue f x).1.vault k ≡ at x.1.vault k
  continue-same f (ok a, s) k h = (h a).same s k
  continue-same f (err e, s) k h = refl

  bind-IsSilent :
      {A B : Type 0} (m : Exec (OnePassword V) A) (f : A → Exec (OnePassword V) B)
      → IsSilent m
      → ((a : A) → IsSilent (f a))
      → IsSilent (m >>= f)
  bind-IsSilent m f h g = record { same = λ s k. continue-same f (m s) k g ∙ h.same s k }

  attempt-IsSilent :
      {A B : Type 0} (m : Exec (OnePassword V) A) (f : Result A → Exec (OnePassword V) B)
      → IsSilent m
      → ((x : Result A) → IsSilent (f x))
      → IsSilent (attempt m f)
  attempt-IsSilent m f h g = record { same = λ s k. (g (m s).0).same (m s).1 k ∙ h.same s k }

  lift-IsSilent : {A : Type 0} (x : Result A) → IsSilent {A = A} (lift x)
  lift-IsSilent x = record { same = λ s k. refl }

  set_ids-IsSilent : (f : Map Bytes Bytes → Map Bytes Bytes) → IsSilent (set_ids {V = V} f)
  set_ids-IsSilent f = record { same = λ s k. refl }

  list_items-IsSilent : (ctx : Context) → IsSilent (on_vault (items.list_items ctx))
  list_items-IsSilent ctx = record { same = λ s k. law.list_same ctx s.vault k }

  get_item-IsSilent : (ctx : Context) (id : Bytes) → IsSilent (on_vault (items.get_item ctx id))
  get_item-IsSilent ctx id = record { same = λ s k. law.get_same ctx id s.vault k }

  sole-IsSilent : (p : Bytes × ℕ) → IsSilent (sole p)
  unfolding sole
  sole-IsSilent (id, n) = elim (Bool-cases (ltb 1 n)) [
    | inl e ↦ rw e (record { same = λ s k. refl })
    | inr e ↦ rw e (record { same = λ s k. refl })
  ]

  pub resolve_id-IsSilent :
      (ctx : Context) (name : Bytes) → IsSilent (resolve_id items json ctx name)
  unfolding resolve_id
  resolve_id-IsSilent ctx name = bind-IsSilent _ _ (list_items-IsSilent ctx) (λ os.
      bind-IsSilent _ _ (set_ids-IsSilent (λ ids. remember_ids os))
        (λ u. sole-IsSilent (titled name os)))

  known-IsSilent :
      (ctx : Context) (name : Bytes) (o : Option Bytes) → IsSilent (known items json ctx name o)
  unfolding known
  known-IsSilent ctx name none = resolve_id-IsSilent ctx name
  known-IsSilent ctx name (some id) = lift-IsSilent (ok (some id))

  pub find_id-IsSilent : (ctx : Context) (name : Bytes) → IsSilent (find_id items json ctx name)
  unfolding find_id
  find_id-IsSilent ctx name = record {
    same = λ s k. elim (Bool-cases (bytes_eq name [])) [
      | inl e ↦ rw e
      | inr e ↦ rw e ((known-IsSilent ctx name (lookup name s.ids)).same s k)
    ];
  }

  again-IsSilent :
      (ctx : Context) (name id : Bytes) (e : Error) (o : Option Bytes)
      → IsSilent (again items json ctx name id e o)
  unfolding again
  again-IsSilent ctx name id e none = record { same = λ s k. refl }
  again-IsSilent ctx name id e (some id2) = elim (Bool-cases (bytes_eq id2 id)) [
    | inl p ↦ rw p (record { same = λ s k. refl })
    | inr p ↦ rw p (get_item-IsSilent ctx id2)
  ]

  loaded_item-IsSilent :
      (ctx : Context) (name id : Bytes) (x : Result Item)
      → IsSilent (loaded_item items json ctx name id x)
  unfolding loaded_item
  loaded_item-IsSilent ctx name id (ok item) = lift-IsSilent (ok item)
  loaded_item-IsSilent ctx name id (err e) =
      bind-IsSilent _ _ (set_ids-IsSilent (delete name)) (λ u.
        bind-IsSilent _ _ (resolve_id-IsSilent ctx name) (λ o. again-IsSilent ctx name id e o))

  load_found-IsSilent :
      (ctx : Context) (name : Bytes) (o : Option Bytes)
      → IsSilent (load_found items json ctx name o)
  unfolding load_found
  load_found-IsSilent ctx name none = record { same = λ s k. refl }
  load_found-IsSilent ctx name (some id) =
      bind-IsSilent _ _
        (attempt-IsSilent _ _ (get_item-IsSilent ctx id) (loaded_item-IsSilent ctx name id))
        (λ item. lift-IsSilent (record_from_item json name item))

  pub load-IsSilent : (ctx : Context) (name : Bytes) → IsSilent (load items json ctx name)
  unfolding load
  load-IsSilent ctx name =
      bind-IsSilent _ _ (find_id-IsSilent ctx name) (load_found-IsSilent ctx name)

  pub list-IsSilent : (ctx : Context) → IsSilent (list items json ctx)
  unfolding list
  list-IsSilent ctx = bind-IsSilent _ _ (list_items-IsSilent ctx) (λ os.
      bind-IsSilent _ _ (set_ids-IsSilent (λ ids. remember_ids os))
        (λ u. lift-IsSilent (ok (overview_titles os))))
