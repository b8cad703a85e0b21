-- ===== src/OnePassword.antt =====
-- backend/onepassword/onepassword.go: the backend over 1Password. The SDK's items API, as `call` answers
-- with its retries and its deadline, is an argument.
pub mod Titles
pub mod Fields
pub mod Validity
pub mod Faults
pub mod Client
pub mod Connected
pub mod Spending
pub mod Roundtrip
pub mod Vault
pub mod Listings
pub mod Lawful
pub mod Start
pub mod Sample
mod Examples
use ts1p.Prelude.{
  ℕ, Bool, true, false, Option, none, some, List, [], ◌∷◌, if◌then◌else◌, eqb, ltb, Bytes, bytes_eq,
  bytes_eq_eq, Map, lookup, put, delete,
}
use ts1p.Errors.{Error, Sentinel, sentinel, wrap, is, Result, ok, err, fail}
use ts1p.Exec.{Exec, pure, raise, throw, lift, attempt, ◌>>=◌, ◌>>◌}
use ts1p.Backend.{Record, Context, Backend}
use Titles.{Overview, remember_ids, titled}
use Fields.{ItemField, Item, Text, record_to_fields, record_from_item, merge}

-- itemsAPI behind `call`, over the state `V` of the vault and the client.
pub record Items (V : Type 0) : Type 0 where
  pub list_items : Context → Exec V (List Overview)
  pub get_item : Context → Bytes → Exec V Item
  pub put_item : Context → Item → Exec V (Unit {0})
  -- a new item's ID, from its title and fields
  pub create_item : Context → Bytes → List ItemField → Exec V Bytes
  pub delete_item : Context → Bytes → Exec V (Unit {0})

-- The fields of Backend that its methods change: the memo of IDs beside the vault.
pub record OnePassword (V : Type 0) : Type 0 where
  pub vault : V
  pub ids : Map Bytes Bytes

-- metaMaxBytes
abbrev pub meta_max_bytes : ℕ
meta_max_bytes = 1048576

unfoldable pub overview_titles : List Overview → List Bytes
overview_titles [] = []
overview_titles (o ∷ os) = o.title ∷ overview_titles os

module _ {V : Type 0} where
  abbrev pub on_vault : {A : Type 0} → Exec V A → Exec (OnePassword V) A
  on_vault m s = let x = m s.vault in (x.0, record s { vault = x.1 })

  -- One assignment to the memo.
  abbrev pub set_ids : (Map Bytes Bytes → Map Bytes Bytes) → Exec (OnePassword V) (Unit {0})
  set_ids f s = (ok tt, record s { ids = f s.ids })

  abbrev pub forget_id : Bytes → Exec (OnePassword V) (Unit {0})
  forget_id name = set_ids (delete name)

  abbrev pub remember_id : Bytes → Bytes → Exec (OnePassword V) (Unit {0})
  remember_id name id = set_ids (put name id)

  -- The answer of resolveID: none is not found, and more than one item an error.
  sole : Bytes × ℕ → Exec (OnePassword V) (Option Bytes)
  sole (id, n) =
      if ltb 1 n then throw Sentinel.duplicate_titles else pure (if eqb n 1 then some id else none)

module _ {V : Type 0} (items : Items V) (json : Text) where
  unfoldable pub resolve_id : Context → Bytes → Exec (OnePassword V) (Option Bytes)
  unfolding sole
  resolve_id ctx name = do
    os ← on_vault (items.list_items ctx)
    set_ids (λ ids. remember_ids os)
    sole (titled name os)

  known : Context → Bytes → Option Bytes → Exec (OnePassword V) (Option Bytes)
  known ctx name (some id) = pure (some id)
  known ctx name none = resolve_id ctx name

  unfoldable pub find_id : Context → Bytes → Exec (OnePassword V) (Option Bytes)
  unfolding known
  find_id ctx name s =
      if bytes_eq name [] then (ok none, s) else known ctx name (lookup name s.ids) s

  -- A Get that failed with `e` under the ID `id`, after the listing anew.
  again : Context → Bytes → Bytes → Error → Option Bytes → Exec (OnePassword V) Item
  again ctx name id e none = throw Sentinel.backend_not_found
  again ctx name id e (some id2) =
      if bytes_eq id2 id then raise e else on_vault (items.get_item ctx id2)

  loaded_item : Context → Bytes → Bytes → Result Item → Exec (OnePassword V) Item
  loaded_item ctx name id (ok item) = pure item
  loaded_item ctx name id (err e) = do
    forget_id name
    id2 ← resolve_id ctx name
    again ctx name id e id2

  load_found : Context → Bytes → Option Bytes → Exec (OnePassword V) Record
  load_found ctx name none = throw Sentinel.backend_not_found
  load_found ctx name (some id) = do
    item ← attempt (on_vault (items.get_item ctx id)) (loaded_item ctx name id)
    lift (record_from_item json name item)

  unfoldable pub load : Context → Bytes → Exec (OnePassword V) Record
  unfolding load_found loaded_item again
  load ctx name = do id ← find_id ctx name; load_found ctx name id

  unfoldable pub create : Context → Bytes → List ItemField → Exec (OnePassword V) (Unit {0})
  create ctx name fields = do id ← on_vault (items.create_item ctx name fields); remember_id name id

  -- The listing anew after a Get that failed with `e`: the item is made again only if it is gone.
  unless_gone :
      Context
      → Bytes
      → List ItemField
      → Error
      → Result (Option Bytes)
      → Exec (OnePassword V) (Unit {0})
  unless_gone ctx name fields e (ok none) = create ctx name fields
  unless_gone ctx name fields e (ok (some id)) = raise e
  unless_gone ctx name fields e (err f) = raise e

  update : Context → Bytes → List ItemField → Result Item → Exec (OnePassword V) (Unit {0})
  update ctx name fields (ok item) = on_vault (items.put_item ctx (merge fields item))
  update ctx name fields (err e) = do
    forget_id name
    attempt (resolve_id ctx name) (unless_gone ctx name fields e)

  save_found : Context → Bytes → List ItemField → Option Bytes → Exec (OnePassword V) (Unit {0})
  save_found ctx name fields none = create ctx name fields
  save_found ctx name fields (some id) =
      attempt (on_vault (items.get_item ctx id)) (update ctx name fields)

  save_fields : Context → Bytes → List ItemField × ℕ → Exec (OnePassword V) (Unit {0})
  save_fields ctx name (fields, meta_len) =
      if ltb meta_max_bytes meta_len
      then throw Sentinel.meta_too_large
      else (do id ← find_id ctx name; save_found ctx name fields id)

  unfoldable pub save : Context → Bytes → Record → Exec (OnePassword V) (Unit {0})
  unfolding save_fields save_found update unless_gone
  save ctx name r =
      if bytes_eq name []
      then throw Sentinel.empty_secret_name
      else (lift (record_to_fields json r) >>= save_fields ctx name)

  unfoldable pub list : Context → Exec (OnePassword V) (List Bytes)
  unfolding overview_titles
  list ctx = do
    os ← on_vault (items.list_items ctx)
    set_ids (λ ids. remember_ids os)
    pure (overview_titles os)

  unfoldable pub delete_found : Context → Bytes → Option Bytes → Exec (OnePassword V) (Unit {0})
  delete_found ctx name none = pure tt
  delete_found ctx name (some id) = do on_vault (items.delete_item ctx id); forget_id name

  unfoldable pub remove : Context → Bytes → Exec (OnePassword V) (Unit {0})
  unfolding delete_found
  remove ctx name = do id ← find_id ctx name; delete_found ctx name id

  abbrev pub backend : Backend (OnePassword V)
  backend = record { load = load; save = save; list = list; delete = remove }
