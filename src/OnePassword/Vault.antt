-- ===== src/OnePassword/Vault.antt =====
-- backend/onepassword/onepassword.go: what the backend relies on in the vault that it is given, which
-- is the SDK's: one that is dedicated to it, so that no two items share a title.
use ts1p.Prelude.{
  ◌≡◌, ◌⊎◌, Bool, true, false, Option, none, some, List, ◌∷◌, ◌++◌, if◌then◌else◌, Bytes, bytes_eq,
  bytes_eq_eq, contains,
}
use ts1p.Errors.{Error, Sentinel, is, ok, err}
use ts1p.Backend.{Context}
use ts1p.OnePassword.{Items, overview_titles}
use ts1p.OnePassword.Titles.{Overview}
use ts1p.OnePassword.Fields.{Item, ItemField}

-- An error of the SDK: it wraps neither the not-found of backends nor that of setec.
pub record Foreign (e : Error) : Type 0 where
  pub no_backend : is e Sentinel.backend_not_found ≡ false
  pub no_api : is e Sentinel.api_not_found ≡ false

-- A listing has one overview for each item, and no other.
pub record IsListing (os : List Overview) (at : Bytes → Option Item) : Type 0 where
  pub unlisted : (k : Bytes) → at k ≡ none → contains k (overview_titles os) ≡ false
  pub listed :
      (k : Bytes) (item : Item)
      → at k ≡ some item
      → (xs : List Overview) × (ys : List Overview) × (os
          ≡ xs ++ record { title = k; id = item.id } ∷ ys)
        × (contains k (overview_titles xs) ≡ false)
        × (contains k (overview_titles ys) ≡ false)

-- The vault without the item of this ID.
abbrev pub drop : Bytes → Option Item → Option Item
drop id none = none
drop id (some item) = if bytes_eq item.id id then none else some item

abbrev pub created : Bytes → Bytes → List ItemField → Item
created id name fields = record { id = id; title = name; fields = fields }

-- `at` is the item of each title, `used` the IDs that were ever given out, and `Plain` holds of a vault
-- in which each title and each ID has one item. A request that fails may have taken effect.
pub record IsVault {V : Type 0} (items : Items V) : Type 1 where
  pub Plain : V → Type 0
  pub at : V → Bytes → Option Item
  pub used : V → Bytes → Bool
  pub title_of : (v : V) (k : Bytes) (i : Item) → Plain v → at v k ≡ some i → i.title ≡ k
  pub id_of :
      (v : V) (k l : Bytes) (i j : Item)
      → Plain v
      → at v k ≡ some i
      → at v l ≡ some j
      → i.id ≡ j.id
      → k ≡ l
  pub used_of : (v : V) (k : Bytes) (i : Item) → Plain v → at v k ≡ some i → used v i.id ≡ true
  pub list_plain : (ctx : Context) (v : V) → Plain v → Plain (items.list_items ctx v).1
  pub list_same : (ctx : Context) (v : V) (k : Bytes) → at (items.list_items ctx v).1 k ≡ at v k
  pub list_used :
      (ctx : Context) (v : V) (id : Bytes)
      → used v id ≡ true
      → used (items.list_items ctx v).1 id ≡ true
  pub list_ok :
      (ctx : Context) (v : V) (os : List Overview)
      → Plain v
      → (items.list_items ctx v).0 ≡ ok os
      → IsListing os (at v)
  pub list_err :
      (ctx : Context) (v : V) (e : Error) → (items.list_items ctx v).0 ≡ err e → Foreign e
  pub get_plain : (ctx : Context) (id : Bytes) (v : V) → Plain v → Plain (items.get_item ctx id v).1
  pub get_same :
      (ctx : Context) (id : Bytes) (v : V) (k : Bytes) → at (items.get_item ctx id v).1 k ≡ at v k
  pub get_used :
      (ctx : Context) (id : Bytes) (v : V) (j : Bytes)
      → used v j ≡ true
      → used (items.get_item ctx id v).1 j ≡ true
  pub get_ok :
      (ctx : Context) (id : Bytes) (v : V) (item : Item)
      → Plain v
      → (items.get_item ctx id v).0 ≡ ok item
      → (at v item.title ≡ some item) × (item.id ≡ id)
  pub get_err :
      (ctx : Context) (id : Bytes) (v : V) (e : Error)
      → (items.get_item ctx id v).0 ≡ err e
      → Foreign e
  -- an update keeps the item's ID and title
  pub put_plain :
      (ctx : Context) (item old : Item) (v : V)
      → at v item.title ≡ some old
      → old.id ≡ item.id
      → Plain v
      → Plain (items.put_item ctx item v).1
  pub put_used :
      (ctx : Context) (item : Item) (v : V) (j : Bytes)
      → used v j ≡ true
      → used (items.put_item ctx item v).1 j ≡ true
  pub put_ok :
      (ctx : Context) (item old : Item) (v : V)
      → Plain v
      → at v item.title ≡ some old
      → old.id ≡ item.id
      → (items.put_item ctx item v).0 ≡ ok tt
      → (k : Bytes)
      → at (items.put_item ctx item v).1 k ≡ (if bytes_eq item.title k then some item else at v k)
  pub put_err :
      (ctx : Context) (item old : Item) (v : V) (e : Error)
      → Plain v
      → at v item.title ≡ some old
      → old.id ≡ item.id
      → (items.put_item ctx item v).0 ≡ err e
      → ((k : Bytes) → at (items.put_item ctx item v).1 k ≡ at v k)
        ⊎ ((k : Bytes)
            → at (items.put_item ctx item v).1 k
              ≡ (if bytes_eq item.title k then some item else at v k))
  -- a new item gets an ID that was never used
  pub create_plain :
      (ctx : Context) (name : Bytes) (fields : List ItemField) (v : V)
      → at v name ≡ none
      → Plain v
      → Plain (items.create_item ctx name fields v).1
  pub create_used :
      (ctx : Context) (name : Bytes) (fields : List ItemField) (v : V) (j : Bytes)
      → used v j ≡ true
      → used (items.create_item ctx name fields v).1 j ≡ true
  pub create_ok :
      (ctx : Context) (name : Bytes) (fields : List ItemField) (v : V) (id : Bytes)
      → Plain v
      → at v name ≡ none
      → (items.create_item ctx name fields v).0 ≡ ok id
      → (used v id ≡ false)
        × ((k : Bytes)
            → at (items.create_item ctx name fields v).1 k
              ≡ (if bytes_eq name k then some (created id name fields) else at v k))
  pub create_err :
      (ctx : Context) (name : Bytes) (fields : List ItemField) (v : V) (e : Error)
      → Plain v
      → at v name ≡ none
      → (items.create_item ctx name fields v).0 ≡ err e
      → ((k : Bytes) → at (items.create_item ctx name fields v).1 k ≡ at v k)
        ⊎ ((id : Bytes) × (used v id ≡ false)
            × ((k : Bytes)
                → at (items.create_item ctx name fields v).1 k
                  ≡ (if bytes_eq name k then some (created id name fields) else at v k)))
  pub delete_plain :
      (ctx : Context) (id : Bytes) (v : V) → Plain v → Plain (items.delete_item ctx id v).1
  pub delete_used :
      (ctx : Context) (id : Bytes) (v : V) (j : Bytes)
      → used v j ≡ true
      → used (items.delete_item ctx id v).1 j ≡ true
  pub delete_ok :
      (ctx : Context) (id : Bytes) (v : V)
      → Plain v
      → (items.delete_item ctx id v).0 ≡ ok tt
      → (k : Bytes) → at (items.delete_item ctx id v).1 k ≡ drop id (at v k)
  pub delete_err :
      (ctx : Context) (id : Bytes) (v : V) (e : Error)
      → Plain v
      → (items.delete_item ctx id v).0 ≡ err e
      → ((k : Bytes) → at (items.delete_item ctx id v).1 k ≡ at v k)
        ⊎ ((k : Bytes) → at (items.delete_item ctx id v).1 k ≡ drop id (at v k))
