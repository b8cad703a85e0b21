-- ===== src/OnePassword/Spending.antt =====
-- backend/onepassword/onepassword.go: how many requests to the SDK a method makes at most, through
-- `call` with its retries.
use ts1p.Prelude.{
  ℕ, ◌+◌, ◌≤◌, inl, inr, Bool, true, false, Bool-cases, Option, none, some, List, [], if◌then◌else◌,
  ltb, Bytes, bytes_eq, bytes_eq_eq, lookup, put, delete as erase, Map, arith,
}
use ts1p.Errors.{Error, Result, ok, err}
use ts1p.Exec.{Exec, lift, attempt, continue, ◌>>=◌}
use ts1p.Backend.{Record, Context}
use ts1p.OnePassword
use ts1p.OnePassword.{
  OnePassword, Items, on_vault, set_ids, sole, meta_max_bytes, resolve_id, find_id, known, again,
  loaded_item, load_found, load, create, unless_gone, update, save_found, save_fields, save, list,
  overview_titles, delete_found, remove,
}
use ts1p.OnePassword.Titles.{remember_ids, titled}
use ts1p.OnePassword.Fields.{Text, ItemField, Item, record_to_fields}
use ts1p.OnePassword.Client.{Client, Environment, Backoff, call}
use ts1p.OnePassword.Client.Retry.{IsBackoff, call-calls}
use ts1p.OnePassword.Connected.{connected}

module _ {V : Type 0} where
  -- At most so many requests, from every state.
  pub Spends : {A : Type 0} → ℕ → Exec (OnePassword (Client V)) A → Type 0
  Spends n m = (s : OnePassword (Client V)) → (m s).1.vault.calls ≤ s.vault.calls + n

  module _ {A B : Type 0} where
    continued :
        (n k b : ℕ) (f : A → Exec (OnePassword (Client V)) B)
        (x : Result A × OnePassword (Client V))
        → ((a : A) → Spends k (f a))
        → x.1.vault.calls ≤ b + n
        → (continue f x).1.vault.calls ≤ b + (n + k)
    unfolding Spends
    continued n k b f (ok a, s) h p = omega (arith, h a s)
    continued n k b f (err e, s) h p = omega arith

    bind-Spends :
        (n k : ℕ) (m : Exec (OnePassword (Client V)) A) (f : A → Exec (OnePassword (Client V)) B)
        → Spends n m
        → ((a : A) → Spends k (f a))
        → Spends (n + k) (m >>= f)
    unfolding Spends
    bind-Spends n k m f p h s = continued n k s.vault.calls f (m s) h (p s)

    attempt-Spends :
        (n k : ℕ) (m : Exec (OnePassword (Client V)) A)
        (f : Result A → Exec (OnePassword (Client V)) B)
        → Spends n m
        → ((r : Result A) → Spends k (f r))
        → Spends (n + k) (attempt m f)
    unfolding Spends
    attempt-Spends n k m f p h s = omega (arith, p s, h (m s).0 (m s).1)

  module _ {A : Type 0} where
    more-Spends : (n k : ℕ) (m : Exec (OnePassword (Client V)) A) → Spends n m → n ≤ k → Spends k m
    unfolding Spends
    more-Spends n k m p h s = omega (arith, p s)

    if-Spends :
        (n : ℕ) (c : Bool) (m k : Exec (OnePassword (Client V)) A)
        → Spends n m
        → Spends n k
        → Spends n (λ s. (if c then m else k) s)
    if-Spends n true m k p q = p
    if-Spends n false m k p q = q

-- The steps that ask nothing.
module _ (V : Type 0) where
  lift-Spends : {A : Type 0} (r : Result A) → Spends {V = V} 0 (lift r)
  unfolding Spends
  lift-Spends r s = omega arith

  set_ids-Spends : (f : Map Bytes Bytes → Map Bytes Bytes) → Spends {V = V} 0 (set_ids f)
  unfolding Spends
  set_ids-Spends f s = omega arith

  sole-Spends : (p : Bytes × ℕ) → Spends {V = V} 0 (sole p)
  unfolding Spends sole
  sole-Spends (id, n) s = ground arith

module _ {V : Type 0} (env : Environment) (backoff : Backoff V) (law : IsBackoff backoff)
    (sdk : Items V) (json : Text) where
  abbrev items : Items (Client V)
  items = connected env backoff sdk

  module _ {A : Type 0} (label : Bytes) (ctx : Context) (fn : Exec V A) where
    read-Spends : Spends 8 (on_vault (call env backoff label true ctx fn))
    unfolding Spends
    read-Spends s = call-calls env backoff law label ctx fn s.vault true

    write-Spends : Spends 1 (on_vault (call env backoff label false ctx fn))
    unfolding Spends
    write-Spends s = call-calls env backoff law label ctx fn s.vault false

  module _ (ctx : Context) (name : Bytes) where
    resolve_id-Spends : Spends 8 (resolve_id items json ctx name)
    unfolding resolve_id connected
    resolve_id-Spends =
        bind-Spends 8 0 _ _ (read-Spends _ ctx _)
          (λ os. bind-Spends 0 0 _ _ (set_ids-Spends V _) (λ u. sole-Spends V (titled name os)))

    known-Spends : (o : Option Bytes) → Spends 8 (known items json ctx name o)
    unfolding known
    known-Spends (some id) = more-Spends 0 8 _ (lift-Spends V (ok (some id))) (omega arith)
    known-Spends none = resolve_id-Spends

    find_id-Spends : Spends 8 (find_id items json ctx name)
    unfolding find_id Spends
    find_id-Spends s = elim (Bool-cases (bytes_eq name [])) [
      | inl e ↦ rw e (omega arith)
      | inr e ↦ rw e (known-Spends (lookup name s.ids) s)
    ]

    get_item-Spends : (id : Bytes) → Spends 8 (on_vault (items.get_item ctx id))
    unfolding connected
    get_item-Spends id = read-Spends _ ctx _

    again-Spends :
        (id : Bytes) (e : Error) (o : Option Bytes) → Spends 8 (again items json ctx name id e o)
    unfolding again
    again-Spends id e none = more-Spends 0 8 _ (lift-Spends V _) (omega arith)
    again-Spends id e (some id2) = elim (Bool-cases (bytes_eq id2 id)) [
      | inl same ↦ rw same (more-Spends 0 8 _ (lift-Spends V _) (omega arith))
      | inr other ↦ rw other (get_item-Spends id2)
    ]

    loaded_item-Spends :
        (id : Bytes) (r : Result Item) → Spends 16 (loaded_item items json ctx name id r)
    unfolding loaded_item
    loaded_item-Spends id (ok item) = more-Spends 0 16 _ (lift-Spends V _) (omega arith)
    loaded_item-Spends id (err e) =
        bind-Spends 0 16 _ _ (set_ids-Spends V (erase name))
          (λ u. bind-Spends 8 8 _ _ resolve_id-Spends (again-Spends id e))

    load_found-Spends : (o : Option Bytes) → Spends 24 (load_found items json ctx name o)
    unfolding load_found
    load_found-Spends none = more-Spends 0 24 _ (lift-Spends V _) (omega arith)
    load_found-Spends (some id) =
        bind-Spends 24 0 _ _ (attempt-Spends 8 16 _ _ (get_item-Spends id) (loaded_item-Spends id))
          (λ item. lift-Spends V _)

    create-Spends : (fields : List ItemField) → Spends 1 (create items json ctx name fields)
    unfolding create connected
    create-Spends fields =
        bind-Spends 1 0 _ _ (write-Spends _ ctx _) (λ id. set_ids-Spends V (put name id))

    unless_gone-Spends :
        (fields : List ItemField) (e : Error) (r : Result (Option Bytes))
        → Spends 1 (unless_gone items json ctx name fields e r)
    unfolding unless_gone
    unless_gone-Spends fields e (ok none) = create-Spends fields
    unless_gone-Spends fields e (ok (some id)) = more-Spends 0 1 _ (lift-Spends V _) (omega arith)
    unless_gone-Spends fields e (err f) = more-Spends 0 1 _ (lift-Spends V _) (omega arith)

    update-Spends :
        (fields : List ItemField) (r : Result Item) → Spends 9 (update items json ctx name fields r)
    unfolding update connected
    update-Spends fields (ok item) = more-Spends 1 9 _ (write-Spends _ ctx _) (omega arith)
    update-Spends fields (err e) =
        bind-Spends 0 9 _ _ (set_ids-Spends V (erase name))
          (λ u. attempt-Spends 8 1 _ _ resolve_id-Spends (unless_gone-Spends fields e))

    save_found-Spends :
        (fields : List ItemField) (o : Option Bytes)
        → Spends 17 (save_found items json ctx name fields o)
    unfolding save_found
    save_found-Spends fields none = more-Spends 1 17 _ (create-Spends fields) (omega arith)
    save_found-Spends fields (some id) =
        attempt-Spends 8 9 _ _ (get_item-Spends id) (update-Spends fields)

    save_fields-Spends : (p : List ItemField × ℕ) → Spends 25 (save_fields items json ctx name p)
    unfolding save_fields
    save_fields-Spends (fields, n) = elim (Bool-cases (ltb meta_max_bytes n)) [
      | inl big ↦ rw big (more-Spends 0 25 _ (lift-Spends V _) (omega arith))
      | inr small ↦ rw small (bind-Spends 8 17 _ _ find_id-Spends (save_found-Spends fields))
    ]

    delete_found-Spends : (o : Option Bytes) → Spends 1 (delete_found items json ctx name o)
    unfolding delete_found connected
    delete_found-Spends none = more-Spends 0 1 _ (lift-Spends V _) (omega arith)
    delete_found-Spends (some id) =
        bind-Spends 1 0 _ _ (write-Spends _ ctx _) (λ u. set_ids-Spends V (erase name))

    load-Spends : Spends 32 (load items json ctx name)
    unfolding load
    load-Spends = bind-Spends 8 24 _ _ find_id-Spends load_found-Spends

    save-Spends : (r : Record) → Spends 25 (save items json ctx name r)
    unfolding save
    save-Spends r = elim (Bool-cases (bytes_eq name [])) [
      | inl e ↦ rw e (more-Spends 0 25 _ (lift-Spends V _) (omega arith))
      | inr e ↦
          rw e (bind-Spends 0 25 _ _ (lift-Spends V (record_to_fields json r)) save_fields-Spends)
    ]

    remove-Spends : Spends 9 (remove items json ctx name)
    unfolding remove
    remove-Spends = bind-Spends 8 1 _ _ find_id-Spends delete_found-Spends

  list-Spends : (ctx : Context) → Spends 8 (list items json ctx)
  unfolding list connected
  list-Spends ctx = bind-Spends 8 0 _ _ (read-Spends _ ctx _) (λ os.
      bind-Spends 0 0 _ _ (set_ids-Spends V (λ ids. remember_ids os))
        (λ u. lift-Spends V (ok (overview_titles os))))

  -- The requests that the methods make at most.
  pub record Bounded : Type 0 where
    pub load :
        (ctx : Context) (name : Bytes) (s : OnePassword (Client V))
        → ((OnePassword.load items json ctx name s).1).vault.calls ≤ s.vault.calls + 32
    pub save :
        (ctx : Context) (name : Bytes) (r : Record) (s : OnePassword (Client V))
        → ((OnePassword.save items json ctx name r s).1).vault.calls ≤ s.vault.calls + 25
    pub list :
        (ctx : Context) (s : OnePassword (Client V))
        → ((OnePassword.list items json ctx s).1).vault.calls ≤ s.vault.calls + 8
    pub remove :
        (ctx : Context) (name : Bytes) (s : OnePassword (Client V))
        → ((OnePassword.remove items json ctx name s).1).vault.calls ≤ s.vault.calls + 9

  -- Whatever the SDK answers and whenever requests time out, a Load ends after 32 requests to the SDK at
  -- most, a Save after 25, a List after 8 and a Delete after 9, the retries of `call` included.
  pub backend-Bounded : Bounded
  unfolding Spends
  backend-Bounded = record {
    load = λ ctx name. load-Spends ctx name;
    save = λ ctx name r. save-Spends ctx name r;
    list = λ ctx. list-Spends ctx;
    remove = λ ctx name. remove-Spends ctx name;
  }
