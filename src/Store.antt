-- ===== src/Store.antt =====
-- store/store.go: setec's version semantics over a backend, an argument of every method. `modulus` is
-- that of the unsigned integers which are `api.SecretVersion`s. The write mutex makes each writing
-- method one step; the log line of `List` for an unreadable record is left out.
pub mod Guards
pub mod Model
pub mod Abstraction
pub mod Access
pub mod Refinement
pub mod History
pub mod Ageing
pub mod Refusals
pub mod Runs
pub mod Reads
pub mod Listing
pub mod Overflow
mod Examples
use ts1p.Prelude.{
  has_prefix, ℕ, ◌+◌, ◌%◌, max, Bool, true, false, not, ◌&&◌, Option, none, some, List, [], ◌∷◌,
  ◌++◌, if◌then◌else◌, eqb, is_some, Bytes, bytes_eq, text, nat_eq, bytes_ord, nat_ord, Map, keys,
  lookup, has_key, put, delete, sort,
}
use ts1p.Errors.{Error, Sentinel, sentinel, wrap, is, Result, ok, err, fail}
use ts1p.Exec.{Exec, pure, raise, throw, lift, attempt, ◌>>=◌, ◌>>◌}
use ts1p.Backend.{Record, deleted_set, is_claimed, Context, with_force_refresh, Backend}
use Guards.{cut_prefix, config_prefix}

-- api.SecretInfo and api.SecretValue
pub record SecretInfo : Type 0 where
  pub name : Bytes
  pub active_version : ℕ
  pub versions : List ℕ

pub record SecretValue : Type 0 where
  pub value : Bytes
  pub version : ℕ

unfoldable pub info : Record → SecretInfo
info r = record { name = r.name; active_version = r.active; versions = sort (keys r.versions) }

-- `val, ok := r.Versions[v]`, with the error of the branch where it is absent.
unfoldable pub value_at : Sentinel → ℕ → Option Bytes → Result SecretValue
value_at missing v none = fail missing
value_at missing v (some val) = ok (record { value = val; version = v })

unfoldable pub active : Record → Result SecretValue
unfolding value_at
active r = value_at Sentinel.unexpected_no_active r.active (lookup r.active r.versions)

unless_version : ℕ → SecretValue → Result SecretValue
unless_version old sv = if eqb sv.version old then fail Sentinel.value_not_changed else ok sv

-- What the writes make of a record.
abbrev pub fresh_record : Bytes → ℕ → Bytes → Record
fresh_record name version value = record {
  name = name;
  versions = (version, value) ∷ [];
  active = version;
  latest = version;
  deleted = none;
}

same_value : Option Bytes → Bytes → Bool
same_value none value = false
same_value (some cur) value = bytes_eq cur value

-- `cur, ok := r.Versions[r.Latest]; ok && bytes.Equal(cur, value)`
unfoldable pub holds_latest : Record → Bytes → Bool
unfolding same_value
holds_latest r value = same_value (lookup r.latest r.versions) value

abbrev pub next_version : ℕ → ℕ → ℕ
next_version modulus v = (v + 1) % modulus

abbrev pub add_latest : ℕ → Record → Bytes → Record
add_latest modulus r value = record r {
  latest = next_version modulus r.latest;
  versions = put (next_version modulus r.latest) value r.versions;
}

abbrev pub add_version : Record → ℕ → Bytes → Record
add_version r version value = record r {
  versions = put version value r.versions;
  latest = max r.latest version;
  active = version;
}

abbrev pub set_active : Record → ℕ → Record
set_active r version = record r { active = version }

abbrev pub drop_version : Record → ℕ → Record
drop_version r version = record r {
  versions = delete version r.versions;
  deleted = some (put version tt (deleted_set r));
}

-- The error of a write under the reserved prefix; the message quotes `quoted`.
abbrev pub unknown_config_value : Bytes → Error
unknown_config_value quoted = wrap quoted (sentinel Sentinel.unknown_config)

module _ {S : Type 0} where
  -- Store.load's translation of the backend's answer
  translate : Result Record → Exec S Record
  translate (ok r) = pure r
  translate (err e) =
      if is e Sentinel.backend_not_found then throw Sentinel.api_not_found else raise e

  -- The switch on the error of a read in List: a vanished or unreadable record is skipped, an outage
  -- ends the listing.
  after_read :
      (Record → Exec S (List SecretInfo))
      → Exec S (List SecretInfo)
      → Result Record
      → Exec S (List SecretInfo)
  after_read keep skip (ok r) = keep r
  after_read keep skip (err e) =
      if is e Sentinel.backend_not_found
      then skip
      else if is e Sentinel.unavailable
      then raise e
      else skip

module _ {S : Type 0} (b : Backend S) where
  unfoldable pub load : Context → Bytes → Exec S Record
  unfolding translate
  load ctx name = attempt (b.load ctx name) translate

  -- The loop of List over the sorted names.
  list_from : Context → (Bytes → Bool) → List SecretInfo → List Bytes → Exec S (List SecretInfo)
  list_from ctx allow out [] = pure out
  list_from ctx allow out (name ∷ names) =
      let skip = list_from ctx allow out names in
      let keep = λ (r : Record). list_from ctx allow (out ++ info r ∷ []) names in
      if not (allow name) then skip else attempt (b.load ctx name) (after_read keep skip)

  -- A nil `allow` is the one that admits every name.
  unfoldable pub list : Context → (Bytes → Bool) → Exec S (List SecretInfo)
  unfolding list_from after_read
  list ctx allow = do names ← b.list ctx; list_from ctx allow [] (sort names)

  unfoldable pub get_info : Context → Bytes → Exec S SecretInfo
  unfolding load
  get_info ctx name = do r ← load ctx name; pure (info r)

  unfoldable pub get : Context → Bytes → Exec S SecretValue
  unfolding load
  get ctx name = do r ← load ctx name; lift (active r)

  unfoldable pub get_conditional : Context → Bytes → ℕ → Exec S SecretValue
  unfolding load unless_version
  get_conditional ctx name old = do
    r ← load ctx name
    sv ← lift (active r)
    lift (unless_version old sv)

  unfoldable pub get_version : Context → Bytes → ℕ → Exec S SecretValue
  unfolding load
  get_version ctx name version = do
    r ← load ctx name
    lift (value_at Sentinel.api_not_found version (lookup version r.versions))

  -- `s.b.Save`, then the version that the method returns
  save_as : Context → Bytes → Record → ℕ → Exec S ℕ
  save_as ctx name r version = do b.save ctx name r; pure version

  put_loaded : ℕ → Context → Bytes → Bytes → Result Record → Exec S ℕ
  unfolding save_as
  put_loaded modulus ctx name value (ok r) =
      if holds_latest r value
      then pure r.latest
      else save_as ctx name (add_latest modulus r value) (next_version modulus r.latest)
  put_loaded modulus ctx name value (err e) =
      if is e Sentinel.api_not_found
      then save_as ctx name (fresh_record name 1 value) 1
      else raise e

  unfoldable pub put_value : ℕ → Context → Bytes → Bytes → Exec S ℕ
  unfolding load put_loaded
  put_value modulus ctx name value =
      if bytes_eq name []
      then throw Sentinel.empty_name
      else if has_prefix config_prefix name
      then raise (unknown_config_value name)
      else attempt (load (with_force_refresh ctx) name) (put_loaded modulus ctx name value)

  create_loaded : Context → Bytes → ℕ → Bytes → Result Record → Exec S (Unit {0})
  create_loaded ctx name version value (ok r) =
      if is_claimed r version
      then throw Sentinel.version_claimed
      else b.save ctx name (add_version r version value)
  create_loaded ctx name version value (err e) =
      if is e Sentinel.api_not_found
      then b.save ctx name (fresh_record name version value)
      else raise e

  unfoldable pub create_version : Context → Bytes → ℕ → Bytes → Exec S (Unit {0})
  unfolding load create_loaded
  create_version ctx name version value =
      if bytes_eq name []
      then throw Sentinel.empty_name
      else if eqb version 0
      then throw Sentinel.invalid_version
      else attempt (load (with_force_refresh ctx) name) (create_loaded ctx name version value)

  activate_loaded : Context → Bytes → ℕ → Record → Exec S (Unit {0})
  activate_loaded ctx name version r =
      if not (has_key version r.versions)
      then throw Sentinel.api_not_found
      else if eqb r.active version
      then pure tt
      else b.save ctx name (set_active r version)

  unfoldable pub activate : Context → Bytes → ℕ → Exec S (Unit {0})
  unfolding load activate_loaded
  activate ctx name version =
      if bytes_eq name []
      then throw Sentinel.empty_name
      else if has_prefix config_prefix name
      then raise (unknown_config_value name)
      else if eqb version 0
      then throw Sentinel.invalid_version_plain
      else (load (with_force_refresh ctx) name >>= activate_loaded ctx name version)

  delete_loaded : Context → Bytes → ℕ → Result Record → Exec S (Unit {0})
  delete_loaded ctx name version (ok r) =
      if eqb version r.active
      then throw Sentinel.delete_active
      else if not (has_key version r.versions)
      then raise (wrap (text "version") (sentinel Sentinel.api_not_found))
      else b.save ctx name (drop_version r version)
  delete_loaded ctx name version (err e) =
      if is e Sentinel.api_not_found
      then raise (wrap name (sentinel Sentinel.api_not_found))
      else raise e

  unfoldable pub delete_version : Context → Bytes → ℕ → Exec S (Unit {0})
  unfolding load delete_loaded
  delete_version ctx name version = elim (cut_prefix config_prefix name) [
    | some cfg ↦ raise (unknown_config_value cfg)
    | none ↦
        if eqb version 0
        then throw Sentinel.invalid_version_plain
        else attempt (load (with_force_refresh ctx) name) (delete_loaded ctx name version)
  ]

  unfoldable pub delete_secret : Context → Bytes → Exec S (Unit {0})
  delete_secret ctx name = elim (cut_prefix config_prefix name) [
    | some cfg ↦ raise (unknown_config_value cfg)
    | none ↦ b.delete ctx name
  ]
