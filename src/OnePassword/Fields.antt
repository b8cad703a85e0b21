-- ===== src/OnePassword/Fields.antt =====
-- backend/onepassword/onepassword.go: a record as two fields of an item. JSON is an argument, as is
-- the test of UTF-8.
use ts1p.Prelude.{
  ℕ, Bool, true, false, not, ◌||◌, Option, none, some, List, [], ◌∷◌, ◌++◌, if◌then◌else◌, ltb,
  Bytes, bytes_eq, text, nat_eq, nat_ord, Map, keys, lookup, has_key, put, length, sort,
}
use ts1p.Errors.{Sentinel, wrap, Result, ok, err, fail}
use ts1p.Backend.{Record, deleted_set}

abbrev pub meta_field : Bytes
meta_field = text "ts1p-meta"

abbrev pub value_field : Bytes
value_field = text "value"

-- op.ItemField; `concealed` is the field type of that name.
pub record ItemField : Type 0 where
  pub id : Bytes
  pub title : Bytes
  pub concealed : Bool
  pub value : Bytes

-- op.Item, with the fields that the code reads or changes
pub record Item : Type 0 where
  pub id : Bytes
  pub title : Bytes
  pub fields : List ItemField

-- The JSON form of a record; a nil map of versions is `none`.
pub record Meta : Type 0 where
  pub active : ℕ
  pub latest : ℕ
  pub versions : Option (Map ℕ Bytes)
  pub deleted : List ℕ

-- json.Marshal and json.Unmarshal at this type, and utf8.Valid
pub record Text : Type 0 where
  pub marshal : Meta → Result Bytes
  pub unmarshal : Bytes → Result Meta
  pub valid : Bytes → Bool

-- The loop over the versions in validateRecord.
unfoldable pub exceeds : ℕ → List ℕ → Bool
exceeds latest [] = false
exceeds latest (v ∷ vs) = if ltb latest v then true else exceeds latest vs

-- `Versions` empty passes.
unfoldable pub validate_versions : Record → Map ℕ Bytes → Result (Unit {0})
validate_versions r [] = ok tt
validate_versions r (p ∷ ps) =
    if not (has_key r.active r.versions)
    then fail Sentinel.invalid_record
    else if exceeds r.latest (keys r.versions)
    then fail Sentinel.invalid_record
    else ok tt

unfoldable pub validate_record : Record → Result (Unit {0})
unfolding validate_versions exceeds
validate_record r = validate_versions r r.versions

abbrev pub meta_of : Record → Meta
meta_of r = record {
  active = r.active;
  latest = r.latest;
  versions = some r.versions;
  deleted = sort (keys (deleted_set r));
}

-- The set that decodeMeta fills from the list.
unfoldable pub deleted_from : List ℕ → Map ℕ (Unit {0}) → Map ℕ (Unit {0})
deleted_from [] m = m
deleted_from (v ∷ vs) m = deleted_from vs (put v tt m)

unfoldable pub deleted_of : List ℕ → Option (Map ℕ (Unit {0}))
unfolding deleted_from
deleted_of [] = none
deleted_of (v ∷ vs) = some (deleted_from (v ∷ vs) [])

unfoldable pub versions_of : Option (Map ℕ Bytes) → Map ℕ Bytes
versions_of none = []
versions_of (some m) = m

unfoldable pub record_of : Bytes → Meta → Record
unfolding versions_of deleted_of
record_of name m = record {
  name = name;
  versions = versions_of m.versions;
  active = m.active;
  latest = m.latest;
  deleted = deleted_of m.deleted;
}

validated : Record → Result (Unit {0}) → Result Record
validated r (ok u) = ok r
validated r (err e) = err e

module _ (json : Text) where
  marshaled : Result Bytes → Result Bytes
  marshaled (ok s) = ok s
  marshaled (err e) = err (wrap (text "encoding ts1p-meta") e)

  encode_valid : Record → Result (Unit {0}) → Result Bytes
  encode_valid r (ok u) = marshaled (json.marshal (meta_of r))
  encode_valid r (err e) = err e

  unfoldable pub encode_meta : Record → Result Bytes
  unfolding encode_valid marshaled
  encode_meta r = encode_valid r (validate_record r)

  decode_parsed : Bytes → Result Meta → Result Record
  decode_parsed name (ok m) = let r = record_of name m in validated r (validate_record r)
  decode_parsed name (err e) = err (wrap (text "decoding ts1p-meta") e)

  unfoldable pub decode_meta : Bytes → Bytes → Result Record
  unfolding decode_parsed record_of versions_of deleted_of deleted_from validated
  decode_meta name s = decode_parsed name (json.unmarshal s)

  human_text : Option Bytes → Bytes
  human_text none = []
  human_text (some v) =
      if json.valid v then v else text "(binary value; see " ++ meta_field ++ text ")"

  unfoldable pub human_value : Record → Bytes
  unfolding human_text
  human_value r = human_text (lookup r.active r.versions)

  abbrev pub managed : Bytes → Bytes → ItemField
  managed title value = record { id = title; title = title; concealed = true; value = value }

  fields_from : Record → Result Bytes → Result (List ItemField × ℕ)
  fields_from r (ok m) =
      ok (managed value_field (human_value r) ∷ managed meta_field m ∷ [], length m)
  fields_from r (err e) = err e

  unfoldable pub record_to_fields : Record → Result (List ItemField × ℕ)
  unfolding fields_from
  record_to_fields r = fields_from r (encode_meta r)

  unfoldable pub record_from_fields : Bytes → List ItemField → Result Record
  record_from_fields name [] = fail Sentinel.backend_not_found
  record_from_fields name (f ∷ fs) =
      if bytes_eq f.title meta_field || bytes_eq f.id meta_field
      then decode_meta name f.value
      else record_from_fields name fs

  unfoldable pub record_from_item : Bytes → Item → Result Record
  unfolding record_from_fields
  record_from_item name item = record_from_fields name item.fields

-- The two fields that are replaced.
unfoldable pub is_managed_field : ItemField → Bool
is_managed_field f =
    if bytes_eq f.title meta_field || bytes_eq f.title value_field
    then true
    else bytes_eq f.id meta_field || bytes_eq f.id value_field

-- The loop that keeps the fields of others.
unfoldable pub keep_others : List ItemField → List ItemField
keep_others [] = []
keep_others (f ∷ fs) = if is_managed_field f then keep_others fs else f ∷ keep_others fs

abbrev pub merge : List ItemField → Item → Item
merge fields item = record item { fields = keep_others item.fields ++ fields }
