-- ===== src/OnePassword/Lawful/Rendering.antt =====
-- backend/onepassword/onepassword.go: the fields that Save makes of a record, with a codec that reads back
-- what it wrote.
use ts1p.Prelude.{ℕ, ◌≡◌, refl, subst, List, Bytes, text}
use ts1p.Errors.{Result, ok, err, wrap}
use ts1p.Backend.{Record, SameRecord}
use ts1p.OnePassword.Fields.{
  Text, Item, ItemField, meta_of, validate_record, record_to_fields, encode_meta, record_from_item,
  merge,
}
use ts1p.OnePassword.Validity.{IsCodec}
use ts1p.OnePassword.Roundtrip.{record_to_fields-Restored}

-- An item with these fields is read as a form of `r`.
pub record Rendered (json : Text) (name : Bytes) (r : Record) (fields : List ItemField)
    (item : Item) : Type 0 where
  pub form : Record
  pub read : record_from_item json name (merge fields item) ≡ ok form
  pub same : SameRecord r form

fields_by_cases :
    (json : Text) (name : Bytes) (r : Record) (fields : List ItemField) (n : ℕ) (item : Item)
    (v : Result (Unit {0})) (m : Result Bytes)
    → IsCodec json
    → validate_record r ≡ v
    → json.marshal (meta_of r) ≡ m
    → record_to_fields json r ≡ ok (fields, n)
    → Rendered json name r fields item
unfolding record_to_fields encode_meta
fields_by_cases json name r fields n item (err e) m codec p q h =
    let bad : record_to_fields json r ≡ err e = rw p refl in absurd (cc (bad, h))
fields_by_cases json name r fields n item (ok u) (err e) codec p q h =
    let bad : record_to_fields json r ≡ err (wrap (text "encoding ts1p-meta") e) = rw (p, q) refl in
    absurd (cc (bad, h))
fields_by_cases json name r fields n item (ok u) (ok s) codec p q h =
    let (m, back, same) = codec.reads (meta_of r) s q in
    let rest = record_to_fields-Restored json name r item s m p q back same in
    let fields_are : rest.fields ≡ fields = cc (rest.rendered, h) in
    record {
      form = rest.loaded;
      read =
          subst (λ fs. record_from_item json name (merge fs item) ≡ ok rest.loaded) fields_are
            rest.read;
      same = rest.same;
    }

pub record_to_fields-Rendered :
    (json : Text) (name : Bytes) (r : Record) (fields : List ItemField) (n : ℕ)
    → IsCodec json
    → record_to_fields json r ≡ ok (fields, n)
    → (item : Item) → Rendered json name r fields item
record_to_fields-Rendered json name r fields n codec h item =
    fields_by_cases json name r fields n item (validate_record r) (json.marshal (meta_of r)) codec
      refl refl h
