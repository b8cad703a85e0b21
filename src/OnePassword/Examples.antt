-- ===== src/OnePassword/Examples.antt =====
-- backend/onepassword/onepassword.go: one record and one vault.
use ts1p.Prelude.{
  refl, true, false, some, [], ◌∷◌, Bytes, bytes_eq_eq, lookup, text, nat_eq, sort, keys,
}
use ts1p.Errors.{ok}
use ts1p.Backend.{Record}
use ts1p.OnePassword.Fields.{Item, Text, Meta, validate_record, versions_of}
use ts1p.OnePassword.Roundtrip.{Restored, record_to_fields-Restored}

abbrev db : Bytes
db = text "db"

-- A version that is held and one that was deleted.
abbrev db_record : Record
db_record = record {
  name = db;
  versions = (2, text "two") ∷ [];
  active = 2;
  latest = 2;
  deleted = some ((1, tt) ∷ []);
}

abbrev db_meta : Meta
db_meta = record {
  active = 2;
  latest = 2;
  versions = some ((2, text "two") ∷ []);
  deleted = 1 ∷ [];
}

-- A codec for this one record.
abbrev codec : Text
codec = record { marshal = λ m. ok (text "{}"); unmarshal = λ s. ok db_meta; valid = λ s. true }

-- An item to which someone added a note.
abbrev noted : Item
noted = record {
  id = text "i1";
  title = db;
  fields =
      record { id = text "note"; title = text "note"; concealed = false; value = text "mine" } ∷ [];
}

record_to_fields-Restored_example : Restored codec db db_record noted
unfolding validate_record lookup sort keys versions_of
record_to_fields-Restored_example =
    record_to_fields-Restored codec db db_record noted (text "{}") db_meta refl refl refl
      (record { active = refl; latest = refl; versions = λ v. refl; deleted = λ v. refl })
