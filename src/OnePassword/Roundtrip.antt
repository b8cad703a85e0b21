-- ===== src/OnePassword/Roundtrip.antt =====
-- backend/onepassword/onepassword.go: what Save writes into an item, and what Load reads from it.
use ts1p.Prelude.{
  ℕ, ◌≡◌, refl, sym, ap, is_some, ltb, ◌∙◌, Bool, true, ◌||◌, none, some, List, [], ◌∷◌, ◌++◌,
  if◌then◌else◌, Bytes, bytes_eq, bytes_eq_eq, nat_eq, nat_ord, Map, keys, lookup, has_key, put,
  contains, lookup-put, contains-keys, contains-sort, length, arith,
}
use ts1p.Errors.{ok}
use ts1p.Backend.{Record, SameRecord, is_claimed, deleted_set}
use ts1p.OnePassword.Fields.{
  Item, ItemField, Text, Meta, meta_of, meta_field, value_field, managed, deleted_from, deleted_of,
  versions_of, record_of, validate_record, encode_meta, decode_meta, record_to_fields,
  record_from_fields, record_from_item, is_managed_field, keep_others, merge, human_value,
}
use ts1p.OnePassword.Validity.{
  SameMeta, IsWithin, validate_record-IsWithin, IsWithin-validate_record,
}

has_key-deleted_from :
    (v : ℕ) (vs : List ℕ) (m : Map ℕ (Unit {0}))
    → has_key v (deleted_from vs m) ≡ (contains v vs || has_key v m)
unfolding deleted_from contains
has_key-deleted_from v [] m = refl
has_key-deleted_from v (w ∷ vs) m =
    ground (arith, has_key-deleted_from v vs (put w tt m), lookup-put w v tt m)

has_key-deleted_of :
    (v : ℕ) (vs : List ℕ)
    → has_key v (elim (deleted_of vs) [ none ↦ [] | some m ↦ m ]) ≡ contains v vs
unfolding deleted_of contains lookup
has_key-deleted_of v [] = refl
has_key-deleted_of v (w ∷ vs) = has_key-deleted_from v (w ∷ vs) [] ∙ ground arith

module _ (json : Text) (name : Bytes) where
  -- A field that is kept is none that is read.
  record_from_fields-others :
      (fs gs : List ItemField)
      → record_from_fields json name (keep_others fs ++ gs) ≡ record_from_fields json name gs
  unfolding record_from_fields keep_others is_managed_field
  record_from_fields-others [] gs = refl
  record_from_fields-others (f ∷ fs) gs = ground (arith, record_from_fields-others fs gs)

  -- The two managed fields are read as the text of the second, whatever the item holds besides.
  record_from_item-merge :
      (item : Item) (v m : Bytes)
      → record_from_item json name
          (merge (managed json value_field v ∷ managed json meta_field m ∷ []) item)
        ≡ decode_meta json name m
  unfolding record_from_item record_from_fields bytes_eq
  record_from_item-merge item v m = record_from_fields-others item.fields _

  record_of-same :
      (r : Record) (m : Meta) → SameMeta (meta_of r) m → SameRecord r (record_of name m)
  unfolding record_of versions_of is_claimed
  record_of-same r m h = record {
    versions = h.versions;
    active = h.active;
    latest = h.latest;
    claimed = λ v.
        claimed_by (has_key v (versions_of m.versions)) (has_key v r.versions) _ _
          (ap is_some (h.versions v))
          (has_key-deleted_of v m.deleted
            ∙ h.deleted v
            ∙ contains-sort v (keys (deleted_set r))
            ∙ contains-keys v (deleted_set r));
  }
    where
      claimed_by :
          (a b c d : Bool) → a ≡ b → c ≡ d → (if a then true else c) ≡ (if b then true else d)
      claimed_by a b c d p q = cc

  SameRecord-validate_record :
      (r t : Record) → SameRecord r t → validate_record r ≡ ok tt → validate_record t ≡ ok tt
  SameRecord-validate_record r t h e =
      IsWithin-validate_record t
        (λ v p. within v (validate_record-IsWithin r e v (sym (ap is_some (h.versions v)) ∙ p)))
    where
      within : (v : ℕ) → IsWithin r v → IsWithin t v
      within v w = record {
        has_active =
            ap (λ k. has_key k t.versions) h.active
            ∙ ap is_some (h.versions r.active)
            ∙ w.has_active;
        below = ap (λ n. ltb n v) h.latest ∙ w.below;
      }

  decode_meta-of :
      (r : Record) (m : Meta) (s : Bytes)
      → json.unmarshal s ≡ ok m
      → SameMeta (meta_of r) m
      → validate_record r ≡ ok tt
      → decode_meta json name s ≡ ok (record_of name m)
  unfolding decode_meta
  decode_meta-of r m s u h v =
      let w = SameRecord-validate_record r (record_of name m) (record_of-same r m h) v in
      rw (u, w) refl

  -- What Save writes for `r` over the fields of `item`, and what a read of it gives.
  pub record Restored (r : Record) (item : Item) : Type 0 where
    pub fields : List ItemField
    pub size : ℕ
    pub rendered : record_to_fields json r ≡ ok (fields, size)
    pub loaded : Record
    pub read : record_from_item json name (merge fields item) ≡ ok loaded
    pub same : SameRecord r loaded

  -- If a record is valid and JSON reads back what it wrote for it, up to the order of the maps, then Save
  -- has fields for the record, and the item in which they replaced the managed fields, with whatever
  -- fields others added, is read as a record of the same versions, active and latest version, with the
  -- same versions claimed.
  pub record_to_fields-Restored :
      (r : Record) (item : Item) (s : Bytes) (m : Meta)
      → validate_record r ≡ ok tt
      → json.marshal (meta_of r) ≡ ok s
      → json.unmarshal s ≡ ok m
      → SameMeta (meta_of r) m
      → Restored r item
  unfolding record_to_fields encode_meta
  record_to_fields-Restored r item s m v w u h = record {
    fields = managed json value_field (human_value json r) ∷ managed json meta_field s ∷ [];
    size = length s;
    rendered = rw (v, w);
    loaded = record_of name m;
    read = record_from_item-merge item (human_value json r) s ∙ decode_meta-of r m s u h v;
    same = record_of-same r m h;
  }
