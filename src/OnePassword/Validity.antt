-- ===== src/OnePassword/Validity.antt =====
-- backend/onepassword/onepassword.go: what validateRecord demands of the versions, and the JSON codec.
use ts1p.Prelude.{
  ℕ, ◌≡◌, refl, sym, ap, ◌∙◌, inl, inr, true, false, Bool-cases, List, [], ◌∷◌, ltb, eqb, Bytes,
  nat_eq, Map, keys, lookup, has_key, contains, contains-keys, arith,
}
use ts1p.Errors.{ok}
use ts1p.Backend.{Record}
use ts1p.OnePassword.Fields.{Text, Meta, exceeds, validate_versions, validate_record, versions_of}

-- The active version is there and no version is above the latest.
pub record IsWithin (r : Record) (v : ℕ) : Type 0 where
  pub has_active : has_key r.active r.versions ≡ true
  pub below : ltb r.latest v ≡ false

exceeds-false :
    (latest : ℕ) (vs : List ℕ)
    → exceeds latest vs ≡ false
    → (v : ℕ) → contains v vs ≡ true
    → ltb latest v ≡ false
unfolding exceeds contains
exceeds-false latest [] e v h = absurd (cc)
exceeds-false latest (w ∷ vs) e v h = elim (Bool-cases (eqb w v)) [
  | inl p ↦ ground arith
  | inr p ↦ exceeds-false latest vs (ground arith) v (ground arith)
]

exceeds-none :
    (latest : ℕ) (vs : List ℕ)
    → ((v : ℕ) → contains v vs ≡ true → ltb latest v ≡ false)
    → exceeds latest vs ≡ false
unfolding exceeds contains
exceeds-none latest [] h = refl
exceeds-none latest (w ∷ vs) h =
    let here : ltb latest w ≡ false = h w (ground arith) in
    rw (here, exceeds) (exceeds-none latest vs (λ v e. h v (ground arith)))

validate_versions-IsWithin :
    (r : Record) (m : Map ℕ Bytes) (v : ℕ)
    → validate_versions r m ≡ ok tt
    → has_key v m ≡ true
    → has_key v r.versions ≡ true
    → IsWithin r v
unfolding validate_versions lookup
validate_versions-IsWithin r [] v e h g = absurd (cc)
validate_versions-IsWithin r (p ∷ ps) v e h g = record {
  has_active = ground (arith, e);
  below =
      exceeds-false r.latest (keys r.versions) (ground (arith, e)) v
        (contains-keys v r.versions ∙ g);
}

pub validate_record-IsWithin :
    (r : Record) → validate_record r ≡ ok tt → (v : ℕ) → has_key v r.versions ≡ true → IsWithin r v
unfolding validate_record
validate_record-IsWithin r e v h = validate_versions-IsWithin r r.versions v e h h

IsWithin-validate_versions :
    (r : Record) (m : Map ℕ Bytes)
    → r.versions ≡ m
    → ((v : ℕ) → has_key v r.versions ≡ true → IsWithin r v)
    → validate_versions r m ≡ ok tt
unfolding validate_versions lookup
IsWithin-validate_versions r [] e h = refl
IsWithin-validate_versions r ((v, s) ∷ ps) e h =
    let within = h v (ap (has_key v) e ∙ (ground arith)) in
    let below =
      exceeds-none r.latest (keys r.versions)
        (λ w p. (h w (sym (contains-keys w r.versions) ∙ p)).below) in
    rw (within.has_active, below) refl

pub IsWithin-validate_record :
    (r : Record)
    → ((v : ℕ) → has_key v r.versions ≡ true → IsWithin r v)
    → validate_record r ≡ ok tt
unfolding validate_record
IsWithin-validate_record r h = IsWithin-validate_versions r r.versions refl h

-- Two forms of what is written as JSON: maps by their entries, and the deleted versions as a set.
pub record SameMeta (m n : Meta) : Type 0 where
  pub active : n.active ≡ m.active
  pub latest : n.latest ≡ m.latest
  pub versions : (v : ℕ) → lookup v (versions_of n.versions) ≡ lookup v (versions_of m.versions)
  pub deleted : (v : ℕ) → contains v n.deleted ≡ contains v m.deleted

-- encoding/json at this type: what is written is read back.
pub record IsCodec (json : Text) : Type 0 where
  pub reads :
      (m : Meta) (s : Bytes)
      → json.marshal m ≡ ok s
      → (n : Meta) × (json.unmarshal s ≡ ok n) × SameMeta m n
