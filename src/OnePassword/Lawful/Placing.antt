-- ===== src/OnePassword/Lawful/Placing.antt =====
-- backend/onepassword/onepassword.go: the state of the backend after an item was put or made.
use ts1p.Prelude.{
  ◌≡◌, refl, sym, subst, ap, ◌∙◌, ◌⊎◌, inl, inr, true, false, Bool-cases, none, some, [],
  if◌then◌else◌, Bytes, bytes_eq, bytes_eq_iff, bytes_eq_refl, bytes_eq_eq, Map, lookup, put,
  lookup-put, arith,
}
use ts1p.Errors.{ok}
use ts1p.Backend.{Record, SameRecord, Stored}
use ts1p.OnePassword.{Items, OnePassword}
use ts1p.OnePassword.Fields.{Text, Item, record_from_item}
use ts1p.OnePassword.Vault.{IsVault}
use ts1p.OnePassword.Lawful.{Owned, IsRight, at-Owned}
use ts1p.OnePassword.Lawful.Loading.{view, read_at, shown}

module _ {V : Type 0} (items : Items V) (json : Text) (law : IsVault items) where
  open law use {Plain, at, used}

  -- The vault `w` is that of `s` with `item` for the title, and the item is read as a form of `r`.
  pub record Placed (s : OnePassword V) (name : Bytes) (item : Item) (r : Record) (w : V)
      : Type 0 where
    pub plain : Plain w
    pub titled : bytes_eq name [] ≡ false
    pub there : (k : Bytes) → at w k ≡ (if bytes_eq name k then some item else at s.vault k)
    pub kept : (id : Bytes) → used s.vault id ≡ true → used w id ≡ true
    pub form : Record
    pub read : record_from_item json name item ≡ ok form
    pub same : SameRecord r form

  module _ (s : OnePassword V) (name : Bytes) (item : Item) (r : Record) (w : V)
      (p : Placed s name item r w) where
    pub Placed-Stored :
        (ids : Map Bytes Bytes)
        → Stored
            (view items json law s)
            name
            r
            (view items json law (record { vault = w; ids = ids }))
    unfolding view read_at shown
    Placed-Stored ids = record {
      form = p.form;
      same = p.same;
      written = λ k. elim (Bool-cases (bytes_eq name k)) [
        | inl e ↦ rw (p.there k, e, sym ((bytes_eq_iff name k).0 e), p.read) refl
        | inr e ↦ rw (p.there k, e) refl
      ];
    }

    at_name : at w name ≡ some item
    at_name = p.there name ∙ (rw (bytes_eq_refl name) refl)

    elsewhere : (k : Bytes) → bytes_eq name k ≡ false → at w k ≡ at s.vault k
    elsewhere k n = p.there k ∙ (rw n refl)

    -- An item of the new vault is the one put or one from before.
    which :
        (k : Bytes) (i : Item)
        → at w k ≡ some i
        → ((name ≡ k) × (i ≡ item)) ⊎ ((bytes_eq name k ≡ false) × (at s.vault k ≡ some i))
    which k i e = elim (Bool-cases (bytes_eq name k)) [
      | inl q ↦ inl ((bytes_eq_iff name k).0 q, ground (arith, p.there k, e, q))
      | inr q ↦ inr (q, ground (arith, p.there k, e, q))
    ]

    Placed-IsRight :
        (ids : Map Bytes Bytes)
        → IsRight items json law s
        → ((k id : Bytes) → lookup k ids ≡ some id → Owned items json law w k id)
        → IsRight items json law (record { vault = w; ids = ids })
    Placed-IsRight ids h m = record {
      plain = p.plain;
      readable = λ k i e. elim (which k i e) [
        | inl (q, o) ↦ (
          p.form,
          subst (λ l. record_from_item json l i ≡ ok p.form) q
              (ap (record_from_item json name) o ∙ p.read),
        )
        | inr (q, o) ↦ h.readable k i o
      ];
      named = p.there [] ∙ (rw (p.titled) h.named);
      memo = m;
    }

    -- The item keeps the ID of the one that it replaces.
    pub replaced-IsRight :
        (old : Item)
        → IsRight items json law s
        → at s.vault name ≡ some old
        → old.id ≡ item.id
        → IsRight items json law (record { vault = w; ids = s.ids })
    replaced-IsRight old h e o = Placed-IsRight s.ids h (λ k id q. still k id (h.memo k id q))
      where
        still : (k id : Bytes) → Owned items json law s.vault k id → Owned items json law w k id
        still k id own = record {
          known = p.kept id own.known;
          its = λ i q. elim (which k i q) [
            | inl (a, b) ↦
                ap (λ (x : Item). x.id) b
                ∙ sym o
                ∙ own.its old (subst (λ l. at s.vault l ≡ some old) a e)
            | inr (a, b) ↦ own.its i b
          ];
          only = λ l i q d. elim (which l i q) [
            | inl (a, b) ↦ sym a ∙ own.only name old e (o ∙ ap (λ (x : Item). x.id) (sym b) ∙ d)
            | inr (a, b) ↦ own.only l i b d
          ];
        }

    -- The item is new, with an ID that was never used.
    new-Owned :
        (k id : Bytes)
        → used s.vault item.id ≡ false
        → bytes_eq name k ≡ false
        → Owned items json law s.vault k id
        → Owned items json law w k id
    new-Owned k id f n own = record {
      known = p.kept id own.known;
      its = λ i q. own.its i (sym (elsewhere k n) ∙ q);
      only = λ l i q d. elim (which l i q) [
        | inl (a, b) ↦ absurd (cc (f, own.known, ap (λ (x : Item). x.id) b, d))
        | inr (a, b) ↦ own.only l i b d
      ];
    }

    not_name :
        (ids : Map Bytes Bytes) (k id : Bytes)
        → lookup name ids ≡ none
        → lookup k ids ≡ some id
        → bytes_eq name k ≡ false
    not_name ids k id e q = elim (Bool-cases (bytes_eq name k)) [
      | inl b ↦ absurd (cc (ap (λ l. lookup l ids) ((bytes_eq_iff name k).0 b), e, q))
      | inr b ↦ b
    ]

    -- A request that failed made it.
    pub torn-IsRight :
        IsRight items json law s
        → used s.vault item.id ≡ false
        → lookup name s.ids ≡ none
        → IsRight items json law (record { vault = w; ids = s.ids })
    torn-IsRight h f e =
        Placed-IsRight s.ids h
          (λ k id q. new-Owned k id f (not_name s.ids k id e q) (h.memo k id q))

    pub made-IsRight :
        IsRight items json law s
        → used s.vault item.id ≡ false
        → IsRight items json law (record { vault = w; ids = put name item.id s.ids })
    made-IsRight h f = Placed-IsRight _ h memo
      where
        memo :
            (k id : Bytes)
            → lookup k (put name item.id s.ids) ≡ some id
            → Owned items json law w k id
        memo k id q = elim (Bool-cases (bytes_eq name k)) [
          | inl b ↦
              let id_is : item.id ≡ id = ground (arith, lookup-put name k item.id s.ids, q, b) in
              subst (λ l. Owned items json law w l id) ((bytes_eq_iff name k).0 b)
                (subst (Owned items json law w name) id_is
                  (at-Owned items json law w name item p.plain at_name))
          | inr b ↦
              new-Owned k id f b
                (h.memo k id (ground (arith, lookup-put name k item.id s.ids, q, b)))
        ]
