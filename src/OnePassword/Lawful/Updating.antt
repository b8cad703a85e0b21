-- ===== src/OnePassword/Lawful/Updating.antt =====
-- backend/onepassword/onepassword.go: an item that Put replaces in a vault that is the backend's own.
use ts1p.Prelude.{
  ◌≡◌, refl, ap, ◌∙◌, ◌⊎◌, inl, inr, true, false, some, List, [], if◌then◌else◌, Bytes, bytes_eq,
  bytes_eq_eq,
}
use ts1p.Errors.{Error, Result, ok, err}
use ts1p.Backend.{Record, Context, Stored}
use ts1p.OnePassword.{Items, OnePassword}
use ts1p.OnePassword.Fields.{Text, Item, ItemField, merge}
use ts1p.OnePassword.Vault.{IsVault}
use ts1p.OnePassword.Lawful.{IsRight, IsRight-later}
use ts1p.OnePassword.Lawful.Writing.{Saved, IsFor, unwritten}
use ts1p.OnePassword.Lawful.Loading.{view}
use ts1p.OnePassword.Lawful.Placing.{Placed, Placed-Stored, replaced-IsRight}

module _ {V : Type 0} (items : Items V) (json : Text) (law : IsVault items) where
  open law use {Plain, at, used}

  module _ (name : Bytes) (r : Record) (fields : List ItemField)
      (rendered : IsFor json r name fields) (titled : bytes_eq name [] ≡ false) where
    -- A Put of the item that a Get answered.
    pub record Update (s : OnePassword V) (item : Item) (x : Result (Unit {0})) (w : V)
        : Type 0 where
      pub plain : Plain w
      pub kept : (id : Bytes) → used s.vault id ≡ true → used w id ≡ true
      pub on_ok :
          x ≡ ok tt
          → (k : Bytes)
          → at w k ≡ (if bytes_eq name k then some (merge fields item) else at s.vault k)
      pub on_err :
          (e : Error)
          → x ≡ err e
          → ((k : Bytes) → at w k ≡ at s.vault k)
            ⊎ ((k : Bytes)
                → at w k ≡ (if bytes_eq name k then some (merge fields item) else at s.vault k))

    pub put-Update :
        (ctx : Context) (s : OnePassword V) (item : Item)
        → IsRight items json law s
        → at s.vault name ≡ some item
        → item.title ≡ name
        → Update s item
            (items.put_item ctx (merge fields item) s.vault).0
            (items.put_item ctx (merge fields item) s.vault).1
    put-Update ctx s item h e t = record {
      plain = law.put_plain ctx new item s.vault there refl h.plain;
      kept = λ j. law.put_used ctx new s.vault j;
      on_ok = λ p k. law.put_ok ctx new item s.vault h.plain there refl p k ∙ moved k;
      on_err = λ f p. elim (law.put_err ctx new item s.vault f h.plain there refl p) [
        | inl same ↦ inl same
        | inr set ↦ inr (λ k. set k ∙ moved k)
      ];
    }
      where
        new : Item
        new = merge fields item

        there : at s.vault item.title ≡ some item
        there = ap (at s.vault) t ∙ e

        moved :
            (k : Bytes)
            → (if bytes_eq item.title k then some (merge fields item) else at s.vault k)
              ≡ (if bytes_eq name k then some (merge fields item) else at s.vault k)
        moved k = ap (λ n. if bytes_eq n k then some (merge fields item) else at s.vault k) t

    pub updated-Saved :
        (s : OnePassword V) (item : Item) (x : Result (Unit {0})) (w : V)
        → IsRight items json law s
        → at s.vault name ≡ some item
        → Update s item x w
        → Saved items json law s name r (x, record s { vault = w })
    updated-Saved s item x w h e u = updated x refl
      where
        placed :
            ((k : Bytes)
              → at w k ≡ (if bytes_eq name k then some (merge fields item) else at s.vault k))
            → Placed items json law s name (merge fields item) r w
        placed there =
            let read = rendered item in
            record {
              plain = u.plain;
              titled = titled;
              there = there;
              kept = u.kept;
              form = read.form;
              read = read.read;
              same = read.same;
            }

        right :
            Placed items json law s name (merge fields item) r w
            → IsRight items json law (record s { vault = w })
        right p = replaced-IsRight items json law s name (merge fields item) r w p item h e refl

        stored :
            Placed items json law s name (merge fields item) r w
            → Stored (view items json law s) name r (view items json law (record s { vault = w }))
        stored p = Placed-Stored items json law s name (merge fields item) r w p s.ids

        updated :
            (y : Result (Unit {0}))
            → x ≡ y
            → Saved items json law s name r (y, record s { vault = w })
        updated (ok a) q =
            let p = placed (u.on_ok q) in record { right = right p; outcome = stored p }
        updated (err f) q = elim (u.on_err f q) [
          | inl same ↦
              unwritten items json law s (record s { vault = w }) name r f
                (record {
                  right = IsRight-later items json law s w h u.plain same u.kept;
                  same = same;
                })
          | inr there ↦ let p = placed there in record { right = right p; outcome = inr (stored p) }
        ]
