-- ===== src/OnePassword/Lawful/Making.antt =====
-- backend/onepassword/onepassword.go: a new item in a vault that is the backend's own.
use ts1p.Prelude.{
  ◌≡◌, refl, ◌⊎◌, inl, inr, true, false, none, some, List, [], if◌then◌else◌, Bytes, bytes_eq,
  bytes_eq_eq, lookup, put,
}
use ts1p.Errors.{Error, Result, ok, err}
use ts1p.Exec.{continue}
use ts1p.Backend.{Record, Context}
use ts1p.OnePassword.{Items, OnePassword, create}
use ts1p.OnePassword.Fields.{Text, ItemField, keep_others}
use ts1p.OnePassword.Vault.{IsVault, created}
use ts1p.OnePassword.Lawful.{IsRight, IsRight-later}
use ts1p.OnePassword.Lawful.Writing.{Saved, IsFor, unwritten}
use ts1p.OnePassword.Lawful.Placing.{Placed, Placed-Stored, torn-IsRight, made-IsRight}

module _ {V : Type 0} (items : Items V) (json : Text) (law : IsVault items) where
  open law use {Plain, at, used}

  -- The vault with the new item.
  abbrev Made : Bytes → List ItemField → V → V → Bytes → Type 0
  Made name fields v w id =
      (used v id ≡ false)
      × ((k : Bytes) → at w k ≡ (if bytes_eq name k then some (created id name fields) else at v k))

  -- What CreateItem answered.
  record Creation (name : Bytes) (fields : List ItemField) (v : V) (r : Result Bytes) (w : V)
      : Type 0 where
    plain : Plain w
    kept : (id : Bytes) → used v id ≡ true → used w id ≡ true
    on_ok : (id : Bytes) → r ≡ ok id → Made name fields v w id
    on_err :
        (e : Error)
        → r ≡ err e
        → ((k : Bytes) → at w k ≡ at v k) ⊎ ((id : Bytes) × Made name fields v w id)

  module _ (name : Bytes) (r : Record) (fields : List ItemField)
      (rendered : IsFor json r name fields) (titled : bytes_eq name [] ≡ false) where
    Made-Placed :
        (s : OnePassword V) (x : Result Bytes) (w : V) (id : Bytes)
        → Creation name fields s.vault x w
        → Made name fields s.vault w id
        → Placed items json law s name (created id name fields) r w
    unfolding keep_others
    Made-Placed s x w id c (fresh, there) =
        let read = rendered (record { id = id; title = name; fields = [] }) in
        record {
          plain = c.plain;
          titled = titled;
          there = there;
          kept = c.kept;
          form = read.form;
          read = read.read;
          same = read.same;
        }

    made-Saved :
        (s : OnePassword V) (x : Result Bytes) (w : V)
        → IsRight items json law s
        → lookup name s.ids ≡ none
        → Creation name fields s.vault x w
        → Saved items json law s name r (
            continue
              (λ id t. (ok tt, record t { ids = put name id t.ids }))
              (x, record s { vault = w }))
    made-Saved s (ok id) w h m c =
        let made = c.on_ok id refl in
        let placed = Made-Placed s (ok id) w id c made in
        record {
          right = made-IsRight items json law s name (created id name fields) r w placed h made.0;
          outcome =
              Placed-Stored items json law s name (created id name fields) r w placed
                (put name id s.ids);
        }
    made-Saved s (err e) w h m c = elim (c.on_err e refl) [
      | inl same ↦
          unwritten items json law s (record s { vault = w }) name r e
            (record { right = IsRight-later items json law s w h c.plain same c.kept; same = same })
      | inr (id, made) ↦
          let placed = Made-Placed s (err e) w id c made in
          record {
            right =
                torn-IsRight items json law s name (created id name fields) r w placed h made.0 m;
            outcome =
                inr (Placed-Stored items json law s name (created id name fields) r w placed s.ids);
          }
    ]

    pub create-Saved :
        (ctx : Context) (s : OnePassword V)
        → IsRight items json law s
        → at s.vault name ≡ none
        → lookup name s.ids ≡ none
        → Saved items json law s name r (create items json ctx name fields s)
    unfolding create
    create-Saved ctx s h e m = made-Saved s _ _ h m (record {
      plain = law.create_plain ctx name fields s.vault e h.plain;
      kept = λ j. law.create_used ctx name fields s.vault j;
      on_ok = λ id. law.create_ok ctx name fields s.vault id h.plain e;
      on_err = λ f p. elim (law.create_err ctx name fields s.vault f h.plain e p) [
        | inl same ↦ inl same
        | inr (id, fresh, there) ↦ inr (id, (fresh, there))
      ];
    })
