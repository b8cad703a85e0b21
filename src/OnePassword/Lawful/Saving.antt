-- ===== src/OnePassword/Lawful/Saving.antt =====
-- backend/onepassword/onepassword.go: Save over a vault that is the backend's own.
use ts1p.Prelude.{
  ℕ, ◌≡◌, refl, inl, inr, false, Bool-cases, Option, none, some, List, [], ltb, Bytes, bytes_eq,
  bytes_eq_eq, delete,
}
use ts1p.Errors.{Error, Result, ok, err}
use ts1p.Exec.{continue, handle}
use ts1p.Backend.{Record, Context}
use ts1p.OnePassword.{
  Items, OnePassword, unless_gone, update, save_found, save_fields, save, meta_max_bytes,
}
use ts1p.OnePassword.Fields.{Text, Item, ItemField, record_to_fields}
use ts1p.OnePassword.Validity.{IsCodec}
use ts1p.OnePassword.Vault.{IsVault}
use ts1p.OnePassword.Lawful.{IsRight, IsRight-forget}
use ts1p.OnePassword.Lawful.Writing.{Saved, IsFor, unwritten, later_Saved}
use ts1p.OnePassword.Lawful.Making.{create-Saved}
use ts1p.OnePassword.Lawful.Updating.{put-Update, updated-Saved}
use ts1p.OnePassword.Lawful.Rendering.{record_to_fields-Rendered}
use ts1p.OnePassword.Lawful.Finding.{IsStill-refl, Found, resolve_id-Found, find_id-Found}
use ts1p.OnePassword.Lawful.Loading.{Got, get-Got}

module _ {V : Type 0} (items : Items V) (json : Text) (law : IsVault items)
    (codec : IsCodec json) where
  module _ (name : Bytes) (r : Record) (fields : List ItemField)
      (rendered : IsFor json r name fields) (titled : bytes_eq name [] ≡ false) where
    unless_gone-Saved :
        (ctx : Context) (e : Error) (s : OnePassword V) (x : Result (Option Bytes) × OnePassword V)
        → Found items json law s name x
        → Saved items json law s name r (handle (unless_gone items json ctx name fields e) x)
    unfolding unless_gone
    unless_gone-Saved ctx e s (ok none, t) f = later_Saved items json law s t name r _ f.still (
        create-Saved items json law name r fields rendered titled ctx t f.still.right f.answer
          (f.unknown titled refl))
    unless_gone-Saved ctx e s (ok (some id), t) f = unwritten items json law s t name r e f.still
    unless_gone-Saved ctx e s (err g, t) f = unwritten items json law s t name r e f.still

    update-Saved :
        (ctx : Context) (id : Bytes) (s : OnePassword V) (x : Result Item) (w : V)
        → Got items json law s name id x w
        → Saved items json law s name r
            (handle (update items json ctx name fields) (x, record s { vault = w }))
    unfolding update
    update-Saved ctx id s (ok item) w g =
        let t : OnePassword V = record s { vault = w } in
        let e = g.on_ok item refl in
        later_Saved items json law s t name r _ g.still (
          updated-Saved items json law name r fields rendered titled t item _ _ g.still.right e (
            put-Update items json law name r fields rendered titled ctx t item g.still.right e
              (law.title_of w name item g.still.right.plain e)))
    update-Saved ctx id s (err e) w g =
        let t : OnePassword V = record { vault = w; ids = delete name s.ids } in
        let right = IsRight-forget items json law (record s { vault = w }) name g.still.right in
        later_Saved items json law s t name r _ (record { right = right; same = g.still.same })
          (unless_gone-Saved ctx e t _ (resolve_id-Found items json law ctx name t right))

    save_found-Saved :
        (ctx : Context) (s : OnePassword V) (x : Result (Option Bytes) × OnePassword V)
        → Found items json law s name x
        → Saved items json law s name r (continue (save_found items json ctx name fields) x)
    unfolding save_found
    save_found-Saved ctx s (err e, t) f = unwritten items json law s t name r e f.still
    save_found-Saved ctx s (ok none, t) f = later_Saved items json law s t name r _ f.still (
        create-Saved items json law name r fields rendered titled ctx t f.still.right f.answer
          (f.unknown titled refl))
    save_found-Saved ctx s (ok (some id), t) f =
        later_Saved items json law s t name r _ f.still
          (update-Saved ctx id t _ _ (get-Got items json law ctx name id t f.still.right f.answer))

  save_fields-Saved :
      (ctx : Context) (name : Bytes) (r : Record) (s : OnePassword V)
      (x : Result (List ItemField × ℕ))
      → IsRight items json law s
      → bytes_eq name [] ≡ false
      → record_to_fields json r ≡ x
      → Saved items json law s name r (continue (save_fields items json ctx name) (x, s))
  unfolding save_fields
  save_fields-Saved ctx name r s (err e) h n p =
      unwritten items json law s s name r e (IsStill-refl items json law s h)
  save_fields-Saved ctx name r s (ok (fields, n)) h t p = elim (Bool-cases (ltb meta_max_bytes n)) [
    | inl q ↦ rw q (unwritten items json law s s name r _ (IsStill-refl items json law s h))
    | inr q ↦ rw q (
        save_found-Saved name r fields (record_to_fields-Rendered json name r fields n codec p) t
          ctx s _ (find_id-Found items json law ctx name s h))
  ]

  pub save-Saved :
      (ctx : Context) (name : Bytes) (r : Record) (s : OnePassword V)
      → IsRight items json law s
      → Saved items json law s name r (save items json ctx name r s)
  unfolding save
  save-Saved ctx name r s h = elim (Bool-cases (bytes_eq name [])) [
    | inl e ↦ rw e (unwritten items json law s s name r _ (IsStill-refl items json law s h))
    | inr e ↦ rw e (save_fields-Saved ctx name r s (record_to_fields json r) h e refl)
  ]
