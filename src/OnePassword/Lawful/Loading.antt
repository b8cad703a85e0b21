-- ===== src/OnePassword/Lawful/Loading.antt =====
-- backend/onepassword/onepassword.go: Load over a vault that is the backend's own.
use ts1p.Prelude.{
  ◌≡◌, refl, sym, subst, ap, ◌∙◌, inl, inr, true, false, Bool-cases, Option, none, some, Bytes,
  bytes_eq, bytes_eq_eq, delete,
}
use ts1p.Errors.{Error, Sentinel, is, Result, ok, err}
use ts1p.Exec.{continue, handle, lift}
use ts1p.Backend.{Record, Context}
use ts1p.OnePassword.{Items, OnePassword, again, loaded_item, load_found, load}
use ts1p.OnePassword.Fields.{Text, Item, record_from_item}
use ts1p.OnePassword.Vault.{IsVault, Foreign}
use ts1p.OnePassword.Lawful.{Owned, Owned-later, IsRight, IsRight-later, IsRight-forget}
use ts1p.OnePassword.Lawful.Finding.{
  IsStill, IsStill-trans, Answer, Found, resolve_id-Found, find_id-Found,
}

unfoldable pub shown : Result Record → Option Record
shown (ok r) = some r
shown (err e) = none

unfoldable pub read_at : Text → Bytes → Option Item → Option Record
unfolding shown
read_at json k none = none
read_at json k (some item) = shown (record_from_item json k item)

module _ {V : Type 0} (items : Items V) (json : Text) (law : IsVault items) where
  open law use {Plain, at, used}

  -- The record of each name that the vault's items are read as.
  unfoldable pub view : OnePassword V → Bytes → Option Record
  unfolding read_at
  view s k = read_at json k (at s.vault k)

  pub view-same :
      (s t : OnePassword V) (k : Bytes) → at t.vault k ≡ at s.vault k → view t k ≡ view s k
  unfolding view
  view-same s t k e = ap (read_at json k) e

  -- What a request for the item of a title answers.
  abbrev pub Fetch : V → Bytes → Result Item → Type 0
  Fetch v name (ok item) = at v name ≡ some item
  Fetch v name (err e) =
      (is e Sentinel.backend_not_found ≡ true → at v name ≡ none)
      × (is e Sentinel.api_not_found ≡ false)

  record Fetched (s : OnePassword V) (name : Bytes) (x : Result Item × OnePassword V) : Type 0 where
    still : IsStill items json law s x.1
    answer : Fetch x.1.vault name x.0

  Foreign-Fetch : (v : V) (name : Bytes) (e : Error) → Foreign e → Fetch v name (err e)
  Foreign-Fetch v name e h = (λ p. absurd (cc (h.no_backend, p)), h.no_api)

  -- A Get by an ID that is the title's: the item of the title, or an error of the SDK.
  pub record Got (s : OnePassword V) (name id : Bytes) (r : Result Item) (w : V) : Type 0 where
    pub still : IsStill items json law s (record s { vault = w })
    pub owned : Owned items json law w name id
    pub on_ok : (item : Item) → r ≡ ok item → at w name ≡ some item
    pub on_err : (e : Error) → r ≡ err e → Foreign e

  pub get-Got :
      (ctx : Context) (name id : Bytes) (s : OnePassword V)
      → IsRight items json law s
      → Owned items json law s.vault name id
      → Got s name id (items.get_item ctx id s.vault).0 (items.get_item ctx id s.vault).1
  get-Got ctx name id s h o = record {
    still = record {
      right = IsRight-later items json law s _ h (law.get_plain ctx id s.vault h.plain) same kept;
      same = same;
    };
    owned = Owned-later items json law s.vault _ name id same (kept id) o;
    on_ok = λ item e.
        let (there, its) = law.get_ok ctx id s.vault item h.plain e in
        same name ∙ subst (λ k. at s.vault k ≡ some item) (o.only item.title item there its) there;
    on_err = λ e p. law.get_err ctx id s.vault e p;
  }
    where
      same : (k : Bytes) → at (items.get_item ctx id s.vault).1 k ≡ at s.vault k
      same k = law.get_same ctx id s.vault k

      kept : (j : Bytes) → used s.vault j ≡ true → used (items.get_item ctx id s.vault).1 j ≡ true
      kept j = law.get_used ctx id s.vault j

  Got-Fetched :
      (name id : Bytes) (s : OnePassword V) (r : Result Item) (w : V)
      → Got s name id r w
      → Fetched s name (r, record s { vault = w })
  Got-Fetched name id s (ok item) w g = record { still = g.still; answer = g.on_ok item refl }
  Got-Fetched name id s (err e) w g = record {
    still = g.still;
    answer = Foreign-Fetch w name e (g.on_err e refl);
  }

  again-Fetched :
      (ctx : Context) (name id : Bytes) (e : Error) (s t : OnePassword V)
      (r : Result (Option Bytes))
      → Foreign e
      → IsStill items json law s t
      → Answer items json law t.vault name r
      → Fetched s name (continue (again items json ctx name id e) (r, t))
  unfolding again
  again-Fetched ctx name id e s t (err f) foreign st a = record {
    still = st;
    answer = Foreign-Fetch t.vault name f a;
  }
  again-Fetched ctx name id e s t (ok none) foreign st a = record {
    still = st;
    answer = (λ p. a, refl);
  }
  again-Fetched ctx name id e s t (ok (some id2)) foreign st a =
      elim (Bool-cases (bytes_eq id2 id)) [
        | inl p ↦ rw p (record { still = st; answer = Foreign-Fetch t.vault name e foreign })
        | inr p ↦
            let g = Got-Fetched name id2 t _ _ (get-Got ctx name id2 t st.right a) in
            rw p
              (record { still = IsStill-trans items json law s t _ st g.still; answer = g.answer })
      ]

  loaded_item-Fetched :
      (ctx : Context) (name id : Bytes) (s : OnePassword V) (r : Result Item) (w : V)
      → Got s name id r w
      → Fetched s name (handle (loaded_item items json ctx name id) (r, record s { vault = w }))
  unfolding loaded_item
  loaded_item-Fetched ctx name id s (ok item) w g = Got-Fetched name id s (ok item) w g
  loaded_item-Fetched ctx name id s (err e) w g =
      let forgot : OnePassword V = record { vault = w; ids = delete name s.ids } in
      let f =
        resolve_id-Found items json law ctx name forgot
          (IsRight-forget items json law (record s { vault = w }) name g.still.right) in
      again-Fetched ctx name id e s _ _ (g.on_err e refl)
        (IsStill-trans items json law s forgot _
          (record {
            right = IsRight-forget items json law (record s { vault = w }) name g.still.right;
            same = g.still.same;
          })
          f.still)
        f.answer

  -- What Load answers, `o` what is held under the name.
  abbrev pub Reading : Option Record → Result Record → Type 0
  Reading o (ok r) = o ≡ some r
  Reading o (err e) =
      (is e Sentinel.backend_not_found ≡ true → o ≡ none) × (is e Sentinel.api_not_found ≡ false)

  pub record Loaded (s : OnePassword V) (name : Bytes) (x : Result Record × OnePassword V)
      : Type 0 where
    pub still : IsStill items json law s x.1
    pub answer : Reading (view x.1 name) x.0

  read-Loaded :
      (name : Bytes) (s : OnePassword V) (x : Result Item × OnePassword V)
      → Fetched s name x
      → Loaded s name (continue (λ item. lift (record_from_item json name item)) x)
  unfolding view
  read-Loaded name s (ok item, t) f =
      let (r, e) = f.still.right.readable name item f.answer in
      record {
        still = f.still;
        answer =
            subst (Reading (view t name)) (sym e) (ap (read_at json name) f.answer ∙ rw e refl);
      }
  read-Loaded name s (err e, t) f = record {
    still = f.still;
    answer = (λ p. ap (read_at json name) (f.answer.0 p), f.answer.1);
  }

  found-Loaded :
      (ctx : Context) (name : Bytes) (s : OnePassword V) (x : Result (Option Bytes) × OnePassword V)
      → Found items json law s name x
      → Loaded s name (continue (load_found items json ctx name) x)
  unfolding load_found view
  found-Loaded ctx name s (err e, t) f = record {
    still = f.still;
    answer = (λ p. absurd (cc (f.answer.no_backend, p)), f.answer.no_api);
  }
  found-Loaded ctx name s (ok none, t) f = record {
    still = f.still;
    answer = (λ p. ap (read_at json name) f.answer, refl);
  }
  found-Loaded ctx name s (ok (some id), t) f =
      let l =
        read-Loaded name t _
          (loaded_item-Fetched ctx name id t _ _ (get-Got ctx name id t f.still.right f.answer)) in
      record { still = IsStill-trans items json law s t _ f.still l.still; answer = l.answer }

  pub load-Loaded :
      (ctx : Context) (name : Bytes) (s : OnePassword V)
      → IsRight items json law s
      → Loaded s name (load items json ctx name s)
  unfolding load
  load-Loaded ctx name s h = found-Loaded ctx name s _ (find_id-Found items json law ctx name s h)
