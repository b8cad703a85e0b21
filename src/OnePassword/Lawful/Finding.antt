-- ===== src/OnePassword/Lawful/Finding.antt =====
-- backend/onepassword/onepassword.go: resolveID and findID over a vault that is the backend's own.
use ts1p.Prelude.{
  ◌≡◌, refl, ap, ◌∙◌, inl, inr, true, false, Bool-cases, Option, none, some, List, [], Bytes,
  bytes_eq, bytes_eq_iff, bytes_eq_eq, lookup,
}
use ts1p.Errors.{Error, Result, ok, err}
use ts1p.Exec.{continue}
use ts1p.Backend.{Context}
use ts1p.OnePassword.{Items, OnePassword, resolve_id, known, find_id, sole}
use ts1p.OnePassword.Titles.{Overview, remember_ids, titled}
use ts1p.OnePassword.Fields.{Text, Item}
use ts1p.OnePassword.Vault.{IsVault, IsListing, Foreign}
use ts1p.OnePassword.Listings.{counted, titled-counted, id_of, remember_ids-at}
use ts1p.OnePassword.Lawful.{
  Owned, IsRight, IsRight-still, IsRight-later, Owned-later, at-Owned, listed-Owned,
}

module _ {V : Type 0} (items : Items V) (json : Text) (law : IsVault items) where
  open law use {Plain, at, used}

  -- A computation from `s` that left every item.
  pub record IsStill (s t : OnePassword V) : Type 0 where
    pub right : IsRight items json law t
    pub same : (k : Bytes) → at t.vault k ≡ at s.vault k

  pub IsStill-refl : (s : OnePassword V) → IsRight items json law s → IsStill s s
  IsStill-refl s h = record { right = h; same = λ k. refl }

  pub IsStill-trans : (s t u : OnePassword V) → IsStill s t → IsStill t u → IsStill s u
  IsStill-trans s t u a b = record { right = b.right; same = λ k. b.same k ∙ a.same k }

  -- The answer of a search for the ID of the item of a title.
  abbrev pub Answer : V → Bytes → Result (Option Bytes) → Type 0
  Answer v name (ok none) = at v name ≡ none
  Answer v name (ok (some id)) = Owned items json law v name id
  Answer v name (err e) = Foreign e

  pub record Found (s : OnePassword V) (name : Bytes) (x : Result (Option Bytes) × OnePassword V)
      : Type 0 where
    pub still : IsStill s x.1
    pub answer : Answer x.1.vault name x.0
    -- a title that is not found is not in the memo either
    pub unknown : bytes_eq name [] ≡ false → x.0 ≡ ok none → lookup name x.1.ids ≡ none

  -- What the vault promises of a listing.
  pub record Listing (s : OnePassword V) (r : Result (List Overview)) (w : V) : Type 0 where
    pub plain : Plain w
    pub same : (k : Bytes) → at w k ≡ at s.vault k
    pub kept : (id : Bytes) → used s.vault id ≡ true → used w id ≡ true
    pub on_ok : (os : List Overview) → r ≡ ok os → IsListing os (at s.vault)
    pub on_err : (e : Error) → r ≡ err e → Foreign e

  pub listing :
      (ctx : Context) (s : OnePassword V)
      → IsRight items json law s
      → Listing s (items.list_items ctx s.vault).0 (items.list_items ctx s.vault).1
  listing ctx s h = record {
    plain = law.list_plain ctx s.vault h.plain;
    same = λ k. law.list_same ctx s.vault k;
    kept = λ id. law.list_used ctx s.vault id;
    on_ok = λ os. law.list_ok ctx s.vault os h.plain;
    on_err = λ e. law.list_err ctx s.vault e;
  }

  pub listed-IsRight :
      (s : OnePassword V) (os : List Overview) (w : V)
      → IsRight items json law s
      → Listing s (ok os) w
      → IsRight items json law (record { vault = w; ids = remember_ids os })
  listed-IsRight s os w h l =
      IsRight-still items json law s w (remember_ids os) h l.plain l.same (λ k id e.
        Owned-later items json law s.vault w k id l.same (l.kept id)
          (listed-Owned items json law s.vault os h.plain (l.on_ok os refl) k id e))

  counted-Answer :
      (name : Bytes) (s t : OnePassword V)
      → IsRight items json law s
      → IsStill s t
      → ((id : Bytes) → used s.vault id ≡ true → used t.vault id ≡ true)
      → (o : Option Item) → at s.vault name ≡ o
      → lookup name t.ids ≡ id_of o
      → Found s name (sole (counted o) t)
  unfolding sole
  counted-Answer name s t h st old none e m = record {
    still = st;
    answer = st.same name ∙ e;
    unknown = λ p q. m;
  }
  counted-Answer name s t h st old (some item) e m = record {
    still = st;
    answer =
        Owned-later items json law s.vault t.vault name item.id st.same (old item.id)
          (at-Owned items json law s.vault name item h.plain e);
    unknown = λ p q. absurd (cc);
  }

  resolved :
      (name : Bytes) (s : OnePassword V) (r : Result (List Overview)) (w : V)
      → IsRight items json law s
      → Listing s r w
      → Found s name (
          continue
            (λ os t. sole (titled name os) (record t { ids = remember_ids os }))
            (r, record s { vault = w }))
  resolved name s (err e) w h l = record {
    still = record {
      right = IsRight-later items json law s w h l.plain l.same l.kept;
      same = l.same;
    };
    answer = l.on_err e refl;
    unknown = λ p q. absurd (cc);
  }
  resolved name s (ok os) w h l = rw (titled-counted name os (at s.vault) (l.on_ok os refl)) (
      counted-Answer name s (record { vault = w; ids = remember_ids os }) h
        (record { right = listed-IsRight s os w h l; same = l.same }) l.kept (at s.vault name) refl
        (remember_ids-at name os (at s.vault) (l.on_ok os refl)))

  pub resolve_id-Found :
      (ctx : Context) (name : Bytes) (s : OnePassword V)
      → IsRight items json law s
      → Found s name (resolve_id items json ctx name s)
  unfolding resolve_id
  resolve_id-Found ctx name s h = resolved name s _ _ h (listing ctx s h)

  known-Found :
      (ctx : Context) (name : Bytes) (s : OnePassword V) (o : Option Bytes)
      → IsRight items json law s
      → lookup name s.ids ≡ o
      → Found s name (known items json ctx name o s)
  unfolding known
  known-Found ctx name s none h e = resolve_id-Found ctx name s h
  known-Found ctx name s (some id) h e = record {
    still = IsStill-refl s h;
    answer = h.memo name id e;
    unknown = λ p q. absurd (cc);
  }

  pub find_id-Found :
      (ctx : Context) (name : Bytes) (s : OnePassword V)
      → IsRight items json law s
      → Found s name (find_id items json ctx name s)
  unfolding find_id
  find_id-Found ctx name s h = elim (Bool-cases (bytes_eq name [])) [
    | inl e ↦ rw e (record {
      still = IsStill-refl s h;
      answer = ap (at s.vault) ((bytes_eq_iff name []).0 e) ∙ h.named;
      unknown = λ p q. absurd (cc);
    })
    | inr e ↦ rw e (known-Found ctx name s (lookup name s.ids) h refl)
  ]
