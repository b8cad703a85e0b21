-- ===== src/OnePassword/Lawful/Listing.antt =====
-- backend/onepassword/onepassword.go: List over a vault that is the backend's own.
use ts1p.Prelude.{◌≡◌, refl, ◌∙◌, Option, none, some, List, Bytes, bytes_eq_eq, contains, is_some}
use ts1p.Errors.{Result, ok, err}
use ts1p.Exec.{continue}
use ts1p.Backend.{Record, Context}
use ts1p.OnePassword.{Items, OnePassword, list, overview_titles}
use ts1p.OnePassword.Titles.{Overview, remember_ids}
use ts1p.OnePassword.Fields.{Text, Item}
use ts1p.OnePassword.Vault.{IsVault, Foreign}
use ts1p.OnePassword.Listings.{contains-is_some}
use ts1p.OnePassword.Lawful.{IsRight, IsRight-later}
use ts1p.OnePassword.Lawful.Finding.{IsStill, Listing, listing, listed-IsRight}
use ts1p.OnePassword.Lawful.Loading.{view, read_at, shown}

module _ {V : Type 0} (items : Items V) (json : Text) (law : IsVault items) where
  open law use {Plain, at, used}

  -- What List answers: the names under which a record is held.
  abbrev pub Names : (Bytes → Option Record) → Result (List Bytes) → Type 0
  Names held (ok names) = (k : Bytes) → contains k names ≡ is_some (held k)
  Names held (err e) = Foreign e

  pub record Listed (s : OnePassword V) (x : Result (List Bytes) × OnePassword V) : Type 0 where
    pub still : IsStill items json law s x.1
    pub answer : Names (view items json law s) x.0

  is_some-view :
      (s : OnePassword V) (k : Bytes) (o : Option Item)
      → IsRight items json law s
      → at s.vault k ≡ o
      → is_some o ≡ is_some (view items json law s k)
  unfolding view read_at shown
  is_some-view s k none h e = rw e refl
  is_some-view s k (some item) h e = let (r, p) = h.readable k item e in rw (e, p) refl

  titles-Listed :
      (s : OnePassword V) (r : Result (List Overview)) (w : V)
      → IsRight items json law s
      → Listing items json law s r w
      → Listed s (
          continue
            (λ os t. (ok (overview_titles os), record t { ids = remember_ids os }))
            (r, record s { vault = w }))
  titles-Listed s (err e) w h l = record {
    still = record {
      right = IsRight-later items json law s w h l.plain l.same l.kept;
      same = l.same;
    };
    answer = l.on_err e refl;
  }
  titles-Listed s (ok os) w h l = record {
    still = record { right = listed-IsRight items json law s os w h l; same = l.same };
    answer = λ k.
        contains-is_some k os (at s.vault) (l.on_ok os refl)
        ∙ is_some-view s k (at s.vault k) h refl;
  }

  pub list-Listed_vault :
      (ctx : Context) (s : OnePassword V)
      → IsRight items json law s
      → Listed s (list items json ctx s)
  unfolding list
  list-Listed_vault ctx s h = titles-Listed s _ _ h (listing items json law ctx s h)
