-- ===== src/Cache/Passing.antt =====
-- backend/cache/cache.go over any lawful backend: what the cache passes on of the inner backend.
use ts1p.Prelude.{
  ◌≡◌, refl, sym, subst, ap, ◌∙◌, false, Option, none, some, List, Bytes, bytes_eq_eq, arith,
}
use ts1p.Errors.{Error, Sentinel, is, Result, ok, err}
use ts1p.Backend.{Record, Context, without_cancel, Backend, IsLawful, Unchanged}
use ts1p.Cache.Eviction.{Lru, IsLru}
use ts1p.Cache.Timing.{Config}
use ts1p.Cache.{Cache, answer, saved, deleted, remove, add_entry}
use ts1p.Cache.Reading.{inner-fetch, fetch-err}
use ts1p.Cache.Loading
use ts1p.Cache.Loading.{load-Way}
use ts1p.Cache.Listing
use ts1p.Cache.Listing.{list-Way, inner-fetch_names}

module _ {S L : Type 0} (inner : Backend S) (lru : Lru L) (cfg : Config) (good : IsLru lru)
    (law : IsLawful inner) where
  open law use {view}

  pub Way-view :
      (ctx : Context) (name : Bytes) (c : Cache S L) (x : Result Record × Cache S L)
      → Loading.Way inner lru cfg good ctx name c x
      → Unchanged (view c.inner) (view x.1.inner)
  Way-view ctx name c x (Loading.Way.by_fetch d t e) k =
      ap (λ (y : Result Record × Cache S L). view y.1.inner k) e
      ∙ ap (λ s. view s k) (inner-fetch inner lru cfg good ctx name d)
      ∙ law.load_view (without_cancel ctx) name d.inner k
      ∙ ap (λ s. view s k) t.same_inner
  Way-view ctx name c x (Loading.Way.by_entry d y t p q e) k =
      ap (λ (y : Result Record × Cache S L). view y.1.inner k) e ∙ ap (λ s. view s k) t.same_inner

  pub ListWay-view :
      (ctx : Context) (c : Cache S L) (x : Result (List Bytes) × Cache S L)
      → Listing.ListWay inner lru cfg good ctx c x
      → Unchanged (view c.inner) (view x.1.inner)
  ListWay-view ctx c x (Listing.ListWay.by_fetch d t e) k =
      ap (λ (y : Result (List Bytes) × Cache S L). view y.1.inner k) e
      ∙ ap (λ s. view s k) (inner-fetch_names inner lru cfg good ctx d)
      ∙ law.list_view (without_cancel ctx) d.inner k
      ∙ ap (λ s. view s k) t.same_inner
  ListWay-view ctx c x (Listing.ListWay.by_entry d n t p q e) k =
      ap (λ (y : Result (List Bytes) × Cache S L). view y.1.inner k) e
      ∙ ap (λ s. view s k) t.same_inner

  answer-not_api :
      (o : Option Record) (e : Error)
      → answer inner lru cfg o ≡ err e
      → is e Sentinel.api_not_found ≡ false
  unfolding answer
  answer-not_api none e h = ground arith
  answer-not_api (some r) e h = absurd (cc)

  pub Way-not_api :
      (ctx : Context) (name : Bytes) (c : Cache S L) (x : Result Record × Cache S L) (e : Error)
      → Loading.Way inner lru cfg good ctx name c x
      → law.Inv c.inner
      → x.0 ≡ err e
      → is e Sentinel.api_not_found ≡ false
  Way-not_api ctx name c x f (Loading.Way.by_fetch d t e) i h =
      law.load_api (without_cancel ctx) name d.inner f (subst law.Inv (sym t.same_inner) i) (
        fetch-err inner lru cfg good (view d.inner) ctx name d f
          (sym (ap (λ (y : Result Record × Cache S L). y.0) e) ∙ h))
  Way-not_api ctx name c x f (Loading.Way.by_entry d y t p q e) i h =
      answer-not_api y.val f (sym (ap (λ (y : Result Record × Cache S L). y.0) e) ∙ h)

  module _ (name : Bytes) (r : Record) (c : Cache S L) where
    pub saved-ok : (p : Result (Unit {0}) × S) → (saved inner lru cfg name r c p).0 ≡ p.0
    unfolding saved
    saved-ok (ok tt, s) = refl
    saved-ok (err e, s) = refl

    pub saved-inner : (p : Result (Unit {0}) × S) → (saved inner lru cfg name r c p).1.inner ≡ p.1
    unfolding saved add_entry
    saved-inner (ok tt, s) = refl
    saved-inner (err e, s) = refl

  module _ (name : Bytes) (c : Cache S L) where
    pub deleted-ok : (p : Result (Unit {0}) × S) → (deleted inner lru cfg name c p).0 ≡ p.0
    unfolding deleted
    deleted-ok (ok tt, s) = refl
    deleted-ok (err e, s) = refl

    pub deleted-inner : (p : Result (Unit {0}) × S) → (deleted inner lru cfg name c p).1.inner ≡ p.1
    unfolding deleted remove
    deleted-inner (ok tt, s) = refl
    deleted-inner (err e, s) = refl
