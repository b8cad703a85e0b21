-- ===== src/Cache/Forced.antt =====
-- backend/cache/cache.go over any lawful backend, also one that others write to: what a forced read asks,
-- and the cache as an instance of the contract.
use ts1p.Prelude.{◌≡◌, refl, sym, subst, ap, ◌∙◌, ◌⊎◌, true, none, List, Bytes, bytes_eq_eq}
use ts1p.Errors.{Result, ok, err}
use ts1p.Backend.{
  Record, Context, clone-id, without_cancel, force_refresh, Backend, IsLawful, Unchanged, Written,
  Stored,
}
use ts1p.Cache
use ts1p.Cache.Eviction.{Lru, IsLru}
use ts1p.Cache.Timing.{Config}
use ts1p.Cache.{
  Cache, fill, fill_names, settle, settle_names, clone_names, fetch, load, save, saved, delete,
  deleted, list, fetch_names,
}
use ts1p.Cache.Entries.{clone_names-id}
use ts1p.Cache.Reading.{inner-fetch}
use ts1p.Cache.Loading
use ts1p.Cache.Loading.{load-Way}
use ts1p.Cache.Listing
use ts1p.Cache.Listing.{list-Way, inner-fetch_names}
use ts1p.Cache.Passing.{
  Way-view, ListWay-view, Way-not_api, saved-ok, saved-inner, deleted-ok, deleted-inner,
}

module _ {S L : Type 0} (inner : Backend S) (lru : Lru L) (cfg : Config) (good : IsLru lru)
    (law : IsLawful inner) where
  open law use {view, Inv}

  settle-forced :
      (name : Bytes) (x : Result Record × Cache S L) → (settle inner lru cfg true name x).0 ≡ x.0
  unfolding settle
  settle-forced name (ok r, c) = ap ok (clone-id r)
  settle-forced name (err e, c) = refl

  fill-answer :
      (name : Bytes) (c : Cache S L) (x : Result Record × S)
      → (fill inner lru cfg name c.seq c x).0 ≡ x.0
  unfolding fill
  fill-answer name c (ok r, s) = refl
  fill-answer name c (err e, s) = refl

  -- A forced read answers what the inner backend answers.
  pub load-forced :
      (ctx : Context) (name : Bytes) (c : Cache S L)
      → force_refresh ctx ≡ true
      → (load inner lru cfg ctx name c).0 ≡ (inner.load (without_cancel ctx) name c.inner).0
  unfolding load fetch
  load-forced ctx name c h = rw h (settle-forced name _ ∙ fill-answer name c _)

  settle_names-forced :
      (x : Result (List Bytes) × Cache S L) → (settle_names inner lru cfg true x).0 ≡ x.0
  unfolding settle_names
  settle_names-forced (ok ns, c) = ap ok (clone_names-id ns)
  settle_names-forced (err e, c) = refl

  fill_names-answer :
      (c : Cache S L) (x : Result (List Bytes) × S) → (fill_names inner lru cfg c.seq c x).0 ≡ x.0
  unfolding fill_names
  fill_names-answer c (ok ns, s) = refl
  fill_names-answer c (err e, s) = refl

  pub list-forced :
      (ctx : Context) (c : Cache S L)
      → force_refresh ctx ≡ true
      → (list inner lru cfg ctx c).0 ≡ (inner.list (without_cancel ctx) c.inner).0
  unfolding list fetch_names
  list-forced ctx c h = rw h (settle_names-forced _ ∙ fill_names-answer c _)

  pub current_inner :
      (ctx : Context) → force_refresh ctx ≡ true → law.current (without_cancel ctx) ≡ true
  unfolding force_refresh without_cancel
  current_inner ctx h = law.current_of_force (without_cancel ctx) h

  pub Way-inv :
      (ctx : Context) (name : Bytes) (c : Cache S L) (x : Result Record × Cache S L)
      → Loading.Way inner lru cfg good ctx name c x
      → Inv c.inner
      → Inv x.1.inner
  Way-inv ctx name c x (Loading.Way.by_fetch d t e) h =
      subst (λ (y : Result Record × Cache S L). Inv y.1.inner) (sym e)
        (subst Inv (sym (inner-fetch inner lru cfg good ctx name d))
          (law.load_inv (without_cancel ctx) name d.inner (subst Inv (sym t.same_inner) h)))
  Way-inv ctx name c x (Loading.Way.by_entry d y t p q e) h =
      subst (λ (y : Result Record × Cache S L). Inv y.1.inner) (sym e)
        (subst Inv (sym t.same_inner) h)

  pub ListWay-inv :
      (ctx : Context) (c : Cache S L) (x : Result (List Bytes) × Cache S L)
      → Listing.ListWay inner lru cfg good ctx c x
      → Inv c.inner
      → Inv x.1.inner
  ListWay-inv ctx c x (Listing.ListWay.by_fetch d t e) h =
      subst (λ (y : Result (List Bytes) × Cache S L). Inv y.1.inner) (sym e)
        (subst Inv (sym (inner-fetch_names inner lru cfg good ctx d))
          (law.list_inv (without_cancel ctx) d.inner (subst Inv (sym t.same_inner) h)))
  ListWay-inv ctx c x (Listing.ListWay.by_entry d n t p q e) h =
      subst (λ (y : Result (List Bytes) × Cache S L). Inv y.1.inner) (sym e)
        (subst Inv (sym t.same_inner) h)

  unfoldable pub forced-IsLawful : IsLawful (Cache.backend inner lru cfg)
  unfolding save delete force_refresh
  forced-IsLawful = record {
    Inv = λ c. Inv c.inner;
    view = λ c. view c.inner;
    current = force_refresh;
    current_of_force = λ ctx h. h;
    load_inv = λ ctx n c h. Way-inv ctx n c _ (load-Way inner lru cfg good ctx n c) h;
    save_inv = λ ctx n r c h.
        subst Inv (sym (saved-inner inner lru cfg good law n r c _))
          (law.save_inv ctx n r c.inner h);
    list_inv = λ ctx c h. ListWay-inv ctx c _ (list-Way inner lru cfg good ctx c) h;
    delete_inv = λ ctx n c h.
        subst Inv (sym (deleted-inner inner lru cfg good law n c _))
          (law.delete_inv ctx n c.inner h);
    load_view =
        λ ctx n c. Way-view inner lru cfg good law ctx n c _ (load-Way inner lru cfg good ctx n c);
    list_view =
        λ ctx c. ListWay-view inner lru cfg good law ctx c _ (list-Way inner lru cfg good ctx c);
    load_ok = λ ctx n c r i h e.
        law.load_ok (without_cancel ctx) n c.inner r i (current_inner ctx h)
          (sym (load-forced ctx n c h) ∙ e);
    load_not_found = λ ctx n c e i h p q.
        law.load_not_found (without_cancel ctx) n c.inner e i (current_inner ctx h)
          (sym (load-forced ctx n c h) ∙ p) q;
    load_api = λ ctx n c e i p.
        Way-not_api inner lru cfg good law ctx n c _ e (load-Way inner lru cfg good ctx n c) i p;
    save_ok = λ ctx n r c i e.
        subst (λ s. Stored (view c.inner) n r (view s))
          (sym (saved-inner inner lru cfg good law n r c _))
          (law.save_ok ctx n r c.inner i (sym (saved-ok inner lru cfg good law n r c _) ∙ e));
    save_err = λ ctx n r c e i p.
        subst (λ s. Unchanged (view c.inner) (view s) ⊎ Stored (view c.inner) n r (view s))
          (sym (saved-inner inner lru cfg good law n r c _))
          (law.save_err ctx n r c.inner e i (sym (saved-ok inner lru cfg good law n r c _) ∙ p));
    delete_ok = λ ctx n c i e k.
        ap (λ s. view s k) (deleted-inner inner lru cfg good law n c _)
        ∙ law.delete_ok ctx n c.inner i (sym (deleted-ok inner lru cfg good law n c _) ∙ e) k;
    delete_err = λ ctx n c e i p.
        subst (λ s. Unchanged (view c.inner) (view s) ⊎ Written (view c.inner) n none (view s))
          (sym (deleted-inner inner lru cfg good law n c _))
          (law.delete_err ctx n c.inner e i (sym (deleted-ok inner lru cfg good law n c _) ∙ p));
    list_ok = λ ctx c names i h e.
        law.list_ok (without_cancel ctx) c.inner names i (current_inner ctx h)
          (sym (list-forced ctx c h) ∙ e);
  }

  -- The cache as a lawful backend whose forced reads are current.
  pub record Forceable : Type 1 where
    pub lawful : IsLawful (Cache.backend inner lru cfg)
    pub same_view : (c : Cache S L) → lawful.view c ≡ view c.inner
    pub forced : (ctx : Context) → lawful.current ctx ≡ force_refresh ctx
    pub inv : (c : Cache S L) → Inv c.inner → lawful.Inv c

  -- Over any lawful inner backend, also one that others write to, and whatever is resident, the cache
  -- keeps the contract of a backend: it holds what the inner backend holds, a write that succeeds or
  -- fails has the effect on it that the inner backend's has, and a read with the refresh forced answers
  -- what is held then.
  pub cache-Forceable : Forceable
  unfolding forced-IsLawful
  cache-Forceable = record {
    lawful = forced-IsLawful;
    same_view = λ c. refl;
    forced = λ ctx. refl;
    inv = λ c h. h;
  }
