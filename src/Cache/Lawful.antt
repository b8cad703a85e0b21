-- ===== src/Cache/Lawful.antt =====
-- backend/cache/cache.go: the cache against the contract of a backend, the same that it relies on
-- itself.
use ts1p.Prelude.{◌≡◌, refl, sym, ap, ◌∙◌, inl, true, Option, Bytes, bytes_eq_eq}
use ts1p.Backend.{Record, Context, Backend, IsLawful, Stored-exact}
use ts1p.Cache
use ts1p.Cache.Eviction.{Lru, IsLru}
use ts1p.Cache.Timing.{Config}
use ts1p.Cache.{
  Cache, answer, fetch, load, save, saved, delete, deleted, remove, list, fetch_names, add_entry,
}
use ts1p.Cache.Loading.{load-Way}
use ts1p.Cache.Listing.{list-Way}
use ts1p.Cache.Coherence.{IsExclusive, IsCoherent, load-Answered, list-Listed}
use ts1p.Cache.Writes.{save-Wrote, delete-Wrote}
use ts1p.Cache.Passing.{
  Way-view, ListWay-view, Way-not_api, saved-ok, saved-inner, deleted-ok, deleted-inner,
}

module _ {S L : Type 0} (inner : Backend S) (lru : Lru L) (cfg : Config) (good : IsLru lru)
    (law : IsLawful inner) (sole : IsExclusive law) where
  open law use {view}

  abbrev pub shown : Cache S L → Bytes → Option Record
  shown c = view c.inner

  unfoldable pub cache-IsLawful : IsLawful (Cache.backend inner lru cfg)
  unfolding save delete
  cache-IsLawful = record {
    Inv = IsCoherent inner lru cfg good law sole;
    view = shown;
    current = λ ctx. true;
    current_of_force = λ ctx h. refl;
    load_inv = λ ctx n c h. (load-Answered inner lru cfg good law sole ctx n c h).kept.coherent;
    save_inv = λ ctx n r c h. (save-Wrote inner lru cfg good law sole n c h ctx r).coherent;
    list_inv = λ ctx c h. (list-Listed inner lru cfg good law sole ctx c h).kept.coherent;
    delete_inv = λ ctx n c h. (delete-Wrote inner lru cfg good law sole n c h ctx).coherent;
    load_view =
        λ ctx n c. Way-view inner lru cfg good law ctx n c _ (load-Way inner lru cfg good ctx n c);
    list_view =
        λ ctx c. ListWay-view inner lru cfg good law ctx c _ (list-Way inner lru cfg good ctx c);
    load_ok = λ ctx n c r h i e. (load-Answered inner lru cfg good law sole ctx n c h).on_ok r e;
    load_not_found = λ ctx n c e h i p q.
        (load-Answered inner lru cfg good law sole ctx n c h).on_not_found e p q;
    load_api = λ ctx n c e h p.
        Way-not_api inner lru cfg good law ctx n c _ e (load-Way inner lru cfg good ctx n c) h.inv
          p;
    save_ok = λ ctx n r c h e. Stored-exact _ n r _ (λ k.
        ap (λ s. view s k) (saved-inner inner lru cfg good law n r c _)
        ∙ sole.save_exact ctx n r c.inner h.inv (sym (saved-ok inner lru cfg good law n r c _) ∙ e)
            k);
    save_err = λ ctx n r c e h p. inl (λ k.
        ap (λ s. view s k) (saved-inner inner lru cfg good law n r c _)
        ∙ sole.save_failed ctx n r c.inner e (sym (saved-ok inner lru cfg good law n r c _) ∙ p) k);
    delete_ok = λ ctx n c h e k.
        ap (λ s. view s k) (deleted-inner inner lru cfg good law n c _)
        ∙ law.delete_ok ctx n c.inner h.inv (sym (deleted-ok inner lru cfg good law n c _) ∙ e) k;
    delete_err = λ ctx n c e h p. inl (λ k.
        ap (λ s. view s k) (deleted-inner inner lru cfg good law n c _)
        ∙ sole.delete_failed ctx n c.inner e (sym (deleted-ok inner lru cfg good law n c _) ∙ p) k);
    list_ok =
        λ ctx c names h i e k. (list-Listed inner lru cfg good law sole ctx c h).names names e k;
  }

  -- The cache as a lawful backend that hides nothing of the inner one.
  pub record Transparent : Type 1 where
    pub lawful : IsLawful (Cache.backend inner lru cfg)
    pub same_view : (c : Cache S L) → lawful.view c ≡ view c.inner
    pub always : (ctx : Context) → lawful.current ctx ≡ true
    pub inv : (c : Cache S L) → IsCoherent inner lru cfg good law sole c → lawful.Inv c

  -- Over a lawful inner backend that nothing else writes to, that keeps records as they are given and
  -- whose failed writes change nothing, the cache keeps the whole contract of a backend, at every state whose entries are right: it holds
  -- what the inner backend holds, and every read of it is current.
  pub cache-Transparent : Transparent
  unfolding cache-IsLawful
  cache-Transparent = record {
    lawful = cache-IsLawful;
    same_view = λ c. refl;
    always = λ ctx. refl;
    inv = λ c h. h;
  }
