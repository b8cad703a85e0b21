-- ===== src/Cache/Loading.antt =====
-- backend/cache/cache.go: the two ways of `Load`, from a live entry and by a fetch.
use ts1p.Prelude.{
  ◌≡◌, refl, sym, ◌∙◌, inl, inr, Bool, true, false, Bool-cases, Option, none, some, Bytes,
}
use ts1p.Errors.{Result}
use ts1p.Backend.{Record, Context, force_refresh, Backend}
use ts1p.Cache.Eviction.{Lru, IsLru, Entry}
use ts1p.Cache.Timing.{Config, Oracle, live}
use ts1p.Cache.{Cache, answer, fetch, serve_live, look, load}
use ts1p.Cache.Entries.{Agrees}

module _ {S L : Type 0} (inner : Backend S) (lru : Lru L) (cfg : Config) (good : IsLru lru) where
  -- A state that differs from `c` in the bookkeeping of reads alone.
  pub record Touched (c d : Cache S L) : Type 0 where
    pub same_inner : d.inner ≡ c.inner
    pub keeps :
        (v : Bytes → Option Record) → Agrees inner lru cfg good v c → Agrees inner lru cfg good v d

  module _ (ctx : Context) (name : Bytes) (c : Cache S L) where
    -- Load fetches, or it serves the entry that is resident, and then the read is not forced.
    pub data Way (x : Result Record × Cache S L) : Type 0 where
      by_fetch : (d : Cache S L) → Touched c d → x ≡ fetch inner lru cfg ctx name d → Way x
      by_entry :
          (d : Cache S L) (e : Entry)
          → Touched c d
          → lru.peek name c.recs ≡ some e
          → force_refresh ctx ≡ false
          → x ≡ (answer inner lru cfg e.val, d)
          → Way x

    Way-live :
        (e : Entry) (d : Cache S L) (t : Bool × Oracle)
        → ((o : Oracle) → Touched c (record d { oracle = o }))
        → lru.peek name c.recs ≡ some e
        → force_refresh ctx ≡ false
        → Way (serve_live inner lru cfg ctx name e.val d t)
    unfolding serve_live
    Way-live e d (true, o) h p q = by_entry (record d { oracle = o }) e (h o) p q refl
    Way-live e d (false, o) h p q = by_fetch (record d { oracle = o }) (h o) refl

    touched :
        (l : L)
        → ((k : Bytes) → lru.peek k l ≡ lru.peek k c.recs)
        → (o : Oracle) → Touched c (record c { recs = l; oracle = o })
    touched l h o = record {
      same_inner = refl;
      keeps = λ v a. record { at = λ k e p. a.at k e (sym (h k) ∙ p); listed = a.listed };
    }

    Way-look :
        (p : Option Entry × L)
        → p.0 ≡ lru.peek name c.recs
        → ((k : Bytes) → lru.peek k p.1 ≡ lru.peek k c.recs)
        → force_refresh ctx ≡ false
        → Way (look inner lru cfg ctx name c p)
    unfolding look
    Way-look (none, l) h k q = by_fetch (record c { recs = l }) (touched l k c.oracle) refl
    Way-look (some e, l) h k q =
        Way-live e (record c { recs = l }) (live cfg e.expires c.oracle) (touched l k) (sym h) q

    pub load-Way : Way (load inner lru cfg ctx name c)
    unfolding load
    load-Way = elim (Bool-cases (force_refresh ctx)) [
      | inl q ↦ rw q (by_fetch c (record { same_inner = refl; keeps = λ v a. a }) refl)
      | inr q ↦ rw q (
          Way-look (lru.get name c.recs) (good.get_value name c.recs)
            (λ k. good.peek_get k name c.recs) q)
    ]
