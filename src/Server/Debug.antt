-- ===== src/Server/Debug.antt =====
-- server/debug.go: FlushCacheHandler, over the state of its closure. Requests are handled one at a
-- time: two that run at once may both see the old `lastFlush`, which the code does not exclude.
mod Spacing
mod Examples
use ts1p.Prelude.{
  ℕ, ◌+◌, ◌-◌, ◌/◌, ◌≤◌, ◌<◌, ◌≡◌, ◌⊎◌, refl, sym, subst, inl, inr, Bool, true, false, not, ◌&&◌,
  Bool-cases, Option, none, some, if◌then◌else◌, eqb, ltb, min, Bytes, bytes_eq, text, arith,
}
use ts1p.Backend.{Backend}
use ts1p.Cache.Eviction.{Lru, IsLru, Entry}
use ts1p.Cache.Timing.{Config, now}
use ts1p.Cache.{Cache, Names, next_seq, purge}
use ts1p.Cache.Warmer.{reprime}
use ts1p.Server.Wire.{Request, Reply, http_error, no_body}

-- time.Minute
abbrev minute : ℕ
minute = 60000000000

-- The cache, `lastFlush` (0 before the first flush), and the token of the warmer, if there is one.
pub record Flushes (S L : Type 0) : Type 0 where
  pub cache : Cache S L
  pub last_flush : ℕ
  pub warmer : Option Bool

unfoldable pub window : ℕ → ℕ
window ttl = min (ttl / 10) minute

-- `if warmer != nil { warmer.Reprime() }`
unfoldable pub ask : Option Bool → Option Bool
ask none = none
ask (some asked) = some (reprime asked)

module _ {S L : Type 0} (inner : Backend S) (lru : Lru L) (cfg : Config) where
  unfoldable pub flushed_at : ℕ → Flushes S L → Reply × Flushes S L
  unfolding ask
  flushed_at t s = (
    no_body 204,
    record s { last_flush = t; cache = purge inner lru cfg s.cache; warmer = ask s.warmer },
  )

  unfoldable pub flush_cache_handler : {K : Type 0} → Request K → Flushes S L → Reply × Flushes S L
  unfolding window flushed_at
  flush_cache_handler r s =
      if not (bytes_eq r.method (text "POST"))
      then (http_error (text "POST required") 405, s)
      else (let (t, o) = now cfg s.cache.oracle in
          let s' = record s { cache = record s.cache { oracle = o } } in
          if not (eqb s.last_flush 0)
            && (ltb 0 (window cfg.ttl) && ltb (t - s.last_flush) (window cfg.ttl))
          then (no_body 202, s')
          else flushed_at t s')

  module _ {K : Type 0} (good : IsLru lru) (r : Request K) (s : Flushes S L) where
    -- A flush at the time `t`.
    pub record Emptied (t : ℕ) (m : Flushes S L) : Type 0 where
      pub noted : m.last_flush ≡ t
      pub resident : (k : Bytes) → lru.peek k m.cache.recs ≡ none
      pub names : m.cache.names ≡ none
      pub seq : m.cache.seq ≡ next_seq s.cache.seq
      pub inner_kept : m.cache.inner ≡ s.cache.inner
      pub asked : (a : Bool) → s.warmer ≡ some a → m.warmer ≡ some true

    -- What the handler may answer, and what it has done then.
    pub data Handled (x : Reply × Flushes S L) : Type 0 where
      refused :
          bytes_eq r.method (text "POST") ≡ false
          → x ≡ (http_error (text "POST required") 405, s)
          → Handled x
      debounced :
          0 < s.last_flush
          → cfg.clock s.cache.oracle.reads < s.last_flush + window cfg.ttl
          → x.0 ≡ no_body 202
          → x.1.cache.recs ≡ s.cache.recs
          → x.1.cache.names ≡ s.cache.names
          → x.1.cache.seq ≡ s.cache.seq
          → x.1.last_flush ≡ s.last_flush
          → Handled x
      emptied :
          (s.last_flush ≡ 0)
            ⊎ (s.last_flush + window cfg.ttl ≤ cfg.clock s.cache.oracle.reads ⊎ window cfg.ttl ≡ 0)
          → x.0 ≡ no_body 204
          → Emptied (cfg.clock s.cache.oracle.reads) x.1
          → Handled x

    flushed_at-Emptied :
        Emptied
          (cfg.clock s.cache.oracle.reads)
          (flushed_at
            (cfg.clock s.cache.oracle.reads)
            (record s { cache = record s.cache { oracle = (now cfg s.cache.oracle).1 } })).1
    unfolding flushed_at purge ask
    flushed_at-Emptied = record {
      noted = refl;
      resident = λ k. good.peek_purge k s.cache.recs;
      names = refl;
      seq = refl;
      inner_kept = refl;
      asked = λ a e. subst (λ w. ask w ≡ some true) (sym e) refl;
    }

    -- A request that is no POST is refused; one that comes before the window after the last flush is over is answered 202
    -- and leaves what is cached; any other empties the cache of records and names, moves its sequence number, so that no
    -- fetch under way is stored, leaves the inner backend alone, and asks the warmer, if there is one, to warm all again.
    pub flush_cache_handler-Handled : Handled (flush_cache_handler r s)
    unfolding flush_cache_handler now
    flush_cache_handler-Handled = elim (Bool-cases (bytes_eq r.method (text "POST"))) [
      | inr other ↦ rw other (Handled.refused other refl)
      | inl post ↦
          elim (Bool-cases (
            not (eqb s.last_flush 0)
            && (ltb 0 (window cfg.ttl)
                && ltb (cfg.clock s.cache.oracle.reads - s.last_flush) (window cfg.ttl)))) [
                  | inl soon ↦
                      simp (post, soon)
                        (Handled.debounced (ground arith) (ground arith) refl refl refl refl refl)
                  | inr late ↦
                      simp (post, late)
                        (Handled.emptied (ground (arith, late)) refl flushed_at-Emptied)
                ]
    ]
