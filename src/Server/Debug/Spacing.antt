-- ===== src/Server/Debug/Spacing.antt =====
-- server/debug.go: the times at which flushes are accepted.
use ts1p.Prelude.{
  ℕ, ◌+◌, ◌≤◌, ◌<◌, ◌≡◌, refl, ap, ◌∙◌, ◌⊎◌, inl, inr, Bool, true, false, Option, List, [], ◌∷◌,
  eqb, arith,
}
use ts1p.Backend.{Backend}
use ts1p.Cache.Eviction.{Lru, IsLru}
use ts1p.Cache.Timing.{Config}
use ts1p.Cache.{Cache}
use ts1p.Server.Wire.{Request, Reply, silent, http_error, json, no_body}
use ts1p.Server.Debug.{Flushes, window, flush_cache_handler, Handled, flush_cache_handler-Handled}

abbrev accepted : Reply → Bool
accepted (no_body status) = eqb status 204
accepted silent = false
accepted (http_error m status) = false
accepted (json status bs) = false

-- Times, the latest first, each at least `w` after the one before it.
abbrev Spaced : ℕ → List ℕ → Type 0
Spaced w [] = Unit
Spaced w (t ∷ []) = Unit
Spaced w (t ∷ u ∷ ts) = (u + w ≤ t) × Spaced w (u ∷ ts)

-- The last of the times, or 0.
abbrev latest : List ℕ → ℕ
latest [] = 0
latest (t ∷ ts) = t

module _ {S L : Type 0} (inner : Backend S) (lru : Lru L) (cfg : Config) where
  -- Requests to the handler, with the times of the accepted ones, and whatever else happens to the cache and to the warmer.
  pub data Served (K : Type 0) (s : Flushes S L) : List ℕ → Flushes S L → Type 0 where
    at_first : Served K s [] s
    flushed :
        {ts : List ℕ} {m : Flushes S L} (r : Request K)
        → Served K s ts m
        → accepted (flush_cache_handler inner lru cfg r m).0 ≡ true
        → Served K s (cfg.clock m.cache.oracle.reads ∷ ts) (flush_cache_handler inner lru cfg r m).1
    turned_away :
        {ts : List ℕ} {m : Flushes S L} (r : Request K)
        → Served K s ts m
        → accepted (flush_cache_handler inner lru cfg r m).0 ≡ false
        → Served K s ts (flush_cache_handler inner lru cfg r m).1
    elsewhere :
        {ts : List ℕ} {m : Flushes S L} (c : Cache S L) (w : Option Bool)
        → Served K s ts m
        → Served K s ts (record m { cache = c; warmer = w })

  module _ (good : IsLru lru) (expiring : 0 < window cfg.ttl)
      (positive : (k : ℕ) → 0 < cfg.clock k) where
    -- The times so far: they are spaced, and the state has the latest.
    pub record Noted (ts : List ℕ) (m : Flushes S L) : Type 0 where
      pub spaced : Spaced (window cfg.ttl) ts
      pub latest_at : m.last_flush ≡ latest ts
      pub after_epoch : (ts ≡ []) ⊎ (0 < latest ts)

    one_more :
        (ts : List ℕ) (m : Flushes S L) (t : ℕ)
        → Noted ts m
        → (m.last_flush ≡ 0) ⊎ (m.last_flush + window cfg.ttl ≤ t ⊎ window cfg.ttl ≡ 0)
        → Spaced (window cfg.ttl) (t ∷ ts)
    one_more [] m t h p = tt
    one_more (u ∷ ts) m t h p = (ground (arith, h.latest_at, h.after_epoch, expiring), h.spaced)

    flushed-Noted :
        {K : Type 0} (r : Request K) (ts : List ℕ) (m : Flushes S L)
        → Noted ts m
        → Handled inner lru cfg good r m (flush_cache_handler inner lru cfg r m)
        → accepted (flush_cache_handler inner lru cfg r m).0 ≡ true
        → Noted (cfg.clock m.cache.oracle.reads ∷ ts) (flush_cache_handler inner lru cfg r m).1
    flushed-Noted r ts m h (Handled.refused p e) a = absurd (cc (ap (λ x. accepted x.0) e))
    flushed-Noted r ts m h (Handled.debounced p q e _ _ _ _) a =
        absurd (ground (arith, ap accepted e))
    flushed-Noted r ts m h (Handled.emptied p e d) a = record {
      spaced = one_more ts m _ h p;
      latest_at = d.noted;
      after_epoch = inr (positive _);
    }

    away-Noted :
        {K : Type 0} (r : Request K) (ts : List ℕ) (m : Flushes S L)
        → Noted ts m
        → Handled inner lru cfg good r m (flush_cache_handler inner lru cfg r m)
        → accepted (flush_cache_handler inner lru cfg r m).0 ≡ false
        → Noted ts (flush_cache_handler inner lru cfg r m).1
    away-Noted r ts m h (Handled.refused p e) a = record {
      spaced = h.spaced;
      latest_at = ap (λ x. x.1.last_flush) e ∙ h.latest_at;
      after_epoch = h.after_epoch;
    }
    away-Noted r ts m h (Handled.debounced _ _ _ _ _ _ e) a = record {
      spaced = h.spaced;
      latest_at = e ∙ h.latest_at;
      after_epoch = h.after_epoch;
    }
    away-Noted r ts m h (Handled.emptied p e d) a = absurd (ground (arith, ap accepted e))

    -- If the handler serves one request at a time, with a TTL of at least 10 ns and a clock after the epoch: whatever requests come and whatever else happens to the cache,
    -- the times of the accepted flushes since the start are each at least the window after the one before, and `lastFlush`
    -- is the latest of them.
    pub Served-Noted :
        {K : Type 0} (s : Flushes S L) (ts : List ℕ) (m : Flushes S L)
        → s.last_flush ≡ 0
        → Served K s ts m
        → Noted ts m
    Served-Noted s _ _ z at_first = record { spaced = tt; latest_at = z; after_epoch = inl refl }
    Served-Noted s _ _ z (flushed {ts = us} {m = n} r q a) =
        flushed-Noted r us n (Served-Noted s us n z q)
          (flush_cache_handler-Handled inner lru cfg good r n) a
    Served-Noted s _ _ z (turned_away {ts = us} {m = n} r q a) =
        away-Noted r us n (Served-Noted s us n z q)
          (flush_cache_handler-Handled inner lru cfg good r n) a
    Served-Noted s _ _ z (elsewhere {ts = us} {m = n} c w q) =
        let h = Served-Noted s us n z q in
        record { spaced = h.spaced; latest_at = h.latest_at; after_epoch = h.after_epoch }
