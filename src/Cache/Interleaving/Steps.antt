-- ===== src/Cache/Interleaving/Steps.antt =====
-- backend/cache/cache.go: every state that the interleaved cache reaches.
use ts1p.Backend.{Backend, IsLawful}
use ts1p.Cache.Eviction.{Lru, IsLru}
use ts1p.Cache.Timing.{Config}
use ts1p.Cache.Coherence.{IsExclusive}
use ts1p.Cache.Interleaving.{System}
use ts1p.Cache.Interleaving.Safety.{IsSafe}

module _ {S L : Type 0} (inner : Backend S) (lru : Lru L) (cfg : Config) (good : IsLru lru)
    (law : IsLawful inner) (sole : IsExclusive law) where
  abbrev Safe : System S L → Type 0
  Safe = IsSafe inner lru cfg good law sole
