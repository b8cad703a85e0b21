-- ===== src/Server/Debug/Examples.antt =====
-- server/debug.go: two flushes a minute apart, and one in between.
use ts1p.Prelude.{◌<◌, ℕ, ◌+◌, ◌*◌, refl, false, some, [], ◌∷◌, bytes_eq, arith}
use ts1p.Mem
use ts1p.Mem.{Records}
use ts1p.Cache.{purge}
use ts1p.Cache.Timing.{Config, now}
use ts1p.Cache.Examples.{Entries, assoc, assoc-IsLru, cold}
use ts1p.Server.Examples.{request}
use ts1p.Server.Debug.{
  Flushes, window, flush_cache_handler, flushed_at, Handled, flush_cache_handler-Handled,
}
use ts1p.Server.Debug.Spacing.{Served, at_first, flushed, turned_away, Noted, Served-Noted}

-- A TTL of ten minutes, and a clock that shows another half minute at each reading.
abbrev ticking : Config
ticking = record { ttl = 600000000000; clock = λ k. 30000000000 * k + 1; draw = λ k. 0 }

abbrev start : Flushes Records Entries
start = record { cache = cold; last_flush = 0; warmer = some false }

abbrev first : Flushes Records Entries
first = (flush_cache_handler Mem.backend assoc ticking request start).1

abbrev second : Flushes Records Entries
second = (flush_cache_handler Mem.backend assoc ticking request first).1

abbrev third : Flushes Records Entries
third = (flush_cache_handler Mem.backend assoc ticking request second).1

flush_cache_handler-Handled_example :
    Handled Mem.backend assoc ticking assoc-IsLru request first
      (flush_cache_handler Mem.backend assoc ticking request first)
flush_cache_handler-Handled_example =
    flush_cache_handler-Handled Mem.backend assoc ticking assoc-IsLru request first

served : Served Mem.backend assoc ticking (Unit {0}) start (60000000001 ∷ 1 ∷ []) third
unfolding flush_cache_handler flushed_at window now purge bytes_eq
served = flushed request (turned_away request (flushed request at_first refl) refl) refl

window_open : 0 < window ticking.ttl
unfolding window
window_open = omega arith

ticking_positive : (k : ℕ) → 0 < ticking.clock k
ticking_positive k = omega arith

Served-Noted_example :
    Noted Mem.backend assoc ticking assoc-IsLru window_open ticking_positive
      (60000000001 ∷ 1 ∷ [])
      third
Served-Noted_example =
    Served-Noted Mem.backend assoc ticking assoc-IsLru window_open ticking_positive start
      (60000000001 ∷ 1 ∷ []) third refl served
