-- ===== src/Cache/Timing.antt =====
-- backend/cache/cache.go: the clock, the jitter, and what they decide. The clock is a function that
-- tells what its k-th reading shows, and so are the random draws. Durations are nanoseconds; a TTL
-- that is not positive is 0, since the code treats all such alike.
use ts1p.Prelude.{
  ℕ, ◌+◌, ◌-◌, ◌*◌, ◌/◌, ◌%◌, min, Bool, true, Option, none, some, if◌then◌else◌, eqb, ltb,
}

pub record Config : Type 0 where
  pub ttl : ℕ
  pub clock : ℕ → ℕ
  pub draw : ℕ → ℕ

-- How often the clock was read, and how many draws were made.
pub record Oracle : Type 0 where
  pub reads : ℕ
  pub draws : ℕ

abbrev pub jitter_frac : ℕ
jitter_frac = 5

-- 30 * time.Second
abbrev pub neg_ttl_cap : ℕ
neg_ttl_cap = 30000000000

unfoldable pub now : Config → Oracle → ℕ × Oracle
now cfg o = (cfg.clock o.reads, record o { reads = o.reads + 1 })

-- rand.N(n) is below n.
unfoldable pub rand_n : Config → ℕ → Oracle → ℕ × Oracle
rand_n cfg n o = (cfg.draw o.draws % n, record o { draws = o.draws + 1 })

unfoldable pub random_lifetime : Config → Oracle → ℕ × Oracle
unfolding rand_n
random_lifetime cfg o =
    if eqb cfg.ttl 0
    then (0, o)
    else (let delta = cfg.ttl / jitter_frac in
        let (r, o') = rand_n cfg (2 * delta + 1) o in (cfg.ttl + r - delta, o'))

expire_after : Config → ℕ × Oracle → Option ℕ × Oracle
expire_after cfg (d, o) =
    if eqb d 0 then (none, o) else (let (t, o') = now cfg o in (some (t + d), o'))

unfoldable pub expires_at : Config → Oracle → Option ℕ × Oracle
unfolding expire_after now random_lifetime
expires_at cfg o = expire_after cfg (random_lifetime cfg o)

unfoldable pub live : Config → Option ℕ → Oracle → Bool × Oracle
unfolding now
live cfg none o = (true, o)
live cfg (some expires) o = let (t, o') = now cfg o in (ltb t expires, o')

-- The expiry of a cached not-found.
unfoldable pub negative_expiry : Config → Oracle → ℕ × Oracle
unfolding now
negative_expiry cfg o = let (t, o') = now cfg o in (t + min (cfg.ttl / 10) neg_ttl_cap, o')
