-- ===== src/Cache/Expiry.antt =====
-- backend/cache/cache.go: how long an entry is servable.
use ts1p.Prelude.{ℕ, ◌+◌, ◌-◌, ◌*◌, ◌/◌, ◌%◌, ◌≤◌, ◌<◌, ◌≡◌, false, Option, some, eqb, arith}
use native.Mathlib.Nat.{mod-lt}
use ts1p.Cache.Timing.{Config, Oracle, random_lifetime, expires_at}

module _ (cfg : Config) (o : Oracle) (expiring : 0 < cfg.ttl) where
  draw_lt : cfg.draw o.draws % (2 * (cfg.ttl / 5) + 1) < 2 * (cfg.ttl / 5) + 1
  draw_lt = mod-lt (cfg.draw o.draws) (omega arith)

  abbrev lifetime : ℕ
  lifetime = cfg.ttl + cfg.draw o.draws % (2 * (cfg.ttl / 5) + 1) - cfg.ttl / 5

  ttl_positive : eqb cfg.ttl 0 ≡ false
  ttl_positive = ground arith

  lifetime_positive : eqb lifetime 0 ≡ false
  lifetime_positive = let p : 0 < lifetime = omega arith in ground arith

  -- The expiry that is given to an entry.
  pub record Lasting (x : Option ℕ × Oracle) : Type 0 where
    pub expiry : ℕ
    pub given : x.0 ≡ some expiry
    pub at_least : cfg.clock o.reads + (cfg.ttl - cfg.ttl / 5) ≤ expiry
    pub at_most : expiry ≤ cfg.clock o.reads + (cfg.ttl + cfg.ttl / 5)

  -- With a positive TTL, an entry gets an expiry that lies a TTL after the time of the clock, give or
  -- take a fifth of it.
  pub expires_at-Lasting : Lasting (expires_at cfg o)
  unfolding expires_at random_lifetime
  expires_at-Lasting = record {
    expiry = cfg.clock o.reads + lifetime;
    given = rw (ttl_positive, lifetime_positive);
    at_least = let p = draw_lt in omega arith;
    at_most = let p = draw_lt in omega arith;
  }

  -- The clock is read once for an expiry.
  pub reads-expires_at : (expires_at cfg o).1.reads ≡ o.reads + 1
  unfolding expires_at random_lifetime
  reads-expires_at = rw (ttl_positive, lifetime_positive)
