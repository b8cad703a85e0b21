-- ===== src/Cache/Warmer/Timing.antt =====
-- backend/cache/warmer.go: deadlines against the expiries that the cache gives.
use ts1p.Prelude.{
  ℕ, ◌+◌, ◌-◌, ◌/◌, ◌≤◌, ◌<◌, ◌≡◌, ◌∙◌, true, false, some, [], ◌∷◌, if◌then◌else◌, ltb, eqb, Bytes,
  bytes_eq_eq, bytes_eq_refl, bytes_eq_iff, Map, Distinct, lookup, lookup-put_self, arith,
}
use ts1p.Errors.{ok}
use ts1p.Backend.{Record, clone, Backend, without_cancel, with_force_refresh, force_refresh}
use ts1p.Cache.Eviction.{Lru, IsLru}
use ts1p.Cache.Timing.{Config, now}
use ts1p.Cache.Expiry.{expires_at-Lasting, reads-expires_at}
use ts1p.Cache.{Cache, load, fetch, fill, settle, store, add_entry}
use ts1p.Cache.Warmer.{
  Loop, refresh_ahead, retry_gap, earliest, clock_read, background, warm, postpone, rescheduled,
  when_due, visit,
}

-- `t` is the soonest of the deadlines and of the time of the next listing.
pub record Soonest (next : Map Bytes ℕ) (relist_at t : ℕ) : Type 0 where
  pub relist : t ≤ relist_at
  pub each : (k : Bytes) (d : ℕ) → lookup k next ≡ some d → t ≤ d
  pub greatest :
      (x : ℕ) → x ≤ relist_at → ((k : Bytes) (d : ℕ) → lookup k next ≡ some d → x ≤ d) → x ≤ t

-- For a map that has each key once, the loop sleeps until the soonest of the deadlines and of the next listing.
pub earliest-Soonest :
    (next : Map Bytes ℕ) (relist_at : ℕ)
    → Distinct next
    → Soonest next relist_at (earliest next relist_at)
unfolding earliest lookup
earliest-Soonest [] relist_at u = record {
  relist = omega arith;
  each = λ k d e. absurd (cc);
  greatest = λ x h g. h;
}
earliest-Soonest ((n, t) ∷ next) relist_at u =
    let s = if ltb t relist_at then t else relist_at in
    let h = earliest-Soonest next s u.1 in
    record {
      relist = ground (arith, h.relist);
      each = λ k d e. ground (arith, h.relist, h.each k d);
      greatest = λ x a g.
          h.greatest x (let q = g n t (ground (arith, bytes_eq_refl n)) in ground (arith, q, a))
            (λ k d e. g k d (ground (arith, e, u.0, bytes_eq_iff n k)));
    }

-- The time of a retry against the earliest expiry, both from the warming before.
pub record InTime (ttl : ℕ) : Type 0 where
  pub in_time : 100000000000 ≤ ttl → refresh_ahead ttl + retry_gap ttl ≤ ttl - ttl / 5
  pub too_late : 10 ≤ ttl → ttl < 99900000000 → ttl - ttl / 5 < refresh_ahead ttl + retry_gap ttl

module _ {S L : Type 0} (inner : Backend S) (lru : Lru L) (cfg : Config) (good : IsLru lru) where
  -- What a refresh leaves: an entry with the record, that does not expire before it is due again.
  pub record Covered (name : Bytes) (r : Record) (m : Loop S L) : Type 0 where
    pub expiry : ℕ
    pub resident :
        lru.peek name m.cache.recs ≡ some (record { val = some (clone r); expires = some expiry })
    pub deadline : ℕ
    pub due : lookup name m.next ≡ some deadline
    pub in_time : deadline ≤ expiry

  -- A forced read that the inner backend answers stores the record.
  load_ok :
      (name : Bytes) (r : Record) (s : S) (c : Cache S L)
      → inner.load (without_cancel (with_force_refresh (background inner lru cfg))) name c.inner
        ≡ (ok r, s)
      → warm inner lru cfg false name c
        ≡ (ok (clone r), add_entry inner lru cfg name r (record c { inner = s }))
  unfolding warm load fetch fill settle store with_force_refresh force_refresh
  load_ok name r s c h = let q : eqb c.seq c.seq ≡ true = ground arith in rw (h, q)

  stored-Covered :
      (name : Bytes) (r : Record) (c : Cache S L) (l : Loop S L)
      → 0 < cfg.ttl
      → cfg.clock (c.oracle.reads + 1) ≤ cfg.clock c.oracle.reads + cfg.ttl / 20
      → Covered name r (
          postpone inner lru cfg
            (refresh_ahead cfg.ttl)
            name
            (record l { cache = add_entry inner lru cfg name r c }))
  unfolding postpone clock_read now add_entry
  stored-Covered name r c l positive quick =
      let e = expires_at-Lasting cfg c.oracle positive in
      let n = reads-expires_at cfg c.oracle positive in
      record {
        expiry = e.expiry;
        resident = good.peek_add_self name _ c.recs ∙ rw e.given;
        deadline = cfg.clock (c.oracle.reads + 1) + refresh_ahead cfg.ttl;
        due = lookup-put_self name _ l.next ∙ rw n;
        in_time = omega (arith, e.at_least, quick);
      }

  -- With a positive TTL, a name that is due and that the inner backend answers for gets an entry with its record, and its next
  -- refresh is due before that entry expires, if the clock moves by no more than a twentieth of the TTL from the time at
  -- which the cache dates the entry to the time at which the warmer sets the deadline.
  pub visit-Covered :
      (name : Bytes) (l : Loop S L) (deadline : ℕ) (r : Record) (s : S)
      → 0 < cfg.ttl
      → lookup name l.next ≡ some deadline
      → deadline ≤ cfg.clock l.cache.oracle.reads
      → inner.load
          (without_cancel (with_force_refresh (background inner lru cfg)))
          name
          l.cache.inner
        ≡ (ok r, s)
      → cfg.clock (l.cache.oracle.reads + 1 + 1)
        ≤ cfg.clock (l.cache.oracle.reads + 1) + cfg.ttl / 20
      → Covered name r (visit inner lru cfg false name l)
  unfolding visit when_due clock_read now rescheduled
  visit-Covered name l deadline r s positive here late h quick =
      let q : ltb (cfg.clock l.cache.oracle.reads) deadline ≡ false = ground (arith, late) in
      let c = record l.cache {
        oracle = record l.cache.oracle { reads = l.cache.oracle.reads + 1 };
      } in
      rw (here, visit, q, load_ok name r s c h)
        (stored-Covered name r (record c { inner = s }) l positive quick)
