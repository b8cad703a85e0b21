-- ===== src/Cache/Warmer.antt =====
-- backend/cache/warmer.go: the loop that keeps the cache warm. It reads the clock that the cache
-- reads. What is decided elsewhere in one pass of the loop (whether the context is done at each look,
-- the orders of the two ranges over the map, which case of the select is ready) is a `Pass`.
mod Reconcile
mod Tracking
mod Passes
mod Asking
mod Ranging
mod Sweeping
mod Timing
mod Examples
use ts1p.Prelude.{
  ℕ, ◌+◌, ◌*◌, ◌/◌, min, Bool, true, false, not, Option, none, some, List, [], ◌∷◌, if◌then◌else◌,
  eqb, ltb, Bytes, bytes_eq_eq, Map, has_key, keys, lookup, put, delete, contains,
}
use ts1p.Errors.{Error, Sentinel, is, Result, ok, err, fail}
use ts1p.Backend.{Record, Context, with_force_refresh, Backend}
use ts1p.Cache.Eviction.{Lru}
use ts1p.Cache.Timing.{Config, Oracle, now}
use ts1p.Cache.{Cache, load, list, remove}

-- 5 * time.Second
abbrev warm_retry_gap : ℕ
warm_retry_gap = 5000000000

-- time.Duration(float64(ttl) * warmRefreshFrac). The product is exact in a float64, and the
-- conversion cuts it off, as long as the TTL is below 2 ^ 51 ns, which is 26 days.
abbrev refresh_ahead : ℕ → ℕ
refresh_ahead ttl = ttl * 3 / 4

abbrev retry_gap : ℕ → ℕ
retry_gap ttl = min warm_retry_gap (refresh_ahead ttl / 3)

-- The case of the select that is taken; `reprimed` is ready once Reprime has put its token.
data Wake : Type 0 where
  done reprimed timed_out : Wake

-- How the loop goes on.
data Ended : Type 0 where
  returned again : Ended

record Pass : Type 0 where
  done_first : Bool
  -- what `wait` returns
  waited : Bool
  -- the orders of `range next` in reconcile, and in the loop
  sweep : List Bytes → List Bytes
  order : List Bytes → List Bytes
  -- ctx.Err() before a name, and at the start of `warm`
  done_before : Bytes → Bool
  done_at_warm : Bytes → Bool
  wake : Wake

-- `next`, `relistAt` and the token in `reprime`.
record Loop (S L : Type 0) : Type 0 where
  cache : Cache S L
  next : Map Bytes ℕ
  relist_at : ℕ
  reprime_asked : Bool

-- Reprime: non-blocking and coalescing.
abbrev pub reprime : Bool → Bool
reprime asked = true

-- The first range of reconcile.
unfoldable add_new : ℕ → List Bytes → Map Bytes ℕ → Map Bytes ℕ
add_new t [] next = next
add_new t (n ∷ names) next = add_new t names (if has_key n next then next else put n t next)

-- The soonest deadline.
unfoldable earliest : Map Bytes ℕ → ℕ → ℕ
earliest [] soonest = soonest
earliest ((n, t) ∷ next) soonest = earliest next (if ltb t soonest then t else soonest)

-- `for name := range next { next[name] = now }`
unfoldable all_due : ℕ → Map Bytes ℕ → Map Bytes ℕ
all_due t [] = []
all_due t ((n, d) ∷ next) = (n, t) ∷ all_due t next

module _ {S L : Type 0} (inner : Backend S) (lru : Lru L) (cfg : Config) where
  -- time.Now()
  unfoldable clock_read : Cache S L → ℕ × Cache S L
  clock_read c = let (t, o) = now cfg c.oracle in (t, record c { oracle = o })

  -- The second range of reconcile, over the names of `next`.
  unfoldable drop_gone : List Bytes → List Bytes → Loop S L → Loop S L
  drop_gone names [] l = l
  drop_gone names (n ∷ ns) l = drop_gone names ns (elim (contains n names) [
    | true ↦ l
    | false ↦ record l { next = delete n l.next; cache = remove inner lru cfg n l.cache }
  ])

  unfoldable swept : (List Bytes → List Bytes) → List Bytes → Loop S L → ℕ × Cache S L → Loop S L
  unfolding drop_gone add_new
  swept sweep names l (t, c) =
      let m = add_new t names l.next in
      drop_gone names (sweep (keys m)) (record l { next = m; cache = c })

  unfoldable reconcile : (List Bytes → List Bytes) → List Bytes → Loop S L → Loop S L
  unfolding swept clock_read
  reconcile sweep names l = swept sweep names l (clock_read l.cache)

  abbrev background : Context
  background = record { force = false; gone = false }

  -- `warm`, which tells the loop only how it ended.
  unfoldable warm : Bool → Bytes → Cache S L → Result Record × Cache S L
  warm gone name c =
      if gone
      then (fail Sentinel.canceled, c)
      else load inner lru cfg (with_force_refresh background) name c

  -- next[name] = time.Now().Add(d)
  unfoldable postpone : ℕ → Bytes → Loop S L → Loop S L
  unfolding clock_read
  postpone d name l =
      let (t, c) = clock_read l.cache in record l { cache = c; next = put name (t + d) l.next }

  -- The switch on the error of `warm`.
  unfoldable rescheduled : Bytes → Loop S L → Result Record × Cache S L → Loop S L
  unfolding postpone
  rescheduled name l (ok r, c) = postpone (refresh_ahead cfg.ttl) name (record l { cache = c })
  rescheduled name l (err e, c) =
      if is e Sentinel.backend_not_found
      then record l { cache = c; next = delete name l.next }
      else if is e Sentinel.rate_limited
      then postpone (refresh_ahead cfg.ttl) name (record l { cache = c })
      else if is e Sentinel.unavailable
      then postpone (retry_gap cfg.ttl) name (record l { cache = c })
      else postpone (refresh_ahead cfg.ttl) name (record l { cache = c })

  unfoldable when_due : Bool → Bytes → ℕ → Loop S L → ℕ × Cache S L → Loop S L
  unfolding rescheduled warm
  when_due gone name deadline l (t, c) =
      if ltb t deadline
      then record l { cache = c }
      else rescheduled name (record l { cache = c }) (warm gone name c)

  -- One name of the range over `next`; a name that is not there is not ranged over.
  unfoldable visit : Bool → Bytes → Loop S L → Loop S L
  unfolding when_due clock_read
  visit gone name l = elim (lookup name l.next) [
    | none ↦ l
    | some deadline ↦ when_due gone name deadline l (clock_read l.cache)
  ]

  -- The range over `next`: whether it ran to its end.
  unfoldable warm_due : Pass → List Bytes → Loop S L → Bool × Loop S L
  unfolding visit
  warm_due p [] l = (true, l)
  warm_due p (n ∷ ns) l = elim (p.done_before n) [
    | true ↦ (false, l)
    | false ↦ warm_due p ns (visit (p.done_at_warm n) n l)
  ]

  unfoldable woken : Wake → Loop S L → Ended × Loop S L
  unfolding clock_read all_due
  woken done l = (returned, l)
  woken reprimed l =
      let (t, c) = clock_read l.cache in
      (again, record l { cache = c; next = all_due t l.next; relist_at = t; reprime_asked = false })
  woken timed_out l = (again, l)

  unfoldable waiting : Pass → Bool × Loop S L → Ended × Loop S L
  unfolding woken
  waiting p (true, l) = woken p.wake l
  waiting p (false, l) = (returned, l)

  unfoldable warm_all : Pass → Loop S L → Ended × Loop S L
  unfolding waiting warm_due
  warm_all p l = waiting p (warm_due p (p.order (keys l.next)) l)

  -- relistAt = time.Now().Add(w.refreshAhead)
  unfoldable relisted : Loop S L → Loop S L
  unfolding clock_read
  relisted l =
      let (t, c) = clock_read l.cache in
      record l { cache = c; relist_at = t + refresh_ahead cfg.ttl }

  unfoldable with_names : Pass → Loop S L → Result (List Bytes) × Cache S L → Ended × Loop S L
  unfolding warm_all relisted reconcile
  with_names p l (err e, c) = (if p.waited then again else returned, record l { cache = c })
  with_names p l (ok names, c) =
      warm_all p (relisted (reconcile p.sweep names (record l { cache = c })))

  unfoldable relist : Pass → Loop S L → ℕ × Cache S L → Ended × Loop S L
  unfolding with_names warm_all
  relist p l (t, c) =
      if not (ltb t l.relist_at)
      then with_names p l (list inner lru cfg (with_force_refresh background) c)
      else warm_all p (record l { cache = c })

  -- One pass of the loop.
  unfoldable pass : Pass → Loop S L → Ended × Loop S L
  unfolding relist clock_read
  pass p l = if p.done_first then (returned, l) else relist p l (clock_read l.cache)

  -- Passes, until one returns or they are all done.
  unfoldable passes : List Pass → Loop S L → Ended × Loop S L
  passes [] l = (again, l)
  passes (p ∷ ps) l =
      let (e, m) = pass p l in elim e [ returned ↦ (returned, m) | again ↦ passes ps m ]

  -- The loop's variables at its start.
  unfoldable begin : Bool → Cache S L → Loop S L
  unfolding clock_read
  begin asked c =
      let (t, c') = clock_read c in
      record { cache = c'; next = []; relist_at = t; reprime_asked = asked }

  unfoldable loop : List Pass → Bool → Cache S L → Ended × Loop S L
  unfolding passes begin
  loop ps asked c = passes ps (begin asked c)

  -- Run: without a positive expiry it returns at once, and the cache is what it was.
  unfoldable run : List Pass → Bool → Cache S L → Cache S L
  unfolding loop
  run ps asked c = if eqb (refresh_ahead cfg.ttl) 0 then c else (loop ps asked c).1.cache
