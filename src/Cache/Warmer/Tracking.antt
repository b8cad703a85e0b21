-- ===== src/Cache/Warmer/Tracking.antt =====
-- backend/cache/warmer.go: one pass of the loop over a cache whose inner backend nothing else writes to.
use ts1p.Prelude.{
  ℕ, ◌+◌, ◌≡◌, refl, sym, ap, ◌∙◌, inl, inr, Bool, true, false, Bool-cases, Option-cases, none,
  List, [], ◌∷◌, is_some, ltb, Bytes, bytes_eq_eq, bytes_eq_iff, Map, has_key, keys, lookup, delete,
  contains, lookup-put, arith,
}
use ts1p.Errors.{Error, Sentinel, is, Result, ok, err}
use ts1p.Backend.{Record, Backend, IsLawful, with_force_refresh}
use ts1p.Cache.Eviction.{Lru, IsLru}
use ts1p.Cache.Timing.{Config, now}
use ts1p.Cache.{Cache, remove}
use ts1p.Cache.Entries.{remove-at}
use ts1p.Cache.Coherence.{IsExclusive, IsCoherent, Kept, held, Kept-trans, load-Answered}
use ts1p.Cache.Warmer.{
  Loop, Pass, Wake, done, reprimed, timed_out, retry_gap, refresh_ahead, all_due, drop_gone,
  reconcile, swept, clock_read, warm, background, postpone, rescheduled, when_due, visit, warm_due,
  woken, waiting, warm_all, relisted, add_new,
}
use ts1p.Cache.Warmer.Reconcile.{IsOrder, reconcile-Reconciled}

-- Every name is due after a re-prime, and no name comes or goes.
has_key-all_due :
    (t : ℕ) (next : Map Bytes ℕ) (k : Bytes) → has_key k (all_due t next) ≡ has_key k next
unfolding all_due lookup
has_key-all_due t [] k = refl
has_key-all_due t ((n, d) ∷ next) k = ground (arith, has_key-all_due t next k)

module _ {S L : Type 0} (inner : Backend S) (lru : Lru L) (cfg : Config) (good : IsLru lru)
    (law : IsLawful inner) (sole : IsExclusive law) where
  abbrev Coherent : Cache S L → Type 0
  Coherent c = IsCoherent inner lru cfg good law sole c

  abbrev Keeps : Cache S L → Cache S L → Type 0
  Keeps c d = Kept inner lru cfg good law sole c d

  -- The warmer has a deadline for exactly the names that are held.
  pub record IsTracking (l : Loop S L) : Type 0 where
    pub names :
        (k : Bytes) → has_key k l.next ≡ is_some (held inner lru cfg good law sole l.cache k)

  -- From a right cache, a step keeps it right and changes nothing that is held; it keeps track too.
  pub record Follows (l m : Loop S L) : Type 0 where
    pub kept : Keeps l.cache m.cache
    pub tracks : IsTracking l → IsTracking m

  pub Follows-trans : (l m n : Loop S L) → Follows l m → Follows m n → Follows l n
  Follows-trans l m n p q = record {
    kept = Kept-trans inner lru cfg good law sole l.cache m.cache n.cache p.kept q.kept;
    tracks = λ t. q.tracks (p.tracks t);
  }

  pub Kept-refl : (c : Cache S L) → Coherent c → Keeps c c
  Kept-refl c h = record { coherent = h; unchanged = λ k. refl }

  pub Follows-refl : (l : Loop S L) → Coherent l.cache → Follows l l
  Follows-refl l h = record { kept = Kept-refl l.cache h; tracks = λ t. t }

  pub clock_read-Kept : (c : Cache S L) → Coherent c → Keeps c (clock_read inner lru cfg c).1
  unfolding clock_read now
  clock_read-Kept c h = record {
    coherent = record {
      inv = h.inv;
      agrees = record { at = h.agrees.at; listed = h.agrees.listed };
    };
    unchanged = λ k. refl;
  }

  remove-Kept : (name : Bytes) (c : Cache S L) → Coherent c → Keeps c (remove inner lru cfg name c)
  unfolding remove
  remove-Kept name c h = record {
    coherent = record {
      inv = h.inv;
      agrees = record {
        at = remove-at inner lru cfg good (law.view c.inner) name c.recs h.agrees.at;
        listed = h.agrees.listed;
      };
    };
    unchanged = λ k. refl;
  }

  -- A step that keeps the names that are warmed.
  pub same_names :
      (l m : Loop S L)
      → Keeps l.cache m.cache
      → ((k : Bytes) → has_key k m.next ≡ has_key k l.next)
      → Follows l m
  same_names l m p h = record {
    kept = p;
    tracks = λ t. record { names = λ k. h k ∙ t.names k ∙ ap is_some (sym (p.unchanged k)) };
  }

  postpone-Follows :
      (d : ℕ) (name : Bytes) (l : Loop S L)
      → Coherent l.cache
      → has_key name l.next ≡ true
      → Follows l (postpone inner lru cfg d name l)
  unfolding postpone clock_read now
  postpone-Follows d name l h p = same_names l _ (clock_read-Kept l.cache h) (λ k.
      ground
        (arith, bytes_eq_iff name k, lookup-put name k (cfg.clock l.cache.oracle.reads + d) l.next))

  -- The end of `warm`, as load-Answered describes it.
  module _ (name : Bytes) (l : Loop S L) (here : has_key name l.next ≡ true) where
    later :
        (d : ℕ) (c : Cache S L)
        → Keeps l.cache c
        → Follows l (postpone inner lru cfg d name (record l { cache = c }))
    later d c p =
        Follows-trans l (record l { cache = c }) _ (same_names l _ p (λ k. refl))
          (postpone-Follows d name (record l { cache = c }) p.coherent here)

    rescheduled-Follows :
        (x : Result Record × Cache S L)
        → Keeps l.cache x.1
        → ((e : Error)
            → x.0 ≡ err e
            → is e Sentinel.backend_not_found ≡ true
            → held inner lru cfg good law sole l.cache name ≡ none)
        → Follows l (rescheduled inner lru cfg name l x)
    unfolding rescheduled
    rescheduled-Follows (ok r, c) p gone = later (refresh_ahead cfg.ttl) c p
    rescheduled-Follows (err e, c) p gone = elim (Bool-cases (is e Sentinel.backend_not_found)) [
      | inl n ↦
          rw n (record { kept = p; tracks = λ t. absurd (cc (t.names name, gone e refl n, here)) })
      | inr n ↦ rw n (elim (Bool-cases (is e Sentinel.rate_limited)) [
        | inl q ↦ rw q (later (refresh_ahead cfg.ttl) c p)
        | inr q ↦ rw q (elim (Bool-cases (is e Sentinel.unavailable)) [
          | inl u ↦ rw u (later (retry_gap cfg.ttl) c p)
          | inr u ↦ rw u (later (refresh_ahead cfg.ttl) c p)
        ])
      ])
    ]

    warmed-Follows :
        (gone : Bool)
        → Coherent l.cache
        → Follows l (rescheduled inner lru cfg name l (warm inner lru cfg gone name l.cache))
    unfolding warm
    warmed-Follows true h =
        rescheduled-Follows _ (Kept-refl l.cache h) (λ e p q. absurd (ground (arith)))
    warmed-Follows false h =
        let a =
          load-Answered inner lru cfg good law sole (with_force_refresh (background inner lru cfg))
            name l.cache h in
        rescheduled-Follows _ a.kept a.on_not_found

  due-Follows :
      (gone : Bool) (name : Bytes) (deadline : ℕ) (l : Loop S L)
      → Coherent l.cache
      → has_key name l.next ≡ true
      → Follows l (when_due inner lru cfg gone name deadline l (clock_read inner lru cfg l.cache))
  unfolding when_due clock_read now
  due-Follows gone name deadline l h here =
      let k = clock_read-Kept l.cache h in
      let m = record l { cache = (clock_read inner lru cfg l.cache).1 } in
      elim (Bool-cases (ltb (cfg.clock l.cache.oracle.reads) deadline)) [
        | inl early ↦ rw early (same_names l m k (λ j. refl))
        | inr late ↦ rw late (
            Follows-trans l m _ (same_names l m k (λ j. refl))
              (warmed-Follows name m here gone k.coherent))
      ]

  visit-Follows :
      (gone : Bool) (name : Bytes) (l : Loop S L)
      → Coherent l.cache
      → Follows l (visit inner lru cfg gone name l)
  unfolding visit
  visit-Follows gone name l h = elim (Option-cases (lookup name l.next)) [
    | inl out ↦ rw (out, visit) (Follows-refl l h)
    | inr (deadline, here) ↦ rw (here, visit) (due-Follows gone name deadline l h (ap is_some here))
  ]

  warm_due-Follows :
      (p : Pass) (ns : List Bytes) (l : Loop S L)
      → Coherent l.cache
      → Follows l (warm_due inner lru cfg p ns l).1
  unfolding warm_due
  warm_due-Follows p [] l h = Follows-refl l h
  warm_due-Follows p (n ∷ ns) l h = elim (Bool-cases (p.done_before n)) [
    | inl stop ↦ rw (stop, warm_due) (Follows-refl l h)
    | inr on ↦
        rw (on, warm_due)
          (let f = visit-Follows (p.done_at_warm n) n l h in
            Follows-trans l _ _ f
              (warm_due-Follows p ns (visit inner lru cfg (p.done_at_warm n) n l) f.kept.coherent))
  ]

  woken-Follows :
      (w : Wake) (l : Loop S L) → Coherent l.cache → Follows l (woken inner lru cfg w l).1
  unfolding woken clock_read now
  woken-Follows done l h = Follows-refl l h
  woken-Follows timed_out l h = Follows-refl l h
  woken-Follows reprimed l h =
      same_names l _ (clock_read-Kept l.cache h) (λ k. has_key-all_due _ l.next k)

  waiting-Follows :
      (p : Pass) (x : Bool × Loop S L)
      → Coherent x.1.cache
      → Follows x.1 (waiting inner lru cfg p x).1
  unfolding waiting
  waiting-Follows p (true, l) h = woken-Follows p.wake l h
  waiting-Follows p (false, l) h = Follows-refl l h

  pub warm_all-Follows :
      (p : Pass) (l : Loop S L) → Coherent l.cache → Follows l (warm_all inner lru cfg p l).1
  unfolding warm_all
  warm_all-Follows p l h =
      let f = warm_due-Follows p (p.order (keys l.next)) l h in
      Follows-trans l _ _ f (waiting-Follows p _ f.kept.coherent)

  drop_gone-Kept :
      (names ns : List Bytes) (l : Loop S L)
      → Coherent l.cache
      → Keeps l.cache (drop_gone inner lru cfg names ns l).cache
  unfolding drop_gone
  drop_gone-Kept names [] l h = Kept-refl l.cache h
  drop_gone-Kept names (n ∷ ns) l h = elim (Bool-cases (contains n names)) [
    | inl here ↦ rw (here, drop_gone) (drop_gone-Kept names ns l h)
    | inr gone ↦
        rw (gone, drop_gone)
          (let k = remove-Kept n l.cache h in
            Kept-trans inner lru cfg good law sole l.cache _ _ k (
              drop_gone-Kept names ns
                (record l { next = delete n l.next; cache = remove inner lru cfg n l.cache })
                k.coherent))
  ]

  reconcile-Kept :
      (sweep : List Bytes → List Bytes) (names : List Bytes) (l : Loop S L)
      → Coherent l.cache
      → Keeps l.cache (reconcile inner lru cfg sweep names l).cache
  unfolding reconcile swept clock_read now
  reconcile-Kept sweep names l h =
      let k = clock_read-Kept l.cache h in
      Kept-trans inner lru cfg good law sole l.cache _ _ k (
        drop_gone-Kept names (sweep (keys (add_new (cfg.clock l.cache.oracle.reads) names l.next)))
          (record l {
            next = add_new (cfg.clock l.cache.oracle.reads) names l.next;
            cache = (clock_read inner lru cfg l.cache).1;
          })
          k.coherent)

  module _ (p : Pass) (any : IsOrder p.sweep) where
    -- A listing that succeeded: the names that have a deadline are those that are held.
    pub listed-Follows :
        (names : List Bytes) (l : Loop S L)
        → Coherent l.cache
        → ((k : Bytes) → contains k names ≡ is_some (held inner lru cfg good law sole l.cache k))
        → Follows l (relisted inner lru cfg (reconcile inner lru cfg p.sweep names l))
          × IsTracking (relisted inner lru cfg (reconcile inner lru cfg p.sweep names l))
    unfolding relisted clock_read now
    listed-Follows names l h right =
        let m = reconcile inner lru cfg p.sweep names l in
        let k = reconcile-Kept p.sweep names l h in
        let f =
          same_names m (relisted inner lru cfg m) (clock_read-Kept m.cache k.coherent)
            (λ j. refl) in
        let e = reconcile-Reconciled inner lru cfg good p.sweep any names l in
        let t : IsTracking m = record {
          names = λ j. ground (arith, e.deadline j, right j, k.unchanged j);
        } in
        (
          record {
            kept = Kept-trans inner lru cfg good law sole l.cache m.cache _ k f.kept;
            tracks = λ u. f.tracks t;
          },
          f.tracks t,
        )
