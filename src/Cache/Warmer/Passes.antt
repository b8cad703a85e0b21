-- ===== src/Cache/Warmer/Passes.antt =====
-- backend/cache/warmer.go: whole passes of the loop, and `Run`.
use ts1p.Prelude.{
  ◌+◌, ◌≤◌, ◌≡◌, refl, sym, ap, ◌∙◌, ◌⊎◌, inl, inr, Bool, false, Bool-cases, List, [], ◌∷◌, is_some,
  ltb, Bytes, bytes_eq_eq, contains, arith,
}
use ts1p.Errors.{Result, ok, err}
use ts1p.Backend.{Backend, IsLawful, with_force_refresh}
use ts1p.Cache.Eviction.{Lru, IsLru}
use ts1p.Cache.Timing.{Config, now}
use ts1p.Cache.{Cache, list}
use ts1p.Cache.Coherence.{IsExclusive, IsCoherent, Kept, held, Kept-trans, list-Listed}
use ts1p.Cache.Warmer.{
  Loop, Pass, Ended, returned, again, reconcile, clock_read, background, relisted, with_names,
  relist, pass, passes, begin, loop,
}
use ts1p.Cache.Warmer.Reconcile.{IsOrder}
use ts1p.Cache.Warmer.Tracking.{
  IsTracking, Follows, Follows-trans, Follows-refl, clock_read-Kept, same_names, warm_all-Follows,
  listed-Follows,
}

-- Each pass has the sweep of a Go map.
pub data Sweeps : List Pass → Type 0 where
  none_left : Sweeps []
  one_more : (p : Pass) (ps : List Pass) → IsOrder p.sweep → Sweeps ps → Sweeps (p ∷ ps)

Ended-cases : (e : Ended) → (e ≡ returned) ⊎ (e ≡ again)
Ended-cases returned = inl refl
Ended-cases again = inr refl

module _ {S L : Type 0} (inner : Backend S) (lru : Lru L) (cfg : Config) (good : IsLru lru)
    (law : IsLawful inner) (sole : IsExclusive law) where
  abbrev Coherent : Cache S L → Type 0
  Coherent c = IsCoherent inner lru cfg good law sole c

  abbrev Goes : Loop S L → Loop S L → Type 0
  Goes l m = Follows inner lru cfg good law sole l m

  abbrev Tracks : Loop S L → Type 0
  Tracks l = IsTracking inner lru cfg good law sole l

  -- The forced read of the names, after the clock was read once.
  abbrev pub relisting : Loop S L → Result (List Bytes) × Cache S L
  relisting l =
      list inner lru cfg (with_force_refresh (background inner lru cfg))
        (clock_read inner lru cfg l.cache).1

  -- What a pass makes of a loop whose cache is right.
  pub record Passed (p : Pass) (l : Loop S L) (x : Ended × Loop S L) : Type 0 where
    pub follows : Goes l x.1
    pub found :
        (names : List Bytes)
        → p.done_first ≡ false
        → ltb (cfg.clock l.cache.oracle.reads) l.relist_at ≡ false
        → (relisting l).0 ≡ ok names
        → Tracks x.1

  module _ (p : Pass) (any : IsOrder p.sweep) where
    with_names-Follows :
        (l : Loop S L) (x : Result (List Bytes) × Cache S L)
        → Kept inner lru cfg good law sole l.cache x.1
        → ((names : List Bytes)
            → x.0 ≡ ok names
            → (k : Bytes) → contains k names ≡ is_some (held inner lru cfg good law sole l.cache k))
        → Goes l (with_names inner lru cfg p l x).1
          × ((names : List Bytes) → x.0 ≡ ok names → Tracks (with_names inner lru cfg p l x).1)
    unfolding with_names
    with_names-Follows l (err e, c) kept right =
        (same_names inner lru cfg good law sole l _ kept (λ k. refl), λ names q. absurd (cc))
    with_names-Follows l (ok names, c) kept right =
        let m = record l { cache = c } in
        let f =
          listed-Follows inner lru cfg good law sole p any names m kept.coherent
            (λ k. right names refl k ∙ ap is_some (sym (kept.unchanged k))) in
        let w =
          warm_all-Follows inner lru cfg good law sole p
            (relisted inner lru cfg (reconcile inner lru cfg p.sweep names m)) f.0.kept.coherent in
        (
          Follows-trans inner lru cfg good law sole l m _
              (same_names inner lru cfg good law sole l m kept (λ k. refl))
              (Follows-trans inner lru cfg good law sole m _ _ f.0 w),
          λ ns q. w.tracks f.1,
        )

    -- Over a lawful inner backend that nothing else writes to, one pass of the loop, however it goes,
    -- keeps the cache right and changes nothing that is held; if the warmer had a deadline for exactly
    -- the names that are held, it still does; and if the pass is due to read the names and reads them, it
    -- does afterwards, whatever it had before.
    pub pass-Passed : (l : Loop S L) → Coherent l.cache → Passed p l (pass inner lru cfg p l)
    unfolding pass relist clock_read now
    pass-Passed l h = elim (Bool-cases p.done_first) [
      | inl stop ↦ rw stop (record {
        follows = Follows-refl inner lru cfg good law sole l h;
        found = λ names q. absurd (cc);
      })
      | inr on ↦
          let k = clock_read-Kept inner lru cfg good law sole l.cache h in
          let m = record l { cache = (clock_read inner lru cfg l.cache).1 } in
          let f = same_names inner lru cfg good law sole l m k (λ j. refl) in
          rw on (elim (Bool-cases (ltb (cfg.clock l.cache.oracle.reads) l.relist_at)) [
            | inl early ↦ rw early (record {
              follows =
                  Follows-trans inner lru cfg good law sole l m _ f
                    (warm_all-Follows inner lru cfg good law sole p m k.coherent);
              found = λ names q e. absurd (cc);
            })
            | inr due ↦ rw due (
                let a =
                  list-Listed inner lru cfg good law sole
                    (with_force_refresh (background inner lru cfg)) m.cache k.coherent in
                let w = with_names-Follows m (relisting l) a.kept a.names in
                record {
                  follows = Follows-trans inner lru cfg good law sole l m _ f w.0;
                  found = λ names q e r. w.1 names r;
                })
          ])
    ]

  passes-Follows :
      (ps : List Pass) (l : Loop S L)
      → Sweeps ps
      → Coherent l.cache
      → Goes l (passes inner lru cfg ps l).1
  unfolding passes
  passes-Follows [] l none_left h = Follows-refl inner lru cfg good law sole l h
  passes-Follows (p ∷ ps) l (one_more _ _ any more) h =
      let f = (pass-Passed p any l h).follows in
      let rest = passes-Follows ps (pass inner lru cfg p l).1 more f.kept.coherent in
      elim (Ended-cases (pass inner lru cfg p l).0) [
        | inl stop ↦ rw (stop, passes) f
        | inr on ↦ rw (on, passes) (Follows-trans inner lru cfg good law sole l _ _ f rest)
      ]

  begin-Kept :
      (asked : Bool) (c : Cache S L)
      → Coherent c
      → Kept inner lru cfg good law sole c (begin inner lru cfg asked c).cache
  unfolding begin
  begin-Kept asked c h = clock_read-Kept inner lru cfg good law sole c h

  -- What comes of the loop, from a right cache, when its first pass is `p`.
  pub record Ran (p : Pass) (asked : Bool) (c : Cache S L) (x : Ended × Loop S L) : Type 0 where
    pub kept : Kept inner lru cfg good law sole c x.1.cache
    pub found :
        (names : List Bytes)
        → p.done_first ≡ false
        → cfg.clock c.oracle.reads ≤ cfg.clock (c.oracle.reads + 1)
        → (relisting (begin inner lru cfg asked c)).0 ≡ ok names
        → Tracks x.1

  -- Over a lawful inner backend that nothing else writes to, wherever the loop is stopped, the cache is
  -- right and nothing that is held has changed; if the clock does not go back before the first listing,
  -- and that listing succeeds, then after every pass the warmer has a deadline for exactly the names that
  -- are held.
  pub loop-Ran :
      (p : Pass) (ps : List Pass) (asked : Bool) (c : Cache S L)
      → Sweeps (p ∷ ps)
      → Coherent c
      → Ran p asked c (loop inner lru cfg (p ∷ ps) asked c)
  unfolding loop passes begin clock_read now
  loop-Ran p ps asked c (one_more _ _ any more) h =
      let l = begin inner lru cfg asked c in
      let k = begin-Kept asked c h in
      let first = pass-Passed p any l k.coherent in
      let rest = passes-Follows ps (pass inner lru cfg p l).1 more first.follows.kept.coherent in
      record {
        kept =
            Kept-trans inner lru cfg good law sole c _ _ k
              (passes-Follows (p ∷ ps) l (one_more p ps any more) k.coherent).kept;
        found = λ names q clock r.
            let t = first.found names q (ground (arith, clock)) r in
            elim (Ended-cases (pass inner lru cfg p l).0) [
              | inl stop ↦ rw (stop, passes) t
              | inr on ↦ rw (on, passes) (rest.tracks t)
            ];
      }
