-- ===== src/Cache/Warmer/Sweeping.antt =====
-- backend/cache/warmer.go: what one pass of the loop asks the inner backend for, and when.
use ts1p.Prelude.{
  ℕ, ◌+◌, ◌≤◌, ◌<◌, ◌≡◌, refl, sym, ap, ◌∙◌, ◌⊎◌, inl, inr, Bool, true, false, Bool-cases, some,
  List, [], ◌∷◌, ltb, Bytes, bytes_eq_eq, Map, has_key, keys, lookup, delete, contains, subst,
  contains-keys, arith,
}
use ts1p.Errors.{Result, ok, err}
use ts1p.Backend.{Backend, without_cancel, with_force_refresh, force_refresh}
use ts1p.Cache.Eviction.{Lru, IsLru}
use ts1p.Cache.Timing.{Config, now}
use ts1p.Cache.Expiry.{reads-expires_at}
use ts1p.Cache.{Cache, list, remove, fill_names, keep_names, settle_names, fetch_names}
use ts1p.Cache.Listing.{inner-fetch_names}
use ts1p.Cache.Warmer.{
  Pass, clock_read, background, warm_due, warm_all, waiting, woken, Ended, again, timed_out, relist,
  with_names, pass, reconcile, relisted, drop_gone, add_new, swept,
}
use ts1p.Cache.Warmer.Reconcile.{IsOrder}
use ts1p.Cache.Warmer.Asking.{noting, Warming, log, time}
use ts1p.Cache.Warmer.Ranging.{warm_due-Ranged}

module _ {S L : Type 0} (b : Backend S) (lru : Lru L) (cfg : Config) (good : IsLru lru)
    (long : 4 ≤ cfg.ttl) (forward : (i j : ℕ) → i ≤ j → cfg.clock i ≤ cfg.clock j) where
  abbrev inner : Backend (List Bytes × S)
  inner = noting b

  module _ (p : Pass) (free : (n : Bytes) → p.done_before n ≡ false)
      (calm : (n : Bytes) → p.done_at_warm n ≡ false) where
    -- What a whole range over `next` does, from a time `t` and a log on.
    pub record Swept (next : Map Bytes ℕ) (t : ℕ) (before : List Bytes) (m : Warming S L)
        : Type 0 where
      pub asked : (k : Bytes) (d : ℕ) → lookup k next ≡ some d → d ≤ t → contains k (log m) ≡ true
      pub only :
          (k : Bytes)
          → contains k (log m) ≡ true
          → (contains k before ≡ true) ⊎ ((d : ℕ) × (lookup k next ≡ some d) × (d ≤ time cfg m))
      pub later : (k : Bytes) (d : ℕ) → lookup k m.next ≡ some d → t < d

    warm_due-Swept :
        IsOrder p.order
        → (l : Warming S L) (t : ℕ) → t ≤ time cfg l
        → Swept l.next t (log l) (warm_due inner lru cfg p (p.order (keys l.next)) l).1
    warm_due-Swept any l t before =
        let (e, r) =
          warm_due-Ranged b lru cfg good long forward p free calm (p.order (keys l.next)) l in
        let has : (k : Bytes) → contains k (p.order (keys l.next)) ≡ has_key k l.next =
          λ k. any.visits k (keys l.next) ∙ contains-keys k l.next in
        record {
          asked =
              λ k d h late. r.asked k d (ground (arith, has k, h)) h (omega (arith, before, late));
          only = r.only;
          later = λ k d h. elim (Bool-cases (contains k (p.order (keys l.next)))) [
            | inl here ↦ omega (arith, before, r.later k d here h)
            | inr out ↦ absurd (ground (arith, has k, out, r.untouched k out, h))
          ];
        }

    module _ (any : IsOrder p.order) (slept : p.wake ≡ timed_out) where
      waiting-slept :
          (x : Bool × Warming S L) → x.0 ≡ true → waiting inner lru cfg p x ≡ (again, x.1)
      unfolding waiting woken
      waiting-slept (true, l) e = ap (λ w. woken inner lru cfg w l) slept
      waiting-slept (false, l) e = absurd (cc)

      warm_all-Swept :
          (l : Warming S L) (t : ℕ)
          → t ≤ time cfg l
          → ((warm_all inner lru cfg p l).0 ≡ again)
            × Swept l.next t (log l) (warm_all inner lru cfg p l).1
      unfolding warm_all
      warm_all-Swept l t before =
          let w = warm_due inner lru cfg p (p.order (keys l.next)) l in
          subst (λ (x : Ended × Warming S L). (x.0 ≡ again) × Swept l.next t (log l) x.1)
            (sym (
              waiting-slept w
                (warm_due-Ranged b lru cfg good long forward p free calm (p.order (keys l.next))
                  l).0))
            (refl, warm_due-Swept any l t before)

      -- The forced read of the names, after the clock was read once.
      abbrev relisting : Warming S L → Result (List Bytes) × Cache (List Bytes × S) L
      relisting l =
          list inner lru cfg (with_force_refresh (background inner lru cfg))
            (clock_read inner lru cfg l.cache).1

      abbrev reconciled : List Bytes → Warming S L → Warming S L
      reconciled names l =
          reconcile inner lru cfg p.sweep names (record l { cache = (relisting l).1 })

      -- What a pass does, whether it is due to read the names or not.
      pub record Warms (l : Warming S L) (x : Ended × Warming S L) : Type 0 where
        pub unlisted :
            ltb (time cfg l) l.relist_at ≡ true
            → (x.0 ≡ again) × Swept l.next (time cfg l) (log l) x.1
        pub listed :
            (names : List Bytes)
            → ltb (time cfg l) l.relist_at ≡ false
            → (relisting l).0 ≡ ok names
            → (x.0 ≡ again) × Swept (reconciled names l).next (time cfg l) (log l) x.1

      reads-fill_names :
          (seq : ℕ) (c : Cache (List Bytes × S) L) (x : Result (List Bytes) × (List Bytes × S))
          → c.oracle.reads ≤ (fill_names inner lru cfg seq c x).1.oracle.reads
      unfolding fill_names keep_names
      reads-fill_names seq c (ok ns, s) =
          let h = reads-expires_at cfg c.oracle (omega (arith, long)) in ground (arith, h)
      reads-fill_names seq c (err e, s) = omega arith

      reads-settle_names :
          (x : Result (List Bytes) × Cache (List Bytes × S) L)
          → (settle_names inner lru cfg true x).1.oracle.reads ≡ x.1.oracle.reads
      unfolding settle_names
      reads-settle_names (ok ns, c) = refl
      reads-settle_names (err e, c) = refl

      -- What leaves the log as it is, while the clock goes on.
      record Quiet (c d : Cache (List Bytes × S) L) : Type 0 where
        same_log : d.inner.0 ≡ c.inner.0
        reads : c.oracle.reads ≤ d.oracle.reads

      relisting-Quiet : (l : Warming S L) → Quiet l.cache (relisting l).1
      unfolding list with_force_refresh force_refresh fetch_names clock_read now
      relisting-Quiet l =
          let ctx = with_force_refresh (background inner lru cfg) in
          let c = (clock_read inner lru cfg l.cache).1 in
          let x = inner.list (without_cancel ctx) c.inner in
          record {
            same_log =
                ap (λ (s : List Bytes × S). s.0) (inner-fetch_names inner lru cfg good ctx c);
            reads = omega (
              arith,
              reads-fill_names c.seq c x,
              reads-settle_names (fill_names inner lru cfg c.seq c x),
            );
          }

      drop_gone-Quiet :
          (names ns : List Bytes) (l : Warming S L)
          → Quiet l.cache (drop_gone inner lru cfg names ns l).cache
      unfolding drop_gone remove
      drop_gone-Quiet names [] l = record { same_log = refl; reads = omega arith }
      drop_gone-Quiet names (n ∷ ns) l = elim (Bool-cases (contains n names)) [
        | inl here ↦ rw (here, drop_gone) (drop_gone-Quiet names ns l)
        | inr gone ↦
            rw (gone, drop_gone)
              (let q =
                  drop_gone-Quiet names ns
                    (record l { next = delete n l.next; cache = remove inner lru cfg n l.cache }) in
                record { same_log = q.same_log; reads = q.reads })
      ]

      reconcile-Quiet :
          (sweep : List Bytes → List Bytes) (names : List Bytes) (l : Warming S L)
          → Quiet l.cache (reconcile inner lru cfg sweep names l).cache
      unfolding reconcile swept clock_read now
      reconcile-Quiet sweep names l =
          let t = cfg.clock l.cache.oracle.reads in
          let q = drop_gone-Quiet names (sweep (keys (add_new t names l.next))) (record l {
            next = add_new t names l.next;
            cache = (clock_read inner lru cfg l.cache).1;
          }) in
          record { same_log = q.same_log; reads = omega (arith, q.reads) }

      listed-Swept :
          (names : List Bytes) (l : Warming S L)
          → ((with_names inner lru cfg p l (ok names, (relisting l).1)).0 ≡ again)
            × Swept
                (reconciled names l).next
                (time cfg l)
                (log l)
                (with_names inner lru cfg p l (ok names, (relisting l).1)).1
      unfolding with_names relisted clock_read now
      listed-Swept names l =
          let a = relisting-Quiet l in
          let r = reconciled names l in
          let q = reconcile-Quiet p.sweep names (record l { cache = (relisting l).1 }) in
          let m = relisted inner lru cfg r in
          let (e, w) =
            warm_all-Swept m (time cfg l) (
              forward l.cache.oracle.reads m.cache.oracle.reads
                (omega (arith, a.reads, q.reads))) in
          (
            e,
            record {
              asked = w.asked;
              only = λ k h. ground (arith, w.only k h, q.same_log, a.same_log);
              later = w.later;
            },
          )

      relist-Warms :
          (l : Warming S L) → Warms l (relist inner lru cfg p l (clock_read inner lru cfg l.cache))
      unfolding relist clock_read now
      relist-Warms l = elim (Bool-cases (ltb (time cfg l) l.relist_at)) [
        | inl soon ↦ rw soon (record {
          unlisted = λ e.
              warm_all-Swept (record l { cache = (clock_read inner lru cfg l.cache).1 })
                (time cfg l)
                (forward l.cache.oracle.reads (l.cache.oracle.reads + 1) (omega arith));
          listed = λ names e. absurd (cc);
        })
        | inr due ↦ rw due (record {
          unlisted = λ e. absurd (cc);
          listed = λ names e q.
              let w : relisting l ≡ (ok names, (relisting l).1) = λ i. (q i, (relisting l).1) in
              subst
                (λ x.
                  ((with_names inner lru cfg p l x).0 ≡ again)
                  × Swept (reconciled names l).next (time cfg l) (log l)
                      (with_names inner lru cfg p l x).1)
                (sym w) (listed-Swept names l);
        })
      ]

      -- Over any inner backend, however it answers, with a TTL of at least 4 ns and a clock that does not
      -- go back: one pass of the loop that is not stopped and that sleeps at its end asks the inner
      -- backend itself, past what is cached, for every name that is due when the pass begins, and for no
      -- name that is not due when it ends, in whatever order it visits them; and no deadline that is left
      -- is at or before the time when it began. The names are those that it had, or those that reconcile
      -- leaves, if it is due to read the names and reads them.
      pub pass-Warms : p.done_first ≡ false → (l : Warming S L) → Warms l (pass inner lru cfg p l)
      unfolding pass
      pass-Warms on l =
          let e : pass inner lru cfg p l
              ≡ relist inner lru cfg p l (clock_read inner lru cfg l.cache) =
            rw on refl in
          subst (Warms l) (sym e) (relist-Warms l)
