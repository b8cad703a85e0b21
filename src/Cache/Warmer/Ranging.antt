-- ===== src/Cache/Warmer/Ranging.antt =====
-- backend/cache/warmer.go: the range over `next`, name by name.
use ts1p.Prelude.{
  ℕ, ◌≤◌, ◌<◌, ◌≡◌, refl, sym, ◌∙◌, ◌⊎◌, inl, inr, true, false, Bool-cases, some, List, [], ◌∷◌,
  Bytes, bytes_eq, bytes_eq_eq, bytes_eq_iff, lookup, contains, arith,
}
use ts1p.Backend.{Backend}
use ts1p.Cache.Eviction.{Lru, IsLru}
use ts1p.Cache.Timing.{Config}
use ts1p.Cache.Warmer.{Pass, visit, warm_due}
use ts1p.Cache.Warmer.Asking.{noting, Warming, log, time, Visited, visit-Visited}

module _ {S L : Type 0} (b : Backend S) (lru : Lru L) (cfg : Config) (good : IsLru lru)
    (long : 4 ≤ cfg.ttl) (forward : (i j : ℕ) → i ≤ j → cfg.clock i ≤ cfg.clock j) where
  abbrev inner : Backend (List Bytes × S)
  inner = noting b

  -- What a range over `ns` does, from `l` to `m`.
  pub record Ranged (ns : List Bytes) (l m : Warming S L) : Type 0 where
    pub reads : l.cache.oracle.reads ≤ m.cache.oracle.reads
    pub kept : (k : Bytes) → contains k (log l) ≡ true → contains k (log m) ≡ true
    pub asked :
        (k : Bytes) (d : ℕ)
        → contains k ns ≡ true
        → lookup k l.next ≡ some d
        → d ≤ time cfg l
        → contains k (log m) ≡ true
    pub only :
        (k : Bytes)
        → contains k (log m) ≡ true
        → (contains k (log l) ≡ true) ⊎ ((d : ℕ) × (lookup k l.next ≡ some d) × (d ≤ time cfg m))
    pub untouched : (k : Bytes) → contains k ns ≡ false → lookup k m.next ≡ lookup k l.next
    pub later :
        (k : Bytes) (d : ℕ) → contains k ns ≡ true → lookup k m.next ≡ some d → time cfg l < d

  module _ (p : Pass) (free : (n : Bytes) → p.done_before n ≡ false)
      (calm : (n : Bytes) → p.done_at_warm n ≡ false) where
    step-Ranged :
        (n : Bytes) (ns : List Bytes) (l m x : Warming S L)
        → Visited b lru cfg good long forward n l m
        → Ranged ns m x
        → Ranged (n ∷ ns) l x
    unfolding contains
    step-Ranged n ns l m x (Visited.absent out g t e) r =
        let u = forward l.cache.oracle.reads m.cache.oracle.reads t in
        record {
          reads = omega (arith, t, r.reads);
          kept = λ k h. r.kept k (ground (arith, h, g));
          asked = λ k d h q v.
              r.asked k d (ground (arith, h, q, out, bytes_eq_iff n k)) (ground (arith, q, e))
                (omega (arith, u, v));
          only = λ k h. ground (arith, r.only k h, g, e);
          untouched = λ k h. ground (arith, r.untouched k, h, e);
          later = λ k d h q.
              ground (arith, r.later k d, r.untouched k, h, q, e, out, u, bytes_eq_iff n k);
        }
    step-Ranged n ns l m x (Visited.early d here q g t e) r =
        let u = forward l.cache.oracle.reads m.cache.oracle.reads t in
        record {
          reads = omega (arith, t, r.reads);
          kept = λ k h. r.kept k (ground (arith, h, g));
          asked = λ k y h w v.
              r.asked k y (ground (arith, h, w, v, here, q, bytes_eq_iff n k))
                (ground (arith, w, e)) (omega (arith, u, v));
          only = λ k h. ground (arith, r.only k h, g, e);
          untouched = λ k h. ground (arith, r.untouched k, h, e);
          later = λ k y h w.
              ground (arith, r.later k y, r.untouched k, h, w, e, here, q, u, bytes_eq_iff n k);
        }
    step-Ranged n ns l m x (Visited.was_due d here q g t e f) r =
        let u = forward l.cache.oracle.reads m.cache.oracle.reads t in
        let v = forward m.cache.oracle.reads x.cache.oracle.reads r.reads in
        record {
          reads = omega (arith, t, r.reads);
          kept = λ k h. r.kept k (ground (arith, h, g));
          asked = λ k y h w z. elim (Bool-cases (bytes_eq n k)) [
            | inl same ↦ r.kept k (ground (arith, g, same))
            | inr other ↦
                r.asked k y (ground (arith, h, other)) (e k other ∙ w) (omega (arith, u, z))
          ];
          only = λ k h. elim (Bool-cases (bytes_eq n k)) [
            | inl same ↦
                inr (d, ground (arith, bytes_eq_iff n k, same, here), omega (arith, q, u, v))
            | inr other ↦ elim (r.only k h) [
              | inl a ↦ inl (ground (arith, a, g, other))
              | inr (y, a, late) ↦ inr (y, sym (e k other) ∙ a, late)
            ]
          ];
          untouched = λ k h. ground (arith, r.untouched k, h, e k);
          later =
              λ k y h w. ground (arith, r.later k y, r.untouched k, h, w, f y, u, bytes_eq_iff n k);
        }

    pub warm_due-Ranged :
        (ns : List Bytes) (l : Warming S L)
        → ((warm_due inner lru cfg p ns l).0 ≡ true) × Ranged ns l (warm_due inner lru cfg p ns l).1
    unfolding warm_due contains
    warm_due-Ranged [] l = (
      refl,
      record {
        reads = omega arith;
        kept = λ k h. h;
        asked = λ k d h. absurd (cc);
        only = λ k h. inl h;
        untouched = λ k h. refl;
        later = λ k d h. absurd (cc);
      },
    )
    warm_due-Ranged (n ∷ ns) l =
        let m = visit inner lru cfg false n l in
        let (t, r) = warm_due-Ranged ns m in
        rw (free n, calm n, warm_due)
          (t, step-Ranged n ns l m _ (visit-Visited b lru cfg good long forward n l) r)
