-- ===== src/Cache/Warmer/Asking.antt =====
-- backend/cache/warmer.go: one name of the range over `next`, and what the inner backend is asked for.
use ts1p.Prelude.{
  ℕ, ◌+◌, ◌≤◌, ◌<◌, ◌≡◌, refl, ap, ◌∙◌, inl, inr, true, false, Bool-cases, Option-cases, none, some,
  List, ◌∷◌, ltb, Bytes, bytes_eq, bytes_eq_eq, bytes_eq_iff, lookup, lookup-put, lookup-delete,
  arith,
}
use ts1p.Errors.{Sentinel, is, Result, ok, err}
use ts1p.Backend.{Record, Backend, without_cancel, with_force_refresh, force_refresh}
use ts1p.Cache.Eviction.{Lru, IsLru}
use ts1p.Cache.Timing.{Config, now, negative_expiry}
use ts1p.Cache.Expiry.{reads-expires_at}
use ts1p.Cache.{Cache, load, fetch, fill, settle, store, store_negative, add_entry}
use ts1p.Cache.Reading.{inner-fetch}
use ts1p.Cache.Warmer.{
  Loop, refresh_ahead, retry_gap, clock_read, background, warm, postpone, rescheduled, when_due,
  visit,
}

-- A backend that notes which names it was asked to load.
abbrev pub noting : {S : Type 0} → Backend S → Backend (List Bytes × S)
noting b = record {
  load = λ ctx n s. let (x, t) = b.load ctx n s.1 in (x, (n ∷ s.0, t));
  save = λ ctx n r s. let (x, t) = b.save ctx n r s.1 in (x, (s.0, t));
  list = λ ctx s. let (x, t) = b.list ctx s.1 in (x, (s.0, t));
  delete = λ ctx n s. let (x, t) = b.delete ctx n s.1 in (x, (s.0, t));
}

abbrev pub Warming : Type 0 → Type 0 → Type 0
Warming S L = Loop (List Bytes × S) L

-- What the inner backend was asked for, the last first.
abbrev pub log : {S L : Type 0} → Warming S L → List Bytes
log l = l.cache.inner.0

abbrev pub time : {S L : Type 0} → Config → Warming S L → ℕ
time cfg l = cfg.clock l.cache.oracle.reads

module _ {S L : Type 0} (b : Backend S) (lru : Lru L) (cfg : Config) (good : IsLru lru)
    (long : 4 ≤ cfg.ttl) (forward : (i j : ℕ) → i ≤ j → cfg.clock i ≤ cfg.clock j) where
  abbrev inner : Backend (List Bytes × S)
  inner = noting b

  pub reads-fill :
      (name : Bytes) (seq : ℕ) (c : Cache (List Bytes × S) L) (x : Result Record × (List Bytes × S))
      → c.oracle.reads ≤ (fill inner lru cfg name seq c x).1.oracle.reads
  unfolding fill store store_negative add_entry negative_expiry now
  reads-fill name seq c (ok r, s) =
      let h = reads-expires_at cfg c.oracle (omega (arith, long)) in ground (arith, h)
  reads-fill name seq c (err e, s) = ground arith

  pub reads-settle :
      (name : Bytes) (x : Result Record × Cache (List Bytes × S) L)
      → (settle inner lru cfg true name x).1.oracle.reads ≡ x.1.oracle.reads
  unfolding settle
  reads-settle name (ok r, c) = refl
  reads-settle name (err e, c) = refl

  -- A refresh asks the inner backend for its name, and the clock goes on.
  record Asked (name : Bytes) (c d : Cache (List Bytes × S) L) : Type 0 where
    noted : d.inner.0 ≡ name ∷ c.inner.0
    reads : c.oracle.reads ≤ d.oracle.reads

  warm-Asked :
      (name : Bytes) (c : Cache (List Bytes × S) L)
      → Asked name c (warm inner lru cfg false name c).1
  unfolding warm load with_force_refresh force_refresh fetch
  warm-Asked name c =
      let ctx = with_force_refresh (background inner lru cfg) in
      let x = inner.load (without_cancel ctx) name c.inner in
      record {
        noted = ap (λ (s : List Bytes × S). s.0) (inner-fetch inner lru cfg good ctx name c);
        reads = omega (
          arith,
          reads-fill name c.seq c x,
          reads-settle name (fill inner lru cfg name c.seq c x),
        );
      }

  -- One name's deadline may move, and only past `t`.
  record Moved (name : Bytes) (t : ℕ) (l m : Warming S L) : Type 0 where
    same_log : log m ≡ log l
    reads : l.cache.oracle.reads ≤ m.cache.oracle.reads
    elsewhere : (k : Bytes) → bytes_eq name k ≡ false → lookup k m.next ≡ lookup k l.next
    later : (d : ℕ) → lookup name m.next ≡ some d → t < d

  postpone-Moved :
      (d : ℕ) (name : Bytes) (t : ℕ) (l : Warming S L)
      → 0 < d
      → t ≤ time cfg l
      → Moved name t l (postpone inner lru cfg d name l)
  unfolding postpone clock_read now
  postpone-Moved d name t l positive early = record {
    same_log = refl;
    reads = omega arith;
    elsewhere = λ k e. ground (arith, e, lookup-put name k (time cfg l + d) l.next);
    later = λ x e. ground (
      arith,
      e,
      positive,
      early,
      bytes_eq_iff name name,
      lookup-put name name (time cfg l + d) l.next,
    );
  }

  rescheduled-Moved :
      (name : Bytes) (t : ℕ) (l : Warming S L) (x : Result Record × Cache (List Bytes × S) L)
      → t ≤ cfg.clock x.1.oracle.reads
      → Moved name t (record l { cache = x.1 }) (rescheduled inner lru cfg name l x)
  unfolding rescheduled
  rescheduled-Moved name t l (ok r, c) early =
      postpone-Moved (refresh_ahead cfg.ttl) name t (record l { cache = c }) (omega (arith, long))
        early
  rescheduled-Moved name t l (err e, c) early =
      let m = record l { cache = c } in
      let far = postpone-Moved (refresh_ahead cfg.ttl) name t m (omega (arith, long)) early in
      let near = postpone-Moved (retry_gap cfg.ttl) name t m (ground (arith, long)) early in
      elim (Bool-cases (is e Sentinel.backend_not_found)) [
        | inl q ↦ rw q (record {
          same_log = refl;
          reads = omega arith;
          elsewhere = λ k f. ground (arith, f, lookup-delete name k l.next);
          later = λ x f.
              absurd (ground (arith, f, bytes_eq_iff name name, lookup-delete name name l.next));
        })
        | inr q ↦ rw q (elim (Bool-cases (is e Sentinel.rate_limited)) [
          | inl f ↦ rw f far
          | inr f ↦ rw f (elim (Bool-cases (is e Sentinel.unavailable)) [
            | inl u ↦ rw u near
            | inr u ↦ rw u far
          ])
        ])
      ]

  -- What comes of one name of the range: it is no name of `next`; or it is not due; or it is, and the
  -- inner backend is asked for it.
  pub data Visited (name : Bytes) (l m : Warming S L) : Type 0 where
    absent :
        lookup name l.next ≡ none
        → log m ≡ log l
        → l.cache.oracle.reads ≤ m.cache.oracle.reads
        → m.next ≡ l.next
        → Visited name l m
    early :
        (d : ℕ)
        → lookup name l.next ≡ some d
        → time cfg l < d
        → log m ≡ log l
        → l.cache.oracle.reads ≤ m.cache.oracle.reads
        → m.next ≡ l.next
        → Visited name l m
    was_due :
        (d : ℕ)
        → lookup name l.next ≡ some d
        → d ≤ time cfg l
        → log m ≡ name ∷ log l
        → l.cache.oracle.reads ≤ m.cache.oracle.reads
        → ((k : Bytes) → bytes_eq name k ≡ false → lookup k m.next ≡ lookup k l.next)
        → ((x : ℕ) → lookup name m.next ≡ some x → time cfg l < x)
        → Visited name l m

  due-Visited :
      (name : Bytes) (d : ℕ) (l : Warming S L)
      → lookup name l.next ≡ some d
      → Visited name l (when_due inner lru cfg false name d l (clock_read inner lru cfg l.cache))
  unfolding when_due clock_read now
  due-Visited name d l here =
      let c = (clock_read inner lru cfg l.cache).1 in
      elim (Bool-cases (ltb (time cfg l) d)) [
        | inl q ↦ rw q (Visited.early d here (ground (arith, q)) refl (omega arith) refl)
        | inr q ↦ rw q (
            let x = warm inner lru cfg false name c in
            let a = warm-Asked name c in
            let g = forward l.cache.oracle.reads x.1.oracle.reads (omega (arith, a.reads)) in
            let m = rescheduled-Moved name (time cfg l) (record l { cache = c }) x g in
            Visited.was_due d here (ground (arith, q)) (m.same_log ∙ a.noted)
              (omega (arith, a.reads, m.reads)) m.elsewhere m.later)
      ]

  pub visit-Visited :
      (name : Bytes) (l : Warming S L) → Visited name l (visit inner lru cfg false name l)
  unfolding visit
  visit-Visited name l = elim (Option-cases (lookup name l.next)) [
    | inl out ↦ rw (out, visit) (Visited.absent out refl (omega arith) refl)
    | inr (d, here) ↦ rw (here, visit) (due-Visited name d l here)
  ]
