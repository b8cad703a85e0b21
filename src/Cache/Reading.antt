-- ===== src/Cache/Reading.antt =====
-- backend/cache/cache.go: what `Load` returns and keeps, from what the inner backend answers.
use ts1p.Prelude.{
  ℕ, ◌≡◌, refl, sym, subst, ap, ◌∙◌, inl, inr, Bool, true, false, not, ◌&&◌, Bool-cases,
  Option-cases, Option, none, some, Bytes, arith,
}
use ts1p.Errors.{Error, Sentinel, is, Result, ok, err}
use ts1p.Backend.{Record, clone-id, Context, without_cancel, force_refresh, Backend}
use ts1p.Cache.Eviction.{Lru, IsLru, Entry}
use ts1p.Cache.Timing.{Config}
use ts1p.Cache.{Cache, fill, settle, serve_stale, fetch}
use ts1p.Cache.Entries.{
  Agrees, store-Agrees, store_negative-Agrees, inner-store, inner-store_negative,
}

module _ {S L : Type 0} (inner : Backend S) (lru : Lru L) (cfg : Config) (good : IsLru lru) where
  inner-fill :
      (name : Bytes) (seq : ℕ) (c : Cache S L) (p : Result Record × S)
      → (fill inner lru cfg name seq c p).1.inner ≡ p.1
  unfolding fill
  inner-fill name seq c (ok r, s) =
      inner-store inner lru cfg good name r seq (record c { inner = s })
  inner-fill name seq c (err e, s) = elim (Bool-cases (is e Sentinel.backend_not_found)) [
    | inl q ↦ rw q (inner-store_negative inner lru cfg good name seq (record c { inner = s }))
    | inr q ↦ rw q
  ]

  inner-serve_stale :
      (e : Error) (c : Cache S L) (o : Option Entry)
      → (serve_stale inner lru cfg e c o).1.inner ≡ c.inner
  unfolding serve_stale
  inner-serve_stale e c none = refl
  inner-serve_stale e c (some x) = elim (Option-cases x.val) [
    | inl q ↦ rw (q, serve_stale)
    | inr (r, q) ↦ rw (q, serve_stale)
  ]

  inner-settle :
      (force : Bool) (name : Bytes) (p : Result Record × Cache S L)
      → (settle inner lru cfg force name p).1.inner ≡ p.1.inner
  unfolding settle
  inner-settle force name (ok r, c) = refl
  inner-settle force name (err e, c) = elim (Bool-cases (not force && is e Sentinel.unavailable)) [
    | inl q ↦ rw q (inner-serve_stale e c (lru.peek name c.recs))
    | inr q ↦ rw q
  ]

  -- A fetch leaves the inner backend in the state after its one read.
  pub inner-fetch :
      (ctx : Context) (name : Bytes) (c : Cache S L)
      → (fetch inner lru cfg ctx name c).1.inner ≡ (inner.load (without_cancel ctx) name c.inner).1
  unfolding fetch
  inner-fetch ctx name c =
      inner-settle (force_refresh ctx) name _
      ∙ inner-fill name c.seq c (inner.load (without_cancel ctx) name c.inner)

  module _ (v : Bytes → Option Record) where
    -- The inner backend's answer about `name` is what `v` holds.
    pub record Tells (name : Bytes) (x : Result Record) : Type 0 where
      pub on_ok : (r : Record) → x ≡ ok r → v name ≡ some r
      pub on_not_found :
          (e : Error) → x ≡ err e → is e Sentinel.backend_not_found ≡ true → v name ≡ none

    fill-Agrees :
        (name : Bytes) (seq : ℕ) (c : Cache S L) (p : Result Record × S)
        → Tells name p.0
        → Agrees inner lru cfg good v c
        → Agrees inner lru cfg good v (fill inner lru cfg name seq c p).1
    unfolding fill
    fill-Agrees name seq c (ok r, s) t a =
        store-Agrees inner lru cfg good v name r seq (record c { inner = s }) (t.on_ok r refl)
          (record { at = a.at; listed = a.listed })
    fill-Agrees name seq c (err e, s) t a = elim (Bool-cases (is e Sentinel.backend_not_found)) [
      | inl q ↦ rw q (
          store_negative-Agrees inner lru cfg good v name seq (record c { inner = s })
            (t.on_not_found e refl q) (record { at = a.at; listed = a.listed }))
      | inr q ↦ rw q (record { at = a.at; listed = a.listed })
    ]

    Agrees-serve_stale :
        (e : Error) (c : Cache S L) (o : Option Entry)
        → Agrees inner lru cfg good v c
        → Agrees inner lru cfg good v (serve_stale inner lru cfg e c o).1
    unfolding serve_stale
    Agrees-serve_stale e c none a = a
    Agrees-serve_stale e c (some x) a = elim (Option-cases x.val) [
      | inl q ↦ rw (q, serve_stale) a
      | inr (r, q) ↦ rw (q, serve_stale) (record { at = a.at; listed = a.listed })
    ]

    settle-Agrees :
        (force : Bool) (name : Bytes) (p : Result Record × Cache S L)
        → Agrees inner lru cfg good v p.1
        → Agrees inner lru cfg good v (settle inner lru cfg force name p).1
    unfolding settle
    settle-Agrees force name (ok r, c) a = a
    settle-Agrees force name (err e, c) a =
        elim (Bool-cases (not force && is e Sentinel.unavailable)) [
          | inl q ↦ rw q (Agrees-serve_stale e c (lru.peek name c.recs) a)
          | inr q ↦ rw q a
        ]

    stale-ok :
        (e : Error) (c : Cache S L) (name : Bytes) (o : Option Entry) (r : Record)
        → lru.peek name c.recs ≡ o
        → Agrees inner lru cfg good v c
        → (serve_stale inner lru cfg e c o).0 ≡ ok r
        → v name ≡ some r
    unfolding serve_stale
    stale-ok e c name none r p a h = absurd (cc)
    stale-ok e c name (some x) r p a h = elim (Option-cases x.val) [
      | inl q ↦ absurd (ground arith)
      | inr (t, q) ↦
          let i : t ≡ r = ground (arith, clone-id t) in sym (a.at name x p) ∙ q ∙ ap some i
    ]

    settle-ok :
        (force : Bool) (name : Bytes) (p : Result Record × Cache S L) (r : Record)
        → Tells name p.0
        → Agrees inner lru cfg good v p.1
        → (settle inner lru cfg force name p).0 ≡ ok r
        → v name ≡ some r
    unfolding settle
    settle-ok force name (ok x, c) r t a h = t.on_ok r (ap ok (sym (clone-id x)) ∙ h)
    settle-ok force name (err e, c) r t a h =
        elim (Bool-cases (not force && is e Sentinel.unavailable)) [
          | inl q ↦ stale-ok e c name (lru.peek name c.recs) r refl a (rw q at h)
          | inr q ↦ absurd (let z = rw q at h in cc)
        ]

    stale-err :
        (e : Error) (c : Cache S L) (o : Option Entry) (f : Error)
        → (serve_stale inner lru cfg e c o).0 ≡ err f
        → e ≡ f
    unfolding serve_stale
    stale-err e c none f h = cc
    stale-err e c (some x) f h = elim (Option-cases x.val) [
      | inl q ↦ ground arith
      | inr (t, q) ↦ absurd (ground arith)
    ]

    settle-err :
        (force : Bool) (name : Bytes) (p : Result Record × Cache S L) (f : Error)
        → (settle inner lru cfg force name p).0 ≡ err f
        → p.0 ≡ err f
    unfolding settle
    settle-err force name (ok x, c) f h = absurd (cc)
    settle-err force name (err e, c) f h =
        elim (Bool-cases (not force && is e Sentinel.unavailable)) [
          | inl q ↦ ap err (stale-err e c (lru.peek name c.recs) f (rw q at h))
          | inr q ↦ rw q at h
        ]

    fill-result :
        (name : Bytes) (seq : ℕ) (c : Cache S L) (p : Result Record × S)
        → (fill inner lru cfg name seq c p).0 ≡ p.0
    unfolding fill
    fill-result name seq c (ok r, s) = refl
    fill-result name seq c (err e, s) = refl

    settle_forced :
        (force : Bool) (name : Bytes) (p : Result Record × Cache S L) (r : Record)
        → force ≡ true
        → (settle inner lru cfg force name p).0 ≡ ok r
        → p.0 ≡ ok r
    unfolding settle
    settle_forced force name (ok x, c) r q h = ap ok (sym (clone-id x)) ∙ h
    settle_forced true name (err e, c) r q h = absurd (cc)
    settle_forced false name (err e, c) r q h = absurd (cc)

    module _ (ctx : Context) (name : Bytes) (c : Cache S L) where
      -- The inner read of a fetch.
      abbrev pub told : Result Record
      told = (inner.load (without_cancel ctx) name c.inner).0

      filled-Tells :
          Tells name told
          → Tells name
              (fill inner lru cfg name c.seq c (inner.load (without_cancel ctx) name c.inner)).0
      filled-Tells = subst (Tells name) (sym (fill-result name c.seq c _))

      pub fetch-Agrees :
          Tells name told
          → Agrees inner lru cfg good v c
          → Agrees inner lru cfg good v (fetch inner lru cfg ctx name c).1
      unfolding fetch
      fetch-Agrees t a = settle-Agrees (force_refresh ctx) name _ (fill-Agrees name c.seq c _ t a)

      pub fetch-ok :
          (r : Record)
          → Tells name told
          → Agrees inner lru cfg good v c
          → (fetch inner lru cfg ctx name c).0 ≡ ok r
          → v name ≡ some r
      unfolding fetch
      fetch-ok r t a h =
          settle-ok (force_refresh ctx) name _ r (filled-Tells t) (fill-Agrees name c.seq c _ t a) h

      pub fetch-err : (f : Error) → (fetch inner lru cfg ctx name c).0 ≡ err f → told ≡ err f
      unfolding fetch
      fetch-err f h = sym (fill-result name c.seq c _) ∙ settle-err (force_refresh ctx) name _ f h

      -- A forced fetch has the inner answer: no resident entry stands in for it.
      pub forced-ok :
          (r : Record)
          → force_refresh ctx ≡ true
          → (fetch inner lru cfg ctx name c).0 ≡ ok r
          → told ≡ ok r
      unfolding fetch
      forced-ok r q h =
          sym (fill-result name c.seq c _) ∙ settle_forced (force_refresh ctx) name _ r q h
