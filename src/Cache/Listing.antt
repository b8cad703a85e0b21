-- ===== src/Cache/Listing.antt =====
-- backend/cache/cache.go: `List`, from the cached names and by a fetch.
use ts1p.Prelude.{
  ℕ, ◌≡◌, refl, sym, subst, ◌∙◌, inl, inr, Bool, true, false, not, ◌&&◌, Bool-cases, Option-cases,
  Option, none, some, List, Bytes, bytes_eq_eq, contains, is_some, eqb,
}
use mathlib.Core.Option.{some-injective}
use ts1p.Errors.{Error, Sentinel, is, Result, ok, err}
use ts1p.Backend.{Record, Context, without_cancel, force_refresh, Backend}
use ts1p.Cache.Eviction.{Lru, IsLru}
use ts1p.Cache.Timing.{Config, Oracle, live}
use ts1p.Cache.{
  Cache, Names, clone_names, keep_names, fill_names, stale_names, settle_names, fetch_names,
  serve_names, look_names, list,
}
use ts1p.Cache.Entries.{Agrees, clone_names-id}
use ts1p.Cache.Loading.{Touched}

module _ {S L : Type 0} (inner : Backend S) (lru : Lru L) (cfg : Config) (good : IsLru lru) where
  inner-keep_names :
      (ns : List Bytes) (seq : ℕ) (c : Cache S L)
      → (keep_names inner lru cfg ns seq c).inner ≡ c.inner
  unfolding keep_names
  inner-keep_names ns seq c = elim (Bool-cases (eqb c.seq seq)) [ inl e ↦ rw e | inr e ↦ rw e ]

  inner-settle_names :
      (force : Bool) (p : Result (List Bytes) × Cache S L)
      → (settle_names inner lru cfg force p).1.inner ≡ p.1.inner
  unfolding settle_names stale_names
  inner-settle_names force (ok ns, c) = refl
  inner-settle_names force (err e, c) = elim (Bool-cases (not force && is e Sentinel.unavailable)) [
    | inr q ↦ rw q
    | inl q ↦ rw q (elim (Option-cases c.names) [
      | inl h ↦ rw (h, stale_names)
      | inr (n, h) ↦ rw (h, stale_names)
    ])
  ]

  inner-fill_names :
      (seq : ℕ) (c : Cache S L) (p : Result (List Bytes) × S)
      → (fill_names inner lru cfg seq c p).1.inner ≡ p.1
  unfolding fill_names
  inner-fill_names seq c (ok ns, s) = inner-keep_names ns seq (record c { inner = s })
  inner-fill_names seq c (err e, s) = refl

  pub inner-fetch_names :
      (ctx : Context) (c : Cache S L)
      → (fetch_names inner lru cfg ctx c).1.inner ≡ (inner.list (without_cancel ctx) c.inner).1
  unfolding fetch_names
  inner-fetch_names ctx c =
      inner-settle_names (force_refresh ctx) _
      ∙ inner-fill_names c.seq c (inner.list (without_cancel ctx) c.inner)

  module _ (v : Bytes → Option Record) where
    -- The names are those that `v` holds.
    abbrev pub Names-of : List Bytes → Type 0
    Names-of ns = (k : Bytes) → contains k ns ≡ is_some (v k)

    abbrev pub Lists : Result (List Bytes) → Type 0
    Lists x = (ns : List Bytes) → x ≡ ok ns → Names-of ns

    of-clone : (ns : List Bytes) → Names-of ns → Names-of (clone_names ns)
    of-clone ns h = subst Names-of (sym (clone_names-id ns)) h

    keep_names-Agrees :
        (ns : List Bytes) (seq : ℕ) (c : Cache S L)
        → Names-of ns
        → Agrees inner lru cfg good v c
        → Agrees inner lru cfg good v (keep_names inner lru cfg ns seq c)
    unfolding keep_names
    keep_names-Agrees ns seq c h a = elim (Bool-cases (eqb c.seq seq)) [
      | inr old ↦ rw old a
      | inl fresh ↦ rw fresh (record {
        at = a.at;
        listed =
            λ n p. subst (λ (m : Names). Names-of m.val) (some-injective _ _ p) (of-clone ns h);
      })
    ]

    fill_names-Agrees :
        (seq : ℕ) (c : Cache S L) (p : Result (List Bytes) × S)
        → Lists p.0
        → Agrees inner lru cfg good v c
        → Agrees inner lru cfg good v (fill_names inner lru cfg seq c p).1
    unfolding fill_names
    fill_names-Agrees seq c (ok ns, s) h a =
        keep_names-Agrees ns seq (record c { inner = s }) (h ns refl)
          (record { at = a.at; listed = a.listed })
    fill_names-Agrees seq c (err e, s) h a = record { at = a.at; listed = a.listed }

    fill_names-result :
        (seq : ℕ) (c : Cache S L) (p : Result (List Bytes) × S)
        → (fill_names inner lru cfg seq c p).0 ≡ p.0
    unfolding fill_names
    fill_names-result seq c (ok ns, s) = refl
    fill_names-result seq c (err e, s) = refl

    stale_names-right :
        (e : Error) (c : Cache S L) (o : Option Names)
        → c.names ≡ o
        → Agrees inner lru cfg good v c
        → Lists (stale_names inner lru cfg e c o).0
          × Agrees inner lru cfg good v (stale_names inner lru cfg e c o).1
    unfolding stale_names
    stale_names-right e c none p a = (λ ns h. absurd (cc), a)
    stale_names-right e c (some n) p a = (
      λ ns h.
          subst Names-of (let q : clone_names n.val ≡ ns = cc in q) (of-clone n.val (a.listed n p)),
      record { at = a.at; listed = a.listed },
    )

    settle_names-right :
        (force : Bool) (p : Result (List Bytes) × Cache S L)
        → Lists p.0
        → Agrees inner lru cfg good v p.1
        → Lists (settle_names inner lru cfg force p).0
          × Agrees inner lru cfg good v (settle_names inner lru cfg force p).1
    unfolding settle_names
    settle_names-right force (ok ns, c) h a = (
      λ ms q. subst Names-of (let e : clone_names ns ≡ ms = cc in e) (of-clone ns (h ns refl)),
      a,
    )
    settle_names-right force (err e, c) h a =
        elim (Bool-cases (not force && is e Sentinel.unavailable)) [
          | inl q ↦ rw q (stale_names-right e c c.names refl a)
          | inr q ↦ rw q (λ ns p. absurd (cc), a)
        ]

    pub fetch_names-right :
        (ctx : Context) (c : Cache S L)
        → Lists (inner.list (without_cancel ctx) c.inner).0
        → Agrees inner lru cfg good v c
        → Lists (fetch_names inner lru cfg ctx c).0
          × Agrees inner lru cfg good v (fetch_names inner lru cfg ctx c).1
    unfolding fetch_names
    fetch_names-right ctx c h a =
        settle_names-right (force_refresh ctx) _ (subst Lists (sym (fill_names-result c.seq c _)) h)
          (fill_names-Agrees c.seq c _ h a)

  -- List fetches, or it serves the names that it keeps, and then the read is not forced.
  module _ (ctx : Context) (c : Cache S L) where
    pub data ListWay (x : Result (List Bytes) × Cache S L) : Type 0 where
      by_fetch :
          (d : Cache S L)
          → Touched inner lru cfg good c d
          → x ≡ fetch_names inner lru cfg ctx d
          → ListWay x
      by_entry :
          (d : Cache S L) (n : Names)
          → Touched inner lru cfg good c d
          → c.names ≡ some n
          → force_refresh ctx ≡ false
          → x ≡ (ok n.val, d)
          → ListWay x

    ListWay-serve :
        (n : Names) (t : Bool × Oracle)
        → c.names ≡ some n
        → force_refresh ctx ≡ false
        → ListWay (serve_names inner lru cfg ctx n.val c t)
    unfolding serve_names
    ListWay-serve n (true, o) p q =
        by_entry (record c { oracle = o }) n
          (record { same_inner = refl; keeps = λ v a. record { at = a.at; listed = a.listed } }) p q
          (λ i. (ok (clone_names-id n.val i), record c { oracle = o }))
    ListWay-serve n (false, o) p q =
        by_fetch (record c { oracle = o })
          (record { same_inner = refl; keeps = λ v a. record { at = a.at; listed = a.listed } })
          refl

    ListWay-look :
        (o : Option Names)
        → c.names ≡ o
        → force_refresh ctx ≡ false
        → ListWay (look_names inner lru cfg ctx c o)
    unfolding look_names
    ListWay-look none p q = by_fetch c (record { same_inner = refl; keeps = λ v a. a }) refl
    ListWay-look (some n) p q = ListWay-serve n (live cfg n.expires c.oracle) p q

    pub list-Way : ListWay (list inner lru cfg ctx c)
    unfolding list
    list-Way = elim (Bool-cases (force_refresh ctx)) [
      | inl q ↦ rw q (by_fetch c (record { same_inner = refl; keeps = λ v a. a }) refl)
      | inr q ↦ rw q (ListWay-look c.names refl q)
    ]
