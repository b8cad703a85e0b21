-- ===== src/Cache.antt =====
-- backend/cache/cache.go: the read cache over a backend `inner`, which is an argument, as is the LRU
-- (hashicorp's, Cache/Eviction). A method is one step: a fetch is not shared between callers.
pub mod Eviction
pub mod Timing
pub mod Entries
pub mod Reading
pub mod Loading
pub mod Listing
pub mod Coherence
pub mod Writes
pub mod Expiry
pub mod Passing
pub mod Lawful
pub mod Forced
pub mod Interleaving
pub mod Warmer
pub mod Examples
use ts1p.Prelude.{
  ℕ, ◌+◌, ◌%◌, ◌^◌, Bool, true, false, not, ◌&&◌, Option, none, some, List, [], ◌∷◌, if◌then◌else◌,
  eqb, Bytes, min, ◌/◌,
}
use ts1p.Errors.{Error, Sentinel, sentinel, is, Result, ok, err, fail}
use ts1p.Exec.{Exec}
use ts1p.Backend.{Record, clone, Context, force_refresh, without_cancel, Backend}
use Eviction.{Lru, Entry}
use Timing.{Config, Oracle, expires_at, live, negative_expiry}

pub record Names : Type 0 where
  pub val : List Bytes
  pub expires : Option ℕ

-- The fields that change; `inner` is the state of the inner backend, `stale_served` the counter of
-- the reads served from an entry that had expired.
pub record Cache (S L : Type 0) : Type 0 where
  pub inner : S
  pub recs : L
  pub seq : ℕ
  pub names : Option Names
  pub oracle : Oracle
  pub stale_served : ℕ

-- c.seq++ on a uint64
abbrev pub next_seq : ℕ → ℕ
next_seq seq = (seq + 1) % 2 ^ 64

-- slices.Clone
pub clone_names : List Bytes → List Bytes
clone_names [] = []
clone_names (n ∷ names) = n ∷ clone_names names

module _ {S L : Type 0} (inner : Backend S) (lru : Lru L) (cfg : Config) where
  abbrev pub C : Type 0
  C = Cache S L

  -- `entry{val: v, expires: c.expiresAt()}` under `name`
  pub add_entry : Bytes → Record → C → C
  add_entry name r c =
      let (t, o) = expires_at cfg c.oracle in
      record c {
        recs = lru.add name (record { val = some (clone r); expires = t }) c.recs;
        oracle = o;
      }

  pub store : Bytes → Record → ℕ → C → C
  store name r seq c = if eqb c.seq seq then add_entry name r c else c

  pub store_negative : Bytes → ℕ → C → C
  store_negative name seq c =
      if not (eqb c.seq seq)
      then c
      else if eqb cfg.ttl 0
      then record c { recs = lru.remove name c.recs }
      else (let (t, o) = negative_expiry cfg c.oracle in
          record c {
            recs = lru.add name (record { val = none; expires = some t }) c.recs;
            oracle = o;
          })

  -- What a resident entry answers: a nil value is a cached not-found.
  pub answer : Option Record → Result Record
  answer none = fail Sentinel.backend_not_found
  answer (some r) = ok (clone r)

  -- The closure that `singleflight.Do` runs.
  pub fill : Bytes → ℕ → C → Result Record × S → Result Record × C
  fill name seq c (ok r, s) = (ok r, store name r seq (record c { inner = s }))
  fill name seq c (err e, s) = (
    err e,
    if is e Sentinel.backend_not_found
        then store_negative name seq (record c { inner = s })
        else record c { inner = s },
  )

  pub serve_stale : Error → C → Option Entry → Result Record × C
  serve_stale e c none = (err e, c)
  serve_stale e c (some entry) = elim entry.val [
    | none ↦ (err e, c)
    | some r ↦ (ok (clone r), record c { stale_served = c.stale_served + 1 })
  ]

  pub settle : Bool → Bytes → Result Record × C → Result Record × C
  settle force name (ok r, c) = (ok (clone r), c)
  settle force name (err e, c) =
      if not force && is e Sentinel.unavailable
      then serve_stale e c (lru.peek name c.recs)
      else (err e, c)

  pub fetch : Context → Bytes → C → Result Record × C
  fetch ctx name c =
      settle (force_refresh ctx) name
        (fill name c.seq c (inner.load (without_cancel ctx) name c.inner))

  pub serve_live : Context → Bytes → Option Record → C → Bool × Oracle → Result Record × C
  serve_live ctx name val c (true, o) = (answer val, record c { oracle = o })
  serve_live ctx name val c (false, o) = fetch ctx name (record c { oracle = o })

  pub look : Context → Bytes → C → Option Entry × L → Result Record × C
  look ctx name c (none, l) = fetch ctx name (record c { recs = l })
  look ctx name c (some e, l) =
      serve_live ctx name e.val (record c { recs = l }) (live cfg e.expires c.oracle)

  unfoldable pub load : Context → Bytes → Exec C Record
  load ctx name c =
      if force_refresh ctx then fetch ctx name c else look ctx name c (lru.get name c.recs)

  pub saved : Bytes → Record → C → Result (Unit {0}) × S → Result (Unit {0}) × C
  saved name r c (err e, s) = (err e, record c { inner = s })
  saved name r c (ok u, s) = (
    ok tt,
    record (add_entry name r (record c { inner = s; seq = next_seq c.seq })) { names = none },
  )

  unfoldable pub save : Context → Bytes → Record → Exec C (Unit {0})
  save ctx name r c = saved name r c (inner.save ctx name r c.inner)

  -- Remove evicts a name and leaves the inner backend alone.
  unfoldable pub remove : Bytes → C → C
  remove name c = record c { seq = next_seq c.seq; recs = lru.remove name c.recs }

  pub deleted : Bytes → C → Result (Unit {0}) × S → Result (Unit {0}) × C
  deleted name c (err e, s) = (err e, record c { inner = s })
  deleted name c (ok u, s) = (ok tt, record (remove name (record c { inner = s })) { names = none })

  unfoldable pub delete : Context → Bytes → Exec C (Unit {0})
  delete ctx name c = deleted name c (inner.delete ctx name c.inner)

  -- Purge drops every entry and leaves the inner backend alone.
  unfoldable pub purge : C → C
  purge c = record c { seq = next_seq c.seq; recs = lru.purge c.recs; names = none }

  pub keep_names : List Bytes → ℕ → C → C
  keep_names ns seq c =
      if eqb c.seq seq
      then (let (t, o) = expires_at cfg c.oracle in
          record c { names = some (record { val = clone_names ns; expires = t }); oracle = o })
      else c

  -- The closure that `singleflight.Do` runs for List.
  pub fill_names : ℕ → C → Result (List Bytes) × S → Result (List Bytes) × C
  fill_names seq c (ok ns, s) = (ok ns, keep_names ns seq (record c { inner = s }))
  fill_names seq c (err e, s) = (err e, record c { inner = s })

  pub stale_names : Error → C → Option Names → Result (List Bytes) × C
  stale_names e c none = (err e, c)
  stale_names e c (some n) =
      (ok (clone_names n.val), record c { stale_served = c.stale_served + 1 })

  pub settle_names : Bool → Result (List Bytes) × C → Result (List Bytes) × C
  settle_names force (ok ns, c) = (ok (clone_names ns), c)
  settle_names force (err e, c) =
      if not force && is e Sentinel.unavailable then stale_names e c c.names else (err e, c)

  pub fetch_names : Context → C → Result (List Bytes) × C
  fetch_names ctx c =
      settle_names (force_refresh ctx)
        (fill_names c.seq c (inner.list (without_cancel ctx) c.inner))

  pub serve_names : Context → List Bytes → C → Bool × Oracle → Result (List Bytes) × C
  serve_names ctx ns c (true, o) = (ok (clone_names ns), record c { oracle = o })
  serve_names ctx ns c (false, o) = fetch_names ctx (record c { oracle = o })

  pub look_names : Context → C → Option Names → Result (List Bytes) × C
  look_names ctx c none = fetch_names ctx c
  look_names ctx c (some n) = serve_names ctx n.val c (live cfg n.expires c.oracle)

  unfoldable pub list : Context → Exec C (List Bytes)
  list ctx c = if force_refresh ctx then fetch_names ctx c else look_names ctx c c.names

  abbrev pub backend : Backend C
  backend = record { load = load; save = save; list = list; delete = delete }
