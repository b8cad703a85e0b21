-- ===== src/Cache/Interleaving.antt =====
-- backend/cache/cache.go under concurrency: fetches in flight, and one writer at a time, as the store's
-- write mutex makes it. Each step is what one critical section or one call of the inner backend does.
-- Callers that share a flight see its result and change nothing, so they are no steps of their own.
pub mod Invariant
pub mod Safety
pub mod Writing
pub mod Steps
mod Examples
use ts1p.Prelude.{
  ℕ, ◌+◌, ◌^◌, ◌<◌, ◌≡◌, Bool, true, false, Option, none, some, List, if◌then◌else◌, eqb, Bytes,
}
use ts1p.Errors.{Error, Result, ok, err}
use ts1p.Backend.{Record, Context, without_cancel, Backend}
use ts1p.Cache.Eviction.{Lru}
use ts1p.Cache.Timing.{Config, Oracle}
use ts1p.Cache.{Cache, saved, remove, purge, fill, fill_names}

-- A fetch of a record: the sequence number that it took first, and what the inner backend answered.
pub record Flight : Type 0 where
  pub name : Bytes
  pub seq : ℕ
  pub answer : Option (Result Record)

-- A fetch of the names.
pub record ListFlight : Type 0 where
  pub seq : ℕ
  pub answer : Option (Result (List Bytes))

-- Where the writer stands: between `inner.Save` and its critical section, between `inner.Delete` and
-- `Remove`, or between `Remove` and the second critical section of Delete.
pub data Writer : Type 0 where
  idle : Writer
  saving : Bytes → Record → Writer
  evicting : Bytes → Writer
  clearing : Writer

pub record System (S L : Type 0) : Type 0 where
  pub cache : Cache S L
  pub flights : ℕ → Option Flight
  pub list_flights : ℕ → Option ListFlight
  pub writer : Writer

-- A family with one place changed.
abbrev pub update : {A : Type 0} → (ℕ → Option A) → ℕ → Option A → ℕ → Option A
update f i a j = if eqb i j then a else f j

-- The sequence number has room for one more write.
abbrev pub HasRoom : {S L : Type 0} → Cache S L → Type 0
HasRoom c = c.seq + 1 < 2 ^ 64

module _ {S L : Type 0} (inner : Backend S) (lru : Lru L) (cfg : Config) where
  abbrev pub with_inner : Cache S L → S → Cache S L
  with_inner c s = record c { inner = s }

  pub data Step (s : System S L) : System S L → Type 0 where
    -- a caller takes the sequence number, and a flight starts
    take_off :
        (i : ℕ) (name : Bytes)
        → s.flights i ≡ none
        → Step s (record s {
          flights =
              update s.flights i (some (record { name = name; seq = s.cache.seq; answer = none }));
        })
    -- the inner backend answers
    answered :
        (i : ℕ) (f : Flight) (ctx : Context)
        → s.flights i ≡ some f
        → f.answer ≡ none
        → Step s (record s {
          cache = with_inner s.cache (inner.load (without_cancel ctx) f.name s.cache.inner).1;
          flights = update s.flights i (
              some (record f {
                answer = some (inner.load (without_cancel ctx) f.name s.cache.inner).0;
              }));
        })
    -- the answer is stored, unless a write intervened
    land :
        (i : ℕ) (f : Flight) (r : Result Record)
        → s.flights i ≡ some f
        → f.answer ≡ some r
        → Step s (record s {
          cache = (fill inner lru cfg f.name f.seq s.cache (r, s.cache.inner)).1;
          flights = update s.flights i none;
        })
    list_off :
        (i : ℕ)
        → s.list_flights i ≡ none
        → Step s (record s {
          list_flights =
              update s.list_flights i (some (record { seq = s.cache.seq; answer = none }));
        })
    listed :
        (i : ℕ) (f : ListFlight) (ctx : Context)
        → s.list_flights i ≡ some f
        → f.answer ≡ none
        → Step s (record s {
          cache = with_inner s.cache (inner.list (without_cancel ctx) s.cache.inner).1;
          list_flights =
              update s.list_flights i (
                some
                  (record f { answer = some (inner.list (without_cancel ctx) s.cache.inner).0 }));
        })
    list_land :
        (i : ℕ) (f : ListFlight) (r : Result (List Bytes))
        → s.list_flights i ≡ some f
        → f.answer ≡ some r
        → Step s (record s {
          cache = (fill_names inner lru cfg f.seq s.cache (r, s.cache.inner)).1;
          list_flights = update s.list_flights i none;
        })
    -- a read of a resident entry moves it in the LRU and looks at the clock
    hit :
        (name : Bytes) (o : Oracle)
        → Step s (record s {
          cache = record s.cache { recs = (lru.get name s.cache.recs).1; oracle = o };
        })
    -- Save: the inner backend, and then the cache
    save_inner :
        (ctx : Context) (name : Bytes) (r : Record)
        → s.writer ≡ idle
        → (inner.save ctx name r s.cache.inner).0 ≡ ok tt
        → Step s (record s {
          cache = with_inner s.cache (inner.save ctx name r s.cache.inner).1;
          writer = saving name r;
        })
    save_failed :
        (ctx : Context) (name : Bytes) (r : Record) (e : Error)
        → s.writer ≡ idle
        → (inner.save ctx name r s.cache.inner).0 ≡ err e
        → Step s (record s { cache = with_inner s.cache (inner.save ctx name r s.cache.inner).1 })
    save_cache :
        (name : Bytes) (r : Record)
        → s.writer ≡ saving name r
        → HasRoom s.cache
        → Step s (record s {
          cache = (saved inner lru cfg name r s.cache (ok tt, s.cache.inner)).1;
          writer = idle;
        })
    -- Delete: the inner backend, Remove, and the names
    delete_inner :
        (ctx : Context) (name : Bytes)
        → s.writer ≡ idle
        → (inner.delete ctx name s.cache.inner).0 ≡ ok tt
        → Step s (record s {
          cache = with_inner s.cache (inner.delete ctx name s.cache.inner).1;
          writer = evicting name;
        })
    delete_failed :
        (ctx : Context) (name : Bytes) (e : Error)
        → s.writer ≡ idle
        → (inner.delete ctx name s.cache.inner).0 ≡ err e
        → Step s (record s { cache = with_inner s.cache (inner.delete ctx name s.cache.inner).1 })
    delete_remove :
        (name : Bytes)
        → s.writer ≡ evicting name
        → HasRoom s.cache
        → Step s (record s { cache = remove inner lru cfg name s.cache; writer = clearing })
    delete_names :
        s.writer ≡ clearing
        → Step s (record s { cache = record s.cache { names = none }; writer = idle })
    -- the warmer's eviction, and a flush
    evict :
        (name : Bytes)
        → HasRoom s.cache
        → Step s (record s { cache = remove inner lru cfg name s.cache })
    flush : HasRoom s.cache → Step s (record s { cache = purge inner lru cfg s.cache })

  pub data Reach (s : System S L) : System S L → Type 0 where
    here : Reach s s
    next : {t u : System S L} → Reach s t → Step t u → Reach s u
