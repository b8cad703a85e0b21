-- ===== src/Cache/Warmer/Reconcile.antt =====
-- backend/cache/warmer.go: `reconcile`, name by name.
use ts1p.Prelude.{
  ℕ, ◌≡◌, refl, inl, inr, true, false, not, ◌&&◌, Bool-cases, none, some, List, [], ◌∷◌,
  if◌then◌else◌, Bytes, bytes_eq_eq, bytes_eq_iff, Map, has_key, keys, lookup, put, delete,
  contains, lookup-put, lookup-delete, contains-keys, arith,
}
use ts1p.Backend.{Backend}
use ts1p.Cache.Eviction.{Lru, IsLru}
use ts1p.Cache.Timing.{Config, now}
use ts1p.Cache.{remove}
use ts1p.Cache.Warmer.{Loop, add_new, drop_gone, swept, reconcile, clock_read}

-- A range visits each key of the map, in some order.
pub record IsOrder (order : List Bytes → List Bytes) : Type 0 where
  pub visits : (k : Bytes) (ns : List Bytes) → contains k (order ns) ≡ contains k ns

lookup-add_new :
    (t : ℕ) (names : List Bytes) (next : Map Bytes ℕ) (k : Bytes)
    → lookup k (add_new t names next)
      ≡ (if has_key k next then lookup k next else if contains k names then some t else none)
unfolding add_new contains
lookup-add_new t [] next k = ground arith
lookup-add_new t (n ∷ names) next k = ground (
  arith,
  bytes_eq_iff n k,
  lookup-put n k t next,
  lookup-add_new t names (if has_key n next then next else put n t next) k,
)

module _ {S L : Type 0} (inner : Backend S) (lru : Lru L) (cfg : Config) (good : IsLru lru) where
  -- What a name that is visited and not listed loses.
  pub record Dropped (names ns : List Bytes) (l m : Loop S L) : Type 0 where
    pub deadline :
        (k : Bytes)
        → lookup k m.next
          ≡ (if contains k ns && not (contains k names) then none else lookup k l.next)
    pub resident :
        (k : Bytes)
        → lru.peek k m.cache.recs
          ≡ (if contains k ns && not (contains k names) then none else lru.peek k l.cache.recs)

  drop_gone-Dropped :
      (names ns : List Bytes) (l : Loop S L)
      → Dropped names ns l (drop_gone inner lru cfg names ns l)
  unfolding drop_gone contains remove
  drop_gone-Dropped names [] l = record { deadline = λ k. refl; resident = λ k. refl }
  drop_gone-Dropped names (n ∷ ns) l = elim (Bool-cases (contains n names)) [
    | inl here ↦ rw here (
        let h = drop_gone-Dropped names ns l in
        record {
          deadline = λ k. ground (arith, h.deadline k, bytes_eq_iff n k);
          resident = λ k. ground (arith, h.resident k, bytes_eq_iff n k);
        })
    | inr gone ↦ rw gone (
        let h =
          drop_gone-Dropped names ns
            (record l { next = delete n l.next; cache = remove inner lru cfg n l.cache }) in
        record {
          deadline = λ k. ground (arith, h.deadline k, bytes_eq_iff n k, lookup-delete n k l.next);
          resident = λ k.
              ground (arith, h.resident k, bytes_eq_iff n k, good.peek_remove k n l.cache.recs);
        })
  ]

  -- What reconcile makes of the deadlines and of the cache, for names that the backend listed.
  pub record Reconciled (names : List Bytes) (t : ℕ) (l m : Loop S L) : Type 0 where
    pub deadline :
        (k : Bytes)
        → lookup k m.next ≡ (
            if contains k names
            then (if has_key k l.next then lookup k l.next else some t)
            else none)
    pub evicted :
        (k : Bytes)
        → has_key k l.next ≡ true
        → contains k names ≡ false
        → lru.peek k m.cache.recs ≡ none
    pub resident :
        (k : Bytes) → contains k names ≡ true → lru.peek k m.cache.recs ≡ lru.peek k l.cache.recs

  module _ (sweep : List Bytes → List Bytes) (any : IsOrder sweep) (names : List Bytes)
      (l : Loop S L) where
    -- After reconcile the map has exactly the listed names: one that it had keeps its deadline, a new one is due at once;
    -- a name that was there and is not listed any more is out of the cache too, and the listed ones stay in it.
    pub reconcile-Reconciled :
        Reconciled names (cfg.clock l.cache.oracle.reads) l (reconcile inner lru cfg sweep names l)
    unfolding reconcile swept clock_read now
    reconcile-Reconciled =
        let t = cfg.clock l.cache.oracle.reads in
        let m = add_new t names l.next in
        let d =
          drop_gone-Dropped names (sweep (keys m))
            (record l { next = m; cache = (clock_read inner lru cfg l.cache).1 }) in
        record {
          deadline = λ k. ground (
            arith,
            d.deadline k,
            any.visits k (keys m),
            contains-keys k m,
            lookup-add_new t names l.next k,
          );
          evicted = λ k h g. ground (
            arith,
            d.resident k,
            any.visits k (keys m),
            contains-keys k m,
            lookup-add_new t names l.next k,
          );
          resident = λ k h. ground (arith, d.resident k);
        }
