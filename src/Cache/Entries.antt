-- ===== src/Cache/Entries.antt =====
-- backend/cache/cache.go: when the entries of the cache are what the inner backend holds, and the
-- steps that keep them so.
use ts1p.Prelude.{
  ℕ, ◌≡◌, refl, sym, ap, ◌∙◌, inl, inr, Bool-cases, Option, none, some, List, [], ◌∷◌, eqb, is_some,
  Bytes, bytes_eq_eq, contains,
}
use ts1p.Backend.{Record, clone-id, Backend}
use ts1p.Cache.Eviction.{Lru, IsLru, Entry, add-all, remove-all}
use ts1p.Cache.Timing.{Config}
use ts1p.Cache.{Cache, Names, add_entry, store, store_negative, clone_names}

pub clone_names-id : (names : List Bytes) → clone_names names ≡ names
unfolding clone_names
clone_names-id [] = refl
clone_names-id (n ∷ names) = ap (◌∷◌ n) (clone_names-id names)

module _ {S L : Type 0} (inner : Backend S) (lru : Lru L) (cfg : Config) (good : IsLru lru) where
  -- Every resident entry is what `v` holds, a negative one included, and so is the list of names.
  pub record Agrees (v : Bytes → Option Record) (c : Cache S L) : Type 0 where
    pub at : (k : Bytes) (e : Entry) → lru.peek k c.recs ≡ some e → e.val ≡ v k
    pub listed : (n : Names) → c.names ≡ some n → (k : Bytes) → contains k n.val ≡ is_some (v k)

  module _ (v : Bytes → Option Record) where
    pub Agrees-same :
        (w : Bytes → Option Record) (c : Cache S L)
        → ((k : Bytes) → w k ≡ v k)
        → Agrees v c
        → Agrees w c
    Agrees-same w c h a = record {
      at = λ k e p. a.at k e p ∙ sym (h k);
      listed = λ n p k. a.listed n p k ∙ ap is_some (sym (h k));
    }

    -- A new entry that is right, in the LRU.
    pub add-at :
        (name : Bytes) (e : Entry) (l : L)
        → ((k : Bytes) (f : Entry) → lru.peek k l ≡ some f → f.val ≡ v k)
        → e.val ≡ v name
        → (k : Bytes) (f : Entry) → lru.peek k (lru.add name e l) ≡ some f
        → f.val ≡ v k
    add-at name e l h p = add-all lru good (λ k f. f.val ≡ v k) l name e (λ k f q. h k f) p

    pub remove-at :
        (name : Bytes) (l : L)
        → ((k : Bytes) (f : Entry) → lru.peek k l ≡ some f → f.val ≡ v k)
        → (k : Bytes) (f : Entry) → lru.peek k (lru.remove name l) ≡ some f
        → f.val ≡ v k
    remove-at name l h = remove-all lru good (λ k f. f.val ≡ v k) l name (λ k f q. h k f)

    pub store-Agrees :
        (name : Bytes) (r : Record) (seq : ℕ) (c : Cache S L)
        → v name ≡ some r
        → Agrees v c
        → Agrees v (store inner lru cfg name r seq c)
    unfolding store add_entry
    store-Agrees name r seq c p a = elim (Bool-cases (eqb c.seq seq)) [
      | inr old ↦ rw old a
      | inl fresh ↦ rw fresh (record {
        at = add-at name _ c.recs a.at (ap some (clone-id r) ∙ sym p);
        listed = a.listed;
      })
    ]

    pub store_negative-Agrees :
        (name : Bytes) (seq : ℕ) (c : Cache S L)
        → v name ≡ none
        → Agrees v c
        → Agrees v (store_negative inner lru cfg name seq c)
    unfolding store_negative
    store_negative-Agrees name seq c p a = elim (Bool-cases (eqb c.seq seq)) [
      | inr old ↦ rw old a
      | inl fresh ↦ rw fresh (elim (Bool-cases (eqb cfg.ttl 0)) [
        | inl off ↦ rw off (record { at = remove-at name c.recs a.at; listed = a.listed })
        | inr on ↦ rw on (record { at = add-at name _ c.recs a.at (sym p); listed = a.listed })
      ])
    ]

  -- The bookkeeping leaves the inner state alone.
  pub inner-store :
      (name : Bytes) (r : Record) (seq : ℕ) (c : Cache S L)
      → (store inner lru cfg name r seq c).inner ≡ c.inner
  unfolding store add_entry
  inner-store name r seq c = elim (Bool-cases (eqb c.seq seq)) [ inl e ↦ rw e | inr e ↦ rw e ]

  pub inner-store_negative :
      (name : Bytes) (seq : ℕ) (c : Cache S L)
      → (store_negative inner lru cfg name seq c).inner ≡ c.inner
  unfolding store_negative
  inner-store_negative name seq c = elim (Bool-cases (eqb c.seq seq)) [
    | inr e ↦ rw e
    | inl e ↦ rw e (elim (Bool-cases (eqb cfg.ttl 0)) [ inl d ↦ rw d | inr d ↦ rw d ])
  ]
