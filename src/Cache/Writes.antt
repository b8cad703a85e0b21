-- ===== src/Cache/Writes.antt =====
-- backend/cache/cache.go: the writes through the cache, and the evictions that leave the inner
-- backend alone.
use ts1p.Prelude.{
  ◌≡◌, refl, sym, subst, ap, ◌∙◌, inl, inr, Bool-cases, Option, none, some, Bytes, bytes_eq,
  bytes_eq_eq, bytes_eq_iff, bytes_eq_refl, arith,
}
use mathlib.Core.Option.{some-injective}
use ts1p.Errors.{Error, Result, ok, err}
use ts1p.Backend.{Record, clone-id, Context, Backend, IsLawful, Written, Unchanged}
use ts1p.Cache.Eviction.{Lru, IsLru, Entry}
use ts1p.Cache.Timing.{Config}
use ts1p.Cache.{Cache, save, saved, add_entry, delete, deleted, remove, purge}
use ts1p.Cache.Entries.{Agrees-same, remove-at}
use ts1p.Cache.Coherence.{IsExclusive, IsCoherent, Kept}

-- What the LRU has for a name after the write: an entry with the record, or none after a deletion.
abbrev pub Resident : Option Record → Option Entry → Type 0
Resident none e = e ≡ none
Resident (some r) e = (f : Entry) × (e ≡ some f) × (f.val ≡ some r)

module _ {S L : Type 0} (inner : Backend S) (lru : Lru L) (cfg : Config) (good : IsLru lru)
    (law : IsLawful inner) (sole : IsExclusive law) where
  open law use {view, Inv}

  -- What a write that stores `o` under `name` makes of the cache, whether it succeeds or fails.
  pub record Wrote (name : Bytes) (o : Option Record) (c : Cache S L)
      (x : Result (Unit {0}) × Cache S L) : Type 0 where
    pub coherent : IsCoherent inner lru cfg good law sole x.1
    pub on_ok : x.0 ≡ ok tt → Written (view c.inner) name o (view x.1.inner)
    pub resident : x.0 ≡ ok tt → Resident o (lru.peek name x.1.recs)
    pub on_err : (e : Error) → x.0 ≡ err e → Unchanged (view c.inner) (view x.1.inner)

  module _ (v w : Bytes → Option Record) (name : Bytes) (o : Option Record) (l : L)
      (right : (k : Bytes) (f : Entry) → lru.peek k l ≡ some f → f.val ≡ v k)
      (new : Written v name o w) where
    write-at :
        (e : Entry)
        → e.val ≡ o
        → (k : Bytes) (f : Entry) → lru.peek k (lru.add name e l) ≡ some f
        → f.val ≡ w k
    write-at e p k f q = elim (Bool-cases (bytes_eq name k)) [
      | inl same ↦
          let i : name ≡ k = (bytes_eq_iff name k).0 same in
          let r : e ≡ f = some-injective _ _ (
            sym (good.peek_add_self name e l)
            ∙ subst (λ j. lru.peek j (lru.add name e l) ≡ some f) (sym i) q) in
          let n : w k ≡ o = new k ∙ rw same in sym (ap (λ (x : Entry). x.val) r) ∙ p ∙ sym n
      | inr other ↦
          let n : w k ≡ v k = new k ∙ rw other in
          elim (good.peek_add_ne k name e l other) [
            | inl kept ↦ right k f (sym kept ∙ q) ∙ sym n
            | inr gone ↦ absurd (cc)
          ]
    ]

    evict-at : (k : Bytes) (f : Entry) → lru.peek k (lru.remove name l) ≡ some f → f.val ≡ w k
    evict-at k f q = elim (Bool-cases (bytes_eq name k)) [
      | inl same ↦ absurd (ground (arith, good.peek_remove k name l))
      | inr other ↦
          let n : w k ≡ v k = new k ∙ rw other in
          right k f (ground (arith, good.peek_remove k name l)) ∙ sym n
    ]

  -- The inner state changed and nothing that is resident, nor what is held.
  failed :
      (c : Cache S L) (s : S)
      → IsCoherent inner lru cfg good law sole c
      → Inv s
      → Unchanged (view c.inner) (view s)
      → IsCoherent inner lru cfg good law sole (record c { inner = s })
  failed c s h i u = record {
    inv = i;
    agrees =
        Agrees-same inner lru cfg good (view c.inner) (view s) (record c { inner = s }) u
          (record { at = h.agrees.at; listed = h.agrees.listed });
  }

  module _ (name : Bytes) (c : Cache S L) (h : IsCoherent inner lru cfg good law sole c) where
    saved-Wrote :
        (r : Record) (p : Result (Unit {0}) × S)
        → Inv p.1
        → (p.0 ≡ ok tt → Written (view c.inner) name (some r) (view p.1))
        → ((e : Error) → p.0 ≡ err e → Unchanged (view c.inner) (view p.1))
        → Wrote name (some r) c (saved inner lru cfg name r c p)
    unfolding saved add_entry
    saved-Wrote r (err e, s) i good_ok bad = record {
      coherent = failed c s h i (bad e refl);
      on_ok = λ q. absurd (cc);
      resident = λ q. absurd (cc);
      on_err = λ f q. bad e refl;
    }
    saved-Wrote r (ok tt, s) i good_ok bad = record {
      coherent = record {
        inv = i;
        agrees = record {
          at =
              write-at (view c.inner) (view s) name (some r) c.recs h.agrees.at (good_ok refl) _
                (ap some (clone-id r));
          listed = λ n q. absurd (cc);
        };
      };
      on_ok = λ q. good_ok refl;
      resident = λ q. (_, good.peek_add_self name _ c.recs, ap some (clone-id r));
      on_err = λ f q. absurd (cc);
    }

    -- Over an inner backend of its own that keeps records as they are given and whose failed writes
    -- change nothing, Save through the cache stores the record in the inner backend and in the cache, or
    -- changes nothing that is held; what is resident is right afterwards, the list of names included.
    pub save-Wrote :
        (ctx : Context) (r : Record) → Wrote name (some r) c (save inner lru cfg ctx name r c)
    unfolding save
    save-Wrote ctx r =
        saved-Wrote r (inner.save ctx name r c.inner) (law.save_inv ctx name r c.inner h.inv)
          (λ q. sole.save_exact ctx name r c.inner h.inv q)
          (λ e q. sole.save_failed ctx name r c.inner e q)

    deleted-Wrote :
        (p : Result (Unit {0}) × S)
        → Inv p.1
        → (p.0 ≡ ok tt → Written (view c.inner) name none (view p.1))
        → ((e : Error) → p.0 ≡ err e → Unchanged (view c.inner) (view p.1))
        → Wrote name none c (deleted inner lru cfg name c p)
    unfolding deleted remove
    deleted-Wrote (err e, s) i good_ok bad = record {
      coherent = failed c s h i (bad e refl);
      on_ok = λ q. absurd (cc);
      resident = λ q. absurd (cc);
      on_err = λ f q. bad e refl;
    }
    deleted-Wrote (ok tt, s) i good_ok bad = record {
      coherent = record {
        inv = i;
        agrees = record {
          at = evict-at (view c.inner) (view s) name none c.recs h.agrees.at (good_ok refl);
          listed = λ n q. absurd (cc);
        };
      };
      on_ok = λ q. good_ok refl;
      resident = λ q. good.peek_remove name name c.recs ∙ rw (bytes_eq_refl name) refl;
      on_err = λ f q. absurd (cc);
    }

    -- Over an inner backend of its own whose failed writes change nothing, Delete through the cache
    -- removes the record from the inner backend and evicts its entry, or changes nothing that is held; what is resident is right afterwards.
    pub delete-Wrote : (ctx : Context) → Wrote name none c (delete inner lru cfg ctx name c)
    unfolding delete
    delete-Wrote ctx =
        deleted-Wrote (inner.delete ctx name c.inner) (law.delete_inv ctx name c.inner h.inv)
          (λ q. law.delete_ok ctx name c.inner h.inv q)
          (λ e q. sole.delete_failed ctx name c.inner e q)

    pub remove-Kept : Kept inner lru cfg good law sole c (remove inner lru cfg name c)
    unfolding remove
    remove-Kept = record {
      coherent = record {
        inv = h.inv;
        agrees = record {
          at = remove-at inner lru cfg good (view c.inner) name c.recs h.agrees.at;
          listed = h.agrees.listed;
        };
      };
      unchanged = λ k. refl;
    }

  pub purge-Kept :
      (c : Cache S L)
      → IsCoherent inner lru cfg good law sole c
      → Kept inner lru cfg good law sole c (purge inner lru cfg c)
  unfolding purge
  purge-Kept c h = record {
    coherent = record {
      inv = h.inv;
      agrees = record {
        at = λ k f q. absurd (ground (arith, good.peek_purge k c.recs));
        listed = λ n q. absurd (cc);
      };
    };
    unchanged = λ k. refl;
  }
