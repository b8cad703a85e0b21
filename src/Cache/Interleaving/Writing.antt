-- ===== src/Cache/Interleaving/Writing.antt =====
-- backend/cache/cache.go: the writes of the interleaved cache, the evictions and the flushes.
use ts1p.Prelude.{
  ℕ, ◌+◌, ◌^◌, ◌<◌, ◌≡◌, refl, sym, subst, ap, ◌∙◌, true, false, Option, none, some, Bytes,
  bytes_eq, bytes_eq_refl, bytes_eq_eq, arith,
}
use native.Mathlib.Nat.{mod-eq_of_lt}
use ts1p.Errors.{ok}
use ts1p.Backend.{Record, clone-id, Context, Backend, IsLawful, Written}
use ts1p.Cache.Eviction.{Lru, IsLru, Entry, add-all, remove-all}
use ts1p.Cache.Timing.{Config}
use ts1p.Cache.{Names, next_seq, saved, add_entry, remove, purge}
use ts1p.Cache.Coherence.{IsExclusive}
use ts1p.Cache.Interleaving.{
  System, Flight, ListFlight, Writer, idle, saving, evicting, clearing, HasRoom, with_inner,
}
use ts1p.Cache.Interleaving.Invariant.{
  writing, changing, Pending, IsTrue, AreNames, IsRight, FlightRight-later, ListFlightRight-later,
}
use ts1p.Cache.Interleaving.Safety.{IsSafe, same_view}

-- The sequence number after a write.
next_seq_lem : (seq : ℕ) → seq + 1 < 2 ^ 64 → next_seq seq ≡ seq + 1
next_seq_lem seq h = mod-eq_of_lt h

-- A writer has changed the inner backend under one name.
begun :
    {L : Type 0} (lru : Lru L) (v v' : Bytes → Option Record) (n : Bytes) (o : Option Record)
    (w : Writer) (l : L) (names : Option Names) (seq : ℕ) (fs : ℕ → Option Flight)
    (gs : ℕ → Option ListFlight)
    → Written v n o v'
    → ((k : Bytes) → writing w k ≡ bytes_eq n k)
    → changing w ≡ true
    → Pending v' w
    → IsRight lru v idle l names seq fs gs
    → IsRight lru v' w l names seq fs gs
begun lru v v' n o w l names seq fs gs wrote here now p h =
    let other : (k : Bytes) → writing w k ≡ false → v k ≡ v' k =
      λ k q. ground (arith, wrote k, here k) in
    record {
      pending = p;
      at = λ k e a q. h.at k e a refl ∙ other k q;
      listed = λ m a q. absurd (cc (now, ap changing q));
      flight = λ i f a. record {
        bound = (h.flight i f a).bound;
        told =
            λ r b q t. subst (λ x. IsTrue x r) (other f.name t) ((h.flight i f a).told r b q refl);
      };
      list_flight =
          λ i f a. record { bound = (h.list_flight i f a).bound; told = λ ns b q t. absurd (cc) };
    }

-- A writer has moved the sequence number: no flight of before may be stored.
moved :
    {L : Type 0} (lru : Lru L) (v : Bytes → Option Record) (w w' : Writer) (l l' : L)
    (names names' : Option Names) (seq : ℕ) (fs : ℕ → Option Flight) (gs : ℕ → Option ListFlight)
    → seq + 1 < 2 ^ 64
    → Pending v w'
    → ((k : Bytes) (e : Entry) → lru.peek k l' ≡ some e → writing w' k ≡ false → e.val ≡ v k)
    → ((n : Names) → names' ≡ some n → w' ≡ idle → AreNames v n.val)
    → IsRight lru v w l names seq fs gs
    → IsRight lru v w' l' names' (next_seq seq) fs gs
moved lru v w w' l l' names names' seq fs gs room p at listed h =
    subst (λ q. IsRight lru v w' l' names' q fs gs) (sym (next_seq_lem seq room))
      (record {
        pending = p;
        at = at;
        listed = listed;
        flight = λ i f a. FlightRight-later v v w w' seq f (h.flight i f a);
        list_flight = λ i f a. ListFlightRight-later v v w w' seq f (h.list_flight i f a);
      })

module _ {S L : Type 0} (inner : Backend S) (lru : Lru L) (cfg : Config) (good : IsLru lru)
    (law : IsLawful inner) (sole : IsExclusive law) (s : System S L)
    (h : IsSafe inner lru cfg good law sole s) where
  open law use {view, Inv}

  abbrev Safe : System S L → Type 0
  Safe = IsSafe inner lru cfg good law sole

  while_idle :
      s.writer ≡ idle
      → IsRight lru
          (view s.cache.inner)
          idle
          s.cache.recs
          s.cache.names
          s.cache.seq
          s.flights
          s.list_flights
  while_idle e =
      subst
        (λ w.
          IsRight lru (view s.cache.inner) w s.cache.recs s.cache.names s.cache.seq s.flights
            s.list_flights)
        e h.right

  pending : (w : Writer) → s.writer ≡ w → Pending (view s.cache.inner) w
  pending w e = subst (Pending (view s.cache.inner)) e h.right.pending

  pub save_inner-IsSafe :
      (ctx : Context) (name : Bytes) (r : Record)
      → s.writer ≡ idle
      → (inner.save ctx name r s.cache.inner).0 ≡ ok tt
      → Safe (record s {
        cache = with_inner inner lru cfg s.cache (inner.save ctx name r s.cache.inner).1;
        writer = saving name r;
      })
  save_inner-IsSafe ctx name r e p =
      let wrote = sole.save_exact ctx name r s.cache.inner h.inv p in
      record {
        inv = law.save_inv ctx name r s.cache.inner h.inv;
        right =
            begun lru (view s.cache.inner) _ name (some r) (saving name r) _ _ _ _ _ wrote
              (λ k. refl) refl (ground (arith, wrote name, bytes_eq_refl name)) (while_idle e);
      }

  pub delete_inner-IsSafe :
      (ctx : Context) (name : Bytes)
      → s.writer ≡ idle
      → (inner.delete ctx name s.cache.inner).0 ≡ ok tt
      → Safe (record s {
        cache = with_inner inner lru cfg s.cache (inner.delete ctx name s.cache.inner).1;
        writer = evicting name;
      })
  delete_inner-IsSafe ctx name e p =
      let wrote = law.delete_ok ctx name s.cache.inner h.inv p in
      record {
        inv = law.delete_inv ctx name s.cache.inner h.inv;
        right =
            begun lru (view s.cache.inner) _ name none (evicting name) _ _ _ _ _ wrote (λ k. refl)
              refl (ground (arith, wrote name, bytes_eq_refl name)) (while_idle e);
      }

  -- A call of the inner backend that changed nothing.
  pub kept-IsSafe :
      (t : S)
      → Inv t
      → ((k : Bytes) → view t k ≡ view s.cache.inner k)
      → Safe (record s { cache = with_inner inner lru cfg s.cache t })
  kept-IsSafe t i u = record {
    inv = i;
    right =
        same_view inner lru cfg good law sole (view s.cache.inner) (view t) _ _ _ _ _ _ u h.right;
  }

  -- Nothing is resident but what is right, once the name that is being written is out.
  rest :
      (w : Writer) (name : Bytes)
      → s.writer ≡ w
      → ((k : Bytes) → bytes_eq name k ≡ false → writing w k ≡ false)
      → (k : Bytes) (e : Entry) → bytes_eq name k ≡ false
      → lru.peek k s.cache.recs ≡ some e
      → e.val ≡ view s.cache.inner k
  rest w name e here k f q p =
      h.right.at k f p (subst (λ x. writing x k ≡ false) (sym e) (here k q))

  pub save_cache-IsSafe :
      (name : Bytes) (r : Record)
      → s.writer ≡ saving name r
      → HasRoom s.cache
      → Safe (record s {
        cache = (saved inner lru cfg name r s.cache (ok tt, s.cache.inner)).1;
        writer = idle;
      })
  unfolding saved add_entry
  save_cache-IsSafe name r e room = record {
    inv = h.inv;
    right =
        moved lru (view s.cache.inner) s.writer idle s.cache.recs _ s.cache.names none s.cache.seq _
          _ room tt
          (λ k f p q.
            add-all lru good (λ j x. x.val ≡ view s.cache.inner j) s.cache.recs name _
              (rest (saving name r) name e (λ j t. t))
              (ap some (clone-id r) ∙ sym (pending (saving name r) e)) k f p)
          (λ n q. absurd (cc)) h.right;
  }

  pub delete_remove-IsSafe :
      (name : Bytes)
      → s.writer ≡ evicting name
      → HasRoom s.cache
      → Safe (record s { cache = remove inner lru cfg name s.cache; writer = clearing })
  unfolding remove
  delete_remove-IsSafe name e room = record {
    inv = h.inv;
    right =
        moved lru (view s.cache.inner) s.writer clearing s.cache.recs _ s.cache.names _ s.cache.seq
          _ _ room tt
          (λ k f p q.
            remove-all lru good (λ j x. x.val ≡ view s.cache.inner j) s.cache.recs name
              (rest (evicting name) name e (λ j t. t)) k f p)
          (λ n p q. absurd (cc)) h.right;
  }

  pub delete_names-IsSafe :
      s.writer ≡ clearing
      → Safe (record s { cache = record s.cache { names = none }; writer = idle })
  delete_names-IsSafe e = record {
    inv = h.inv;
    right = record {
      pending = tt;
      at = λ k f p q. h.right.at k f p (ap (λ w. writing w k) e);
      listed = λ n p q. absurd (cc);
      flight = λ i f a. record {
        bound = (h.right.flight i f a).bound;
        told = λ r b q t. (h.right.flight i f a).told r b q (ap (λ w. writing w f.name) e);
      };
      list_flight = λ i f a. record {
        bound = (h.right.list_flight i f a).bound;
        told = λ ns b q t. (h.right.list_flight i f a).told ns b q (ap changing e);
      };
    };
  }

  pub evict-IsSafe :
      (name : Bytes)
      → HasRoom s.cache
      → Safe (record s { cache = remove inner lru cfg name s.cache })
  unfolding remove
  evict-IsSafe name room = record {
    inv = h.inv;
    right =
        moved lru (view s.cache.inner) s.writer s.writer s.cache.recs _ s.cache.names _ s.cache.seq
          _ _ room h.right.pending
          (remove-all lru good (λ j x. writing s.writer j ≡ false → x.val ≡ view s.cache.inner j)
            s.cache.recs name (λ k f q p. h.right.at k f p))
          h.right.listed h.right;
  }

  pub flush-IsSafe : HasRoom s.cache → Safe (record s { cache = purge inner lru cfg s.cache })
  unfolding purge
  flush-IsSafe room = record {
    inv = h.inv;
    right =
        moved lru (view s.cache.inner) s.writer s.writer s.cache.recs _ s.cache.names _ s.cache.seq
          _ _ room h.right.pending (λ k f p q. absurd (cc (good.peek_purge k s.cache.recs, p)))
          (λ n p q. absurd (cc)) h.right;
  }
