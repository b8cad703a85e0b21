-- ===== src/Cache/Interleaving/Safety.antt =====
-- backend/cache/cache.go: the fetches of the interleaved cache, from take-off to landing.
use ts1p.Prelude.{
  ℕ, ◌≡◌, refl, sym, subst, ap, ◌∙◌, inl, inr, true, false, Bool-cases, Option, none, some, List,
  eqb, Bytes, bytes_eq_eq, arith,
}
use mathlib.Core.Path.{fun_ext}
use mathlib.Core.Option.{some-injective}
use ts1p.Errors.{Error, Sentinel, is, Result, ok, err}
use ts1p.Backend.{Record, clone-id, Context, without_cancel, Backend, IsLawful}
use ts1p.Cache.Eviction.{Lru, IsLru, Entry, add-all, remove-all}
use ts1p.Cache.Timing.{Config, Oracle}
use ts1p.Cache.{Names, add_entry, fill, store, store_negative, fill_names, keep_names}
use ts1p.Cache.Entries.{clone_names-id}
use ts1p.Cache.Coherence.{IsExclusive}
use ts1p.Cache.Interleaving.{System, Flight, ListFlight, Writer, update, with_inner}
use ts1p.Cache.Interleaving.Invariant.{
  writing, changing, IsTrue, AreNames, FlightRight, ListFlightRight, IsRight, update-all,
}

module _ {S L : Type 0} (inner : Backend S) (lru : Lru L) (cfg : Config) (good : IsLru lru)
    (law : IsLawful inner) (sole : IsExclusive law) where
  open law use {view, Inv}

  -- A state of the system that is right.
  pub record IsSafe (s : System S L) : Type 0 where
    pub inv : Inv s.cache.inner
    pub right :
        IsRight lru
          (view s.cache.inner)
          s.writer
          s.cache.recs
          s.cache.names
          s.cache.seq
          s.flights
          s.list_flights

  -- What the inner backend holds has not changed.
  pub same_view :
      (v v' : Bytes → Option Record) (w : Writer) (l : L) (names : Option Names) (seq : ℕ)
      (fs : ℕ → Option Flight) (gs : ℕ → Option ListFlight)
      → ((k : Bytes) → v' k ≡ v k)
      → IsRight lru v w l names seq fs gs
      → IsRight lru v' w l names seq fs gs
  same_view v v' w l names seq fs gs h r =
      subst (λ u. IsRight lru u w l names seq fs gs) (fun_ext (λ k. sym (h k))) r

  answer-IsTrue :
      (ctx : Context) (name : Bytes) (s : S)
      → Inv s
      → IsTrue (view s name) (inner.load (without_cancel ctx) name s).0
  answer-IsTrue ctx name s i = record {
    on_ok = λ x e. law.load_ok (without_cancel ctx) name s x i (sole.always _) e;
    on_not_found = λ e p q. law.load_not_found (without_cancel ctx) name s e i (sole.always _) p q;
  }

  with_flight :
      (v : Bytes → Option Record) (w : Writer) (l : L) (names : Option Names) (seq i : ℕ)
      (fs : ℕ → Option Flight) (gs : ℕ → Option ListFlight) (a : Option Flight)
      → IsRight lru v w l names seq fs gs
      → ((f : Flight) → a ≡ some f → FlightRight v w seq f)
      → IsRight lru v w l names seq (update fs i a) gs
  with_flight v w l names seq i fs gs a h new = record {
    pending = h.pending;
    at = h.at;
    listed = h.listed;
    flight = update-all (FlightRight v w seq) fs i a h.flight new;
    list_flight = h.list_flight;
  }

  with_list_flight :
      (v : Bytes → Option Record) (w : Writer) (l : L) (names : Option Names) (seq i : ℕ)
      (fs : ℕ → Option Flight) (gs : ℕ → Option ListFlight) (a : Option ListFlight)
      → IsRight lru v w l names seq fs gs
      → ((f : ListFlight) → a ≡ some f → ListFlightRight v w seq f)
      → IsRight lru v w l names seq fs (update gs i a)
  with_list_flight v w l names seq i fs gs a h new = record {
    pending = h.pending;
    at = h.at;
    listed = h.listed;
    flight = h.flight;
    list_flight = update-all (ListFlightRight v w seq) gs i a h.list_flight new;
  }

  module _ (s : System S L) (h : IsSafe s) where
    pub take_off-IsSafe :
        (i : ℕ) (name : Bytes)
        → IsSafe (record s {
          flights =
              update s.flights i (some (record { name = name; seq = s.cache.seq; answer = none }));
        })
    take_off-IsSafe i name = record {
      inv = h.inv;
      right = with_flight _ _ _ _ _ i _ _ _ h.right (λ f e.
          subst (FlightRight (view s.cache.inner) s.writer s.cache.seq) (some-injective _ _ e)
            (record { bound = omega arith; told = λ r p q u. absurd (cc) }));
    }

    pub answered-IsSafe :
        (i : ℕ) (f : Flight) (ctx : Context)
        → s.flights i ≡ some f
        → IsSafe (record s {
          cache =
              with_inner inner lru cfg s.cache
                (inner.load (without_cancel ctx) f.name s.cache.inner).1;
          flights = update s.flights i (
              some (record f {
                answer = some (inner.load (without_cancel ctx) f.name s.cache.inner).0;
              }));
        })
    answered-IsSafe i f ctx e = record {
      inv = law.load_inv (without_cancel ctx) f.name s.cache.inner h.inv;
      right =
          same_view (view s.cache.inner) _ _ _ _ _ _ _
            (law.load_view (without_cancel ctx) f.name s.cache.inner)
            (with_flight _ _ _ _ _ i _ _ _ h.right (λ g q.
              subst (FlightRight (view s.cache.inner) s.writer s.cache.seq) (some-injective _ _ q)
                (record {
                  bound = (h.right.flight i f e).bound;
                  told = λ r p u t.
                      subst (IsTrue (view s.cache.inner f.name)) (some-injective _ _ p)
                        (answer-IsTrue ctx f.name s.cache.inner h.inv);
                })));
    }

    pub list_off-IsSafe :
        (i : ℕ)
        → IsSafe (record s {
          list_flights =
              update s.list_flights i (some (record { seq = s.cache.seq; answer = none }));
        })
    list_off-IsSafe i = record {
      inv = h.inv;
      right = with_list_flight _ _ _ _ _ i _ _ _ h.right (λ f e.
          subst (ListFlightRight (view s.cache.inner) s.writer s.cache.seq) (some-injective _ _ e)
            (record { bound = omega arith; told = λ r p q u. absurd (cc) }));
    }

    pub listed-IsSafe :
        (i : ℕ) (f : ListFlight) (ctx : Context)
        → s.list_flights i ≡ some f
        → IsSafe (record s {
          cache =
              with_inner inner lru cfg s.cache (inner.list (without_cancel ctx) s.cache.inner).1;
          list_flights =
              update s.list_flights i (
                some
                  (record f { answer = some (inner.list (without_cancel ctx) s.cache.inner).0 }));
        })
    listed-IsSafe i f ctx e = record {
      inv = law.list_inv (without_cancel ctx) s.cache.inner h.inv;
      right =
          same_view (view s.cache.inner) _ _ _ _ _ _ _
            (law.list_view (without_cancel ctx) s.cache.inner)
            (with_list_flight _ _ _ _ _ i _ _ _ h.right (λ g q.
              subst (ListFlightRight (view s.cache.inner) s.writer s.cache.seq)
                (some-injective _ _ q)
                (record {
                  bound = (h.right.list_flight i f e).bound;
                  told = λ ns p u t.
                      law.list_ok (without_cancel ctx) s.cache.inner ns h.inv (sole.always _)
                        (some-injective _ _ p);
                })));
    }

    pub hit-IsSafe :
        (name : Bytes) (o : Oracle)
        → IsSafe (record s {
          cache = record s.cache { recs = (lru.get name s.cache.recs).1; oracle = o };
        })
    hit-IsSafe name o = record {
      inv = h.inv;
      right = record {
        pending = h.right.pending;
        at = λ k e p. h.right.at k e (sym (good.peek_get k name s.cache.recs) ∙ p);
        listed = h.right.listed;
        flight = h.right.flight;
        list_flight = h.right.list_flight;
      };
    }

    -- A flight lands: what it stores, if anything, is right.
    landed :
        (i : ℕ) (l : L) (o : Oracle)
        → ((k : Bytes) (e : Entry)
            → lru.peek k l ≡ some e
            → writing s.writer k ≡ false
            → e.val ≡ view s.cache.inner k)
        → IsSafe (record s {
          cache = record s.cache { recs = l; oracle = o };
          flights = update s.flights i none;
        })
    landed i l o right = record {
      inv = h.inv;
      right =
          with_flight _ _ _ _ _ i _ _ _
            (record {
              pending = h.right.pending;
              at = right;
              listed = h.right.listed;
              flight = h.right.flight;
              list_flight = h.right.list_flight;
            })
            (λ f e. absurd (cc));
    }

    negative-IsSafe :
        (i : ℕ) (f : Flight) (u : Error)
        → s.flights i ≡ some f
        → f.answer ≡ some (err u)
        → is u Sentinel.backend_not_found ≡ true
        → IsSafe (record s {
          cache = store_negative inner lru cfg f.name f.seq s.cache;
          flights = update s.flights i none;
        })
    unfolding store_negative
    negative-IsSafe i f u e a gone = elim (Bool-cases (eqb s.cache.seq f.seq)) [
      | inr old ↦ rw old (landed i s.cache.recs s.cache.oracle h.right.at)
      | inl fresh ↦ rw fresh (elim (Bool-cases (eqb cfg.ttl 0)) [
        | inl off ↦ rw off (
            landed i _ s.cache.oracle (
              remove-all lru good (λ k e. writing s.writer k ≡ false → e.val ≡ view s.cache.inner k)
                s.cache.recs f.name (λ k g n p. h.right.at k g p)))
        | inr on ↦ rw on (
            landed i _ _ (
              add-all lru good (λ k e. writing s.writer k ≡ false → e.val ≡ view s.cache.inner k)
                s.cache.recs f.name _ (λ k g n p. h.right.at k g p)
                (λ q. sym (
                  ((h.right.flight i f e).told (err u) a (ground arith) q).on_not_found u refl
                    gone))))
      ])
    ]

    pub land-IsSafe :
        (i : ℕ) (f : Flight) (r : Result Record)
        → s.flights i ≡ some f
        → f.answer ≡ some r
        → IsSafe (record s {
          cache = (fill inner lru cfg f.name f.seq s.cache (r, s.cache.inner)).1;
          flights = update s.flights i none;
        })
    unfolding fill store add_entry
    land-IsSafe i f (ok x) e a = elim (Bool-cases (eqb s.cache.seq f.seq)) [
      | inr old ↦ rw old (landed i s.cache.recs s.cache.oracle h.right.at)
      | inl fresh ↦ rw fresh (
          landed i _ _ (
            add-all lru good (λ k e. writing s.writer k ≡ false → e.val ≡ view s.cache.inner k)
              s.cache.recs f.name _ (λ k g n p. h.right.at k g p)
              (λ q.
                ap some (clone-id x)
                ∙ sym (((h.right.flight i f e).told (ok x) a (ground arith) q).on_ok x refl))))
    ]
    land-IsSafe i f (err u) e a = elim (Bool-cases (is u Sentinel.backend_not_found)) [
      | inr other ↦ rw other (landed i s.cache.recs s.cache.oracle h.right.at)
      | inl gone ↦ rw gone (negative-IsSafe i f u e a gone)
    ]

    pub list_land-IsSafe :
        (i : ℕ) (f : ListFlight) (r : Result (List Bytes))
        → s.list_flights i ≡ some f
        → f.answer ≡ some r
        → IsSafe (record s {
          cache = (fill_names inner lru cfg f.seq s.cache (r, s.cache.inner)).1;
          list_flights = update s.list_flights i none;
        })
    unfolding fill_names keep_names
    list_land-IsSafe i f (err u) e a = record {
      inv = h.inv;
      right = with_list_flight _ _ _ _ _ i _ _ _ h.right (λ g q. absurd (cc));
    }
    list_land-IsSafe i f (ok ns) e a = elim (Bool-cases (eqb s.cache.seq f.seq)) [
      | inr old ↦ rw old (record {
        inv = h.inv;
        right = with_list_flight _ _ _ _ _ i _ _ _ h.right (λ g q. absurd (cc));
      })
      | inl fresh ↦ rw fresh (record {
        inv = h.inv;
        right =
            with_list_flight _ _ _ _ _ i _ _ _
              (record {
                pending = h.right.pending;
                at = h.right.at;
                listed = λ n q w.
                    subst (λ (m : Names). AreNames (view s.cache.inner) m.val)
                      (some-injective _ _ q)
                      (subst (AreNames (view s.cache.inner)) (sym (clone_names-id ns))
                        ((h.right.list_flight i f e).told ns a (ground arith) (ap changing w)));
                flight = h.right.flight;
                list_flight = h.right.list_flight;
              })
              (λ g q. absurd (cc));
      })
    ]
