-- ===== src/Cache/Coherence.antt =====
-- backend/cache/cache.go over a lawful backend that nothing else writes to: when a state is right, and
-- the reads of such a state.
use ts1p.Prelude.{
  ◌≡◌, refl, sym, subst, ap, ◌∙◌, true, Option, none, some, List, Bytes, bytes_eq_eq, contains,
  is_some,
}
use ts1p.Errors.{Error, Sentinel, is, Result, ok, err}
use ts1p.Backend.{Record, clone-id, Context, without_cancel, Backend, IsLawful, Written, Unchanged}
use ts1p.Cache.Eviction.{Lru, IsLru}
use ts1p.Cache.Timing.{Config}
use ts1p.Cache.{Cache, answer, fetch, load, list, fetch_names}
use ts1p.Cache.Entries.{Agrees, Agrees-same}
use ts1p.Cache.Reading.{Tells, inner-fetch, fetch-Agrees, fetch-ok, fetch-err}
use ts1p.Cache.Loading
use ts1p.Cache.Loading.{Way, load-Way}
use ts1p.Cache.Listing
use ts1p.Cache.Listing.{Lists, list-Way, inner-fetch_names, fetch_names-right}

-- What the sole use of an inner backend adds to the contract: reads are always current, a record
-- is kept as it was given, and a write that fails has changed nothing.
pub record IsExclusive {S : Type 0} {b : Backend S} (law : IsLawful b) : Type 0 where
  pub always : (ctx : Context) → law.current ctx ≡ true
  pub save_exact :
      (ctx : Context) (n : Bytes) (r : Record) (s : S)
      → law.Inv s
      → (b.save ctx n r s).0 ≡ ok tt
      → Written (law.view s) n (some r) (law.view (b.save ctx n r s).1)
  pub save_failed :
      (ctx : Context) (n : Bytes) (r : Record) (s : S) (e : Error)
      → (b.save ctx n r s).0 ≡ err e
      → Unchanged (law.view s) (law.view (b.save ctx n r s).1)
  pub delete_failed :
      (ctx : Context) (n : Bytes) (s : S) (e : Error)
      → (b.delete ctx n s).0 ≡ err e
      → Unchanged (law.view s) (law.view (b.delete ctx n s).1)

module _ {S L : Type 0} (inner : Backend S) (lru : Lru L) (cfg : Config) (good : IsLru lru)
    (law : IsLawful inner) (sole : IsExclusive law) where
  open law use {view, Inv}

  abbrev pub held : Cache S L → Bytes → Option Record
  held c = view c.inner

  pub record IsCoherent (c : Cache S L) : Type 0 where
    pub inv : Inv c.inner
    pub agrees : Agrees inner lru cfg good (view c.inner) c

  -- What a read of `c` that ends in `x` and `d` has kept.
  pub record Kept (c d : Cache S L) : Type 0 where
    pub coherent : IsCoherent d
    pub unchanged : Unchanged (held c) (held d)

  -- A step that leaves the inner state, or the state after its read, and what is resident right.
  settled :
      (c d : Cache S L) (s : S)
      → Inv s
      → Unchanged (view c.inner) (view s)
      → d.inner ≡ s
      → Agrees inner lru cfg good (view c.inner) d
      → Kept c d
  settled c d s i u e a =
      let same = λ (k : Bytes). ap (λ t. view t k) e ∙ u k in
      record {
        coherent = record {
          inv = subst Inv (sym e) i;
          agrees = Agrees-same inner lru cfg good (view c.inner) (view d.inner) d same a;
        };
        unchanged = same;
      }

  Touched-Kept :
      (c d : Cache S L) → Loading.Touched inner lru cfg good c d → IsCoherent c → Kept c d
  Touched-Kept c d t h =
      settled c d c.inner h.inv (λ k. refl) t.same_inner (t.keeps (held c) h.agrees)

  pub Kept-trans : (c d e : Cache S L) → Kept c d → Kept d e → Kept c e
  Kept-trans c d e p q = record {
    coherent = q.coherent;
    unchanged = λ k. q.unchanged k ∙ p.unchanged k;
  }

  module _ (ctx : Context) (name : Bytes) where
    pub record Answered (c : Cache S L) (x : Result Record × Cache S L) : Type 0 where
      pub kept : Kept c x.1
      pub on_ok : (r : Record) → x.0 ≡ ok r → held c name ≡ some r
      pub on_not_found :
          (e : Error) → x.0 ≡ err e → is e Sentinel.backend_not_found ≡ true → held c name ≡ none

    tells :
        (c : Cache S L)
        → Inv c.inner
        → Tells inner lru cfg good (held c) name (inner.load (without_cancel ctx) name c.inner).0
    tells c i = record {
      on_ok = λ r e. law.load_ok (without_cancel ctx) name c.inner r i (sole.always _) e;
      on_not_found =
          λ e p q. law.load_not_found (without_cancel ctx) name c.inner e i (sole.always _) p q;
    }

    fetch-Answered : (c : Cache S L) → IsCoherent c → Answered c (fetch inner lru cfg ctx name c)
    fetch-Answered c h =
        let t = tells c h.inv in
        record {
          kept =
              settled c _ _ (law.load_inv (without_cancel ctx) name c.inner h.inv)
                (law.load_view (without_cancel ctx) name c.inner)
                (inner-fetch inner lru cfg good ctx name c)
                (fetch-Agrees inner lru cfg good (held c) ctx name c t h.agrees);
          on_ok = λ r e. fetch-ok inner lru cfg good (held c) ctx name c r t h.agrees e;
          on_not_found =
              λ e p q. t.on_not_found e (fetch-err inner lru cfg good (held c) ctx name c e p) q;
        }

    answer-eq-ok : (o : Option Record) (r : Record) → answer inner lru cfg o ≡ ok r → o ≡ some r
    unfolding answer
    answer-eq-ok none r e = absurd (cc)
    answer-eq-ok (some x) r e = cc (clone-id x)

    answer-eq-err : (o : Option Record) (f : Error) → answer inner lru cfg o ≡ err f → o ≡ none
    unfolding answer
    answer-eq-err none f e = refl
    answer-eq-err (some x) f e = absurd (cc)

    Way-Answered :
        (c : Cache S L) (x : Result Record × Cache S L)
        → IsCoherent c
        → Way inner lru cfg good ctx name c x
        → Answered c x
    Way-Answered c x h (Way.by_fetch d t e) =
        let k = Touched-Kept c d t h in
        let a = fetch-Answered d k.coherent in
        subst (Answered c) (sym e) (record {
          kept = Kept-trans c d _ k a.kept;
          on_ok = λ r p. sym (k.unchanged name) ∙ a.on_ok r p;
          on_not_found = λ f p q. sym (k.unchanged name) ∙ a.on_not_found f p q;
        })
    Way-Answered c x h (Way.by_entry d y t p q e) =
        let v = h.agrees.at name y p in
        subst (Answered c) (sym e) (record {
          kept = Touched-Kept c d t h;
          on_ok = λ r u. sym v ∙ answer-eq-ok y.val r u;
          on_not_found = λ f u w. sym v ∙ answer-eq-err y.val f u;
        })

    -- Over an inner backend of its own, the cache answers every read, forced or not, from an entry,
    -- from the inner backend or as the fallback of an outage, by what the inner backend holds then;
    -- what is resident stays right, and nothing that is held changes.
    pub load-Answered : (c : Cache S L) → IsCoherent c → Answered c (load inner lru cfg ctx name c)
    load-Answered c h = Way-Answered c _ h (load-Way inner lru cfg good ctx name c)

  pub record Listed (c : Cache S L) (x : Result (List Bytes) × Cache S L) : Type 0 where
    pub kept : Kept c x.1
    pub names : Lists inner lru cfg good (held c) x.0

  module _ (ctx : Context) where
    fetch_names-Listed : (c : Cache S L) → IsCoherent c → Listed c (fetch_names inner lru cfg ctx c)
    fetch_names-Listed c h =
        let t =
          fetch_names-right inner lru cfg good (held c) ctx c
            (λ ns e k. law.list_ok (without_cancel ctx) c.inner ns h.inv (sole.always _) e k)
            h.agrees in
        record {
          kept =
              settled c _ _ (law.list_inv (without_cancel ctx) c.inner h.inv)
                (law.list_view (without_cancel ctx) c.inner)
                (inner-fetch_names inner lru cfg good ctx c) t.1;
          names = t.0;
        }

    ListWay-Listed :
        (c : Cache S L) (x : Result (List Bytes) × Cache S L)
        → IsCoherent c
        → Listing.ListWay inner lru cfg good ctx c x
        → Listed c x
    ListWay-Listed c x h (Listing.ListWay.by_fetch d t e) =
        let k = Touched-Kept c d t h in
        let a = fetch_names-Listed d k.coherent in
        subst (Listed c) (sym e) (record {
          kept = Kept-trans c d _ k a.kept;
          names = λ ns p j. a.names ns p j ∙ ap is_some (k.unchanged j);
        })
    ListWay-Listed c x h (Listing.ListWay.by_entry d n t p q e) = subst (Listed c) (sym e) (record {
      kept = Touched-Kept c d t h;
      names = λ ns u j.
          subst (λ (m : List Bytes). contains j m ≡ is_some (held c j))
            (let g : n.val ≡ ns = cc in g) (h.agrees.listed n p j);
    })

    -- Over an inner backend of its own, the names that List returns, from the cached list, from the
    -- inner backend or as the fallback of an outage, are exactly those that hold a record; what is
    -- resident stays right, and nothing that is held changes.
    pub list-Listed : (c : Cache S L) → IsCoherent c → Listed c (list inner lru cfg ctx c)
    list-Listed c h = ListWay-Listed c _ h (list-Way inner lru cfg good ctx c)
