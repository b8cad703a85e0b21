-- ===== src/OnePassword/Lawful/Removing.antt =====
-- backend/onepassword/onepassword.go: Delete over a vault that is the backend's own.
use ts1p.Prelude.{
  ◌≡◌, refl, sym, ap, ◌∙◌, ◌⊎◌, inl, inr, true, false, Bool-cases, Option, none, some, Option-cases,
  [], if◌then◌else◌, Bytes, bytes_eq, bytes_eq_iff, bytes_eq_refl, bytes_eq_eq, Map, delete, arith,
}
use ts1p.Errors.{Error, Result, ok, err}
use ts1p.Exec.{continue}
use ts1p.Backend.{Record, Context, Written, Unchanged}
use ts1p.OnePassword.{Items, OnePassword, delete_found, remove, forget_id}
use ts1p.OnePassword.Fields.{Text, Item}
use ts1p.OnePassword.Vault.{IsVault, drop}
use ts1p.OnePassword.Lawful.{Owned, IsRight, IsRight-forget}
use ts1p.OnePassword.Lawful.Finding.{Found, find_id-Found}
use ts1p.OnePassword.Lawful.Loading.{view, view-same, read_at}

drop-none :
    (id : Bytes) (o : Option Item) → ((i : Item) → o ≡ some i → i.id ≡ id) → drop id o ≡ none
drop-none id none h = refl
drop-none id (some i) h = rw (h i refl, bytes_eq_refl id) refl

drop_other :
    (id : Bytes) (o : Option Item)
    → ((i : Item) → o ≡ some i → bytes_eq i.id id ≡ false)
    → drop id o ≡ o
drop_other id none h = refl
drop_other id (some i) h = rw (h i refl) refl

drop-some : (id : Bytes) (o : Option Item) (i : Item) → drop id o ≡ some i → o ≡ some i
drop-some id none i e = absurd (cc)
drop-some id (some j) i e = ground (arith, e)

module _ {V : Type 0} (items : Items V) (json : Text) (law : IsVault items) where
  open law use {Plain, at, used}

  abbrev pub Removal :
      (Bytes → Option Record) → Bytes → (Bytes → Option Record) → Result (Unit {0}) → Type 0
  Removal before name after (ok u) = Written before name none after
  Removal before name after (err e) = Unchanged before after ⊎ Written before name none after

  pub record Removed (s : OnePassword V) (name : Bytes) (x : Result (Unit {0}) × OnePassword V)
      : Type 0 where
    pub right : IsRight items json law x.1
    pub outcome : Removal (view items json law s) name (view items json law x.1) x.0

  -- What DeleteItem answered.
  record Deletion (v : V) (id : Bytes) (x : Result (Unit {0})) (w : V) : Type 0 where
    plain : Plain w
    kept : (j : Bytes) → used v j ≡ true → used w j ≡ true
    on_ok : x ≡ ok tt → (k : Bytes) → at w k ≡ drop id (at v k)
    on_err :
        (e : Error)
        → x ≡ err e
        → ((k : Bytes) → at w k ≡ at v k) ⊎ ((k : Bytes) → at w k ≡ drop id (at v k))

  -- A vault with no item that was not there.
  fewer-IsRight :
      (s : OnePassword V) (w : V)
      → IsRight items json law s
      → Plain w
      → ((j : Bytes) → used s.vault j ≡ true → used w j ≡ true)
      → ((k : Bytes) (i : Item) → at w k ≡ some i → at s.vault k ≡ some i)
      → IsRight items json law (record s { vault = w })
  fewer-IsRight s w h p kept old = record {
    plain = p;
    readable = λ k i e. h.readable k i (old k i e);
    named = elim (Option-cases (at w [])) [
      | inl e ↦ e
      | inr (i, e) ↦ absurd (cc (old [] i e, h.named))
    ];
    memo = λ k id e.
        let own = h.memo k id e in
        record {
          known = kept id own.known;
          its = λ i q. own.its i (old k i q);
          only = λ l i q d. own.only l i (old l i q) d;
        };
  }

  module _ (s : OnePassword V) (name id : Bytes) (x : Result (Unit {0})) (w : V)
      (h : IsRight items json law s) (own : Owned items json law s.vault name id)
      (d : Deletion s.vault id x w) where
    dropped-IsRight :
        ((k : Bytes) → at w k ≡ drop id (at s.vault k))
        → IsRight items json law (record s { vault = w })
    dropped-IsRight e =
        fewer-IsRight s w h d.plain d.kept (λ k i q. drop-some id (at s.vault k) i (sym (e k) ∙ q))

    same-IsRight :
        ((k : Bytes) → at w k ≡ at s.vault k) → IsRight items json law (record s { vault = w })
    same-IsRight e = fewer-IsRight s w h d.plain d.kept (λ k i q. sym (e k) ∙ q)

    -- The item of this ID was the one of the title.
    dropped-Written :
        (ids : Map Bytes Bytes)
        → ((k : Bytes) → at w k ≡ drop id (at s.vault k))
        → Written
            (view items json law s)
            name
            none
            (view items json law (record { vault = w; ids = ids }))
    unfolding view read_at
    dropped-Written ids e k = elim (Bool-cases (bytes_eq name k)) [
      | inl q ↦
          let gone =
            drop-none id (at s.vault k)
              (λ i p. own.its i (ap (at s.vault) ((bytes_eq_iff name k).0 q) ∙ p)) in
          rw (q, e k, gone) refl
      | inr q ↦
          let stays = drop_other id (at s.vault k) (λ i p. other i p q) in rw (q, e k, stays) refl
    ]
      where
        other :
            (i : Item) → at s.vault k ≡ some i → bytes_eq name k ≡ false → bytes_eq i.id id ≡ false
        other i p q = elim (Bool-cases (bytes_eq i.id id)) [
          | inl b ↦ absurd (cc (own.only k i p ((bytes_eq_iff i.id id).0 b), q, bytes_eq_refl name))
          | inr b ↦ b
        ]

    deleted-Removed :
        (y : Result (Unit {0}))
        → x ≡ y
        → Removed s name (continue (λ u t. forget_id name t) (y, record s { vault = w }))
    deleted-Removed (ok u) p = record {
      right =
          IsRight-forget items json law (record s { vault = w }) name (dropped-IsRight (d.on_ok p));
      outcome = dropped-Written (delete name s.ids) (d.on_ok p);
    }
    deleted-Removed (err e) p = elim (d.on_err e p) [
      | inl q ↦ record {
        right = same-IsRight q;
        outcome = inl (λ k. view-same items json law s (record s { vault = w }) k (q k));
      }
      | inr q ↦ record { right = dropped-IsRight q; outcome = inr (dropped-Written s.ids q) }
    ]

  Written-before :
      (f g h : Bytes → Option Record) (name : Bytes)
      → Unchanged f g
      → Written g name none h
      → Written f name none h
  Written-before f g h name c o k =
      o k ∙ ap (λ (r : Option Record). if bytes_eq name k then none else r) (c k)

  later_Removal :
      (f g h : Bytes → Option Record) (name : Bytes) (x : Result (Unit {0}))
      → Unchanged f g
      → Removal g name h x
      → Removal f name h x
  later_Removal f g h name (ok u) c o = Written-before f g h name c o
  later_Removal f g h name (err e) c (inl o) = inl (λ k. o k ∙ c k)
  later_Removal f g h name (err e) c (inr o) = inr (Written-before f g h name c o)

  absent-Written :
      (s t : OnePassword V) (name : Bytes)
      → ((k : Bytes) → at t.vault k ≡ at s.vault k)
      → at t.vault name ≡ none
      → Written (view items json law s) name none (view items json law t)
  unfolding view read_at
  absent-Written s t name same e k = elim (Bool-cases (bytes_eq name k)) [
    | inl q ↦ rw (q, sym ((bytes_eq_iff name k).0 q), e) refl
    | inr q ↦ rw (q, same k) refl
  ]

  delete_found-Removed :
      (ctx : Context) (name : Bytes) (s : OnePassword V) (x : Result (Option Bytes) × OnePassword V)
      → Found items json law s name x
      → Removed s name (continue (delete_found items json ctx name) x)
  unfolding delete_found
  delete_found-Removed ctx name s (err e, t) f = record {
    right = f.still.right;
    outcome = inl (λ k. view-same items json law s t k (f.still.same k));
  }
  delete_found-Removed ctx name s (ok none, t) f = record {
    right = f.still.right;
    outcome = absent-Written s t name f.still.same f.answer;
  }
  delete_found-Removed ctx name s (ok (some id), t) f =
      let deletion : Deletion t.vault id _ _ = record {
        plain = law.delete_plain ctx id t.vault f.still.right.plain;
        kept = λ j. law.delete_used ctx id t.vault j;
        on_ok = law.delete_ok ctx id t.vault f.still.right.plain;
        on_err = λ e. law.delete_err ctx id t.vault e f.still.right.plain;
      } in
      let rest = deleted-Removed t name id _ _ f.still.right f.answer deletion _ refl in
      record {
        right = rest.right;
        outcome =
            later_Removal _ _ _ name _ (λ k. view-same items json law s t k (f.still.same k))
              rest.outcome;
      }

  pub remove-Removed :
      (ctx : Context) (name : Bytes) (s : OnePassword V)
      → IsRight items json law s
      → Removed s name (remove items json ctx name s)
  unfolding remove
  remove-Removed ctx name s h =
      delete_found-Removed ctx name s _ (find_id-Found items json law ctx name s h)
