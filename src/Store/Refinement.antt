-- ===== src/Store/Refinement.antt =====
-- store/store.go: the outcomes of a write over any lawful backend, against Store/Model.
pub mod Writes
use ts1p.Prelude.{
  ◌≡◌, refl, subst, sym, ap, ◌∙◌, ◌⊎◌, inl, inr, Bool, true, false, Option, none, some,
  if◌then◌else◌, Bytes, bytes_eq, bytes_eq_refl, arith,
}
use ts1p.Errors.{Error, Sentinel, is, Result, ok, err}
use ts1p.Exec.{Exec, pure, ◌>>=◌, bind-pure}
use ts1p.Backend.{Record, Context, Backend, IsLawful, Written, Unchanged, Stored}
use ts1p.Store.{save_as}
use ts1p.Store.Model.{Secret}
use ts1p.Store.Abstraction.{abs, abs?, abs-SameRecord}
use ts1p.Store.Access.{Saved, saved}

-- The secret `n` moves to `next`, and no other secret is touched.
pub record Moves (n : Bytes) (next : Option Secret) (before after : Bytes → Option Record)
    : Type 0 where
  pub at : abs? (after n) ≡ next
  pub elsewhere : (k : Bytes) → bytes_eq n k ≡ false → after k ≡ before k

module _ {S : Type 0} (b : Backend S) where
  -- The backend has returned the error `e`; of a read it is no not-found, which the store translates.
  pub data Blamed (e : Error) : Type 0 where
    by_load :
        (ctx : Context) (n : Bytes) (s : S)
        → (b.load ctx n s).0 ≡ err e
        → is e Sentinel.backend_not_found ≡ false
        → is e Sentinel.api_not_found ≡ false
        → Blamed e
    by_save :
        (ctx : Context) (n : Bytes) (r : Record) (s : S) → (b.save ctx n r s).0 ≡ err e → Blamed e
    by_delete : (ctx : Context) (n : Bytes) (s : S) → (b.delete ctx n s).0 ≡ err e → Blamed e

  module _ (law : IsLawful b) where
    open law use {Inv, view}

    -- A method does what the model says, or an error of the backend is returned. Then the secret is
    -- as before, or the failed write has taken effect.
    pub data Outcome {A : Type 0} (n : Bytes) (s : S) (answer : Result A) (next : Option Secret)
        : Result A × S → Type 0 where
      done :
          (x : Result A × S)
          → x.0 ≡ answer
          → Moves n next (view s) (view x.1)
          → Inv x.1
          → Outcome n s answer next x
      failed :
          (x : Result A × S) (e : Error)
          → x.0 ≡ err e
          → Blamed e
          → Unchanged (view s) (view x.1)
          → Inv x.1
          → Outcome n s answer next x
      torn :
          (x : Result A × S) (e : Error)
          → x.0 ≡ err e
          → Blamed e
          → Moves n next (view s) (view x.1)
          → Inv x.1
          → Outcome n s answer next x

    pub Moves-stay :
        (n : Bytes) (s s' : S) (next : Option Secret)
        → Unchanged (view s) (view s')
        → abs? (view s n) ≡ next
        → Moves n next (view s) (view s')
    Moves-stay n s s' next u p = record { at = ap abs? (u n) ∙ p; elsewhere = λ k h. u k }

    pub Moves-write :
        (n : Bytes) (s s1 s2 : S) (o : Option Record) (next : Option Secret)
        → Unchanged (view s) (view s1)
        → Written (view s1) n o (view s2)
        → abs? o ≡ next
        → Moves n next (view s) (view s2)
    Moves-write n s s1 s2 o next u w p = record {
      at = ap abs? (w n ∙ ap (λ t. if t then o else view s1 n) (bytes_eq_refl n)) ∙ p;
      elsewhere = λ k h. w k ∙ ap (λ t. if t then o else view s1 k) h ∙ u k;
    }

    pub Moves-Stored :
        (n : Bytes) (s s1 s2 : S) (r : Record) (next : Option Secret)
        → Unchanged (view s) (view s1)
        → Stored (view s1) n r (view s2)
        → some (abs r) ≡ next
        → Moves n next (view s) (view s2)
    Moves-Stored n s s1 s2 r next u w p =
        Moves-write n s s1 s2 (some w.form) next u w.written
          (ap some (abs-SameRecord r w.form w.same) ∙ p)

    -- A save after the read, with the version that the method then returns.
    pub save_as-Outcome :
        (ctx : Context) (n : Bytes) (r : Record) {A : Type 0} (f : Unit {0} → Exec S A) (v : A)
        (s s1 : S) (answer : Result A) (next : Option Secret)
        → ((t : S) → f tt t ≡ (ok v, t))
        → ok v ≡ answer
        → Inv s1
        → Unchanged (view s) (view s1)
        → some (abs r) ≡ next
        → Outcome n s answer next ((b.save ctx n r >>= f) s1)
    save_as-Outcome ctx n r f v s s1 answer next k a i u p = elim (saved b law ctx n r s1 i) [
      | inl (q, w) ↦ rw q (rw k (done _ a (Moves-Stored n s s1 _ r next u w p) j))
      | inr (e, q, inl w) ↦
          rw q (failed _ e refl (by_save ctx n r s1 (ap (λ x. x.0) q)) (λ k. w k ∙ u k) j)
      | inr (e, q, inr w) ↦ rw q (
          torn _ e refl (by_save ctx n r s1 (ap (λ x. x.0) q)) (Moves-Stored n s s1 _ r next u w p)
            j)
    ]
      where
        j : Inv (b.save ctx n r s1).1
        j = law.save_inv ctx n r s1 i

    pub save-Outcome :
        (ctx : Context) (n : Bytes) (r : Record) (s s1 : S) (next : Option Secret)
        → Inv s1
        → Unchanged (view s) (view s1)
        → some (abs r) ≡ next
        → Outcome n s (ok tt) next (b.save ctx n r s1)
    save-Outcome ctx n r s s1 next i u p =
        subst (Outcome n s (ok tt) next) (bind-pure (b.save ctx n r) s1)
          (save_as-Outcome ctx n r pure tt s s1 (ok tt) next (λ t. refl) refl i u p)
