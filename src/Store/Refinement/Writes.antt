-- ===== src/Store/Refinement/Writes.antt =====
-- Each write of store/store.go, past its guards, is an outcome of its model.
use ts1p.Prelude.{
  has_prefix, ℕ, ◌+◌, ◌<◌, ◌≡◌, refl, sym, ap, ◌∙◌, inl, inr, false, Option, eqb_iff, none, some,
  eqb, Bytes, bytes_eq, [], Bool-cases, text, nat_eq,
}
use native.Mathlib.Nat.{mod-eq_of_lt}
use ts1p.Errors.{Result, ok, err}
use ts1p.Backend.{Record, Context, with_force_refresh, Backend, IsLawful, Unchanged}
use ts1p.Store.{
  put_value, put_loaded, create_version, create_loaded, activate, activate_loaded, delete_version,
  delete_loaded, delete_secret, holds_latest, next_version,
}
use ts1p.Store.Guards.{cut_prefix-none, config_prefix}
use ts1p.Store.Model.{
  Secret, is_live, is_unused, put_answer, put_next, create_answer, create_next, activate_answer,
  activate_next, delete_version_answer, delete_version_next,
}
use ts1p.Store.Abstraction.{
  abs, abs?, latest-abs, active-abs, abs-set_active, abs-fresh, abs-add_version, abs-add_latest,
  abs-drop_version, is_claimed-abs, has_key-abs, holds_latest-abs,
}
use ts1p.Store.Access.{Loaded, loaded}
use ts1p.Store.Refinement.{
  Outcome, done, failed, by_load, by_delete, torn, Moves, Moves-stay, Moves-write, save_as-Outcome,
  save-Outcome,
}

module _ {S : Type 0} (b : Backend S) (law : IsLawful b) (ctx : Context) (n : Bytes) (s : S) where
  open law use {Inv, view}

  abbrev s1 : S
  s1 = (b.load (with_force_refresh ctx) n s).1

  same_view : Unchanged (view s) (view s1)
  same_view = law.load_view (with_force_refresh ctx) n s

  reactivate : (v : ℕ) (r : Record) → r.active ≡ v → abs r ≡ record (abs r) { active = v }
  unfolding abs
  reactivate v r e = ap (λ a. record (abs r) { active = a }) e

  inv1 : Inv s → Inv s1
  inv1 inv = law.load_inv (with_force_refresh ctx) n s inv

  stay : (next : Option Secret) → abs? (view s n) ≡ next → Moves n next (view s) (view s1)
  stay next = Moves-stay b law n s s1 next same_view

  next_version-abs :
      (modulus : ℕ) (r : Record)
      → r.latest + 1 < modulus
      → next_version modulus r.latest ≡ (abs r).latest + 1
  next_version-abs modulus r room = mod-eq_of_lt room ∙ ap (λ v. v + 1) (sym (latest-abs r))

  put_present :
      (modulus : ℕ) (value : Bytes) (r : Record)
      → view s n ≡ some r
      → r.latest + 1 < modulus
      → Inv s
      → Outcome b law n s
          (put_answer (some (abs r)) value)
          (put_next (some (abs r)) value)
          (put_loaded b modulus ctx n value (ok r) s1)
  unfolding put_loaded put_answer put_next
  put_present modulus value r p room inv = elim (Bool-cases (holds_latest r value)) [
    | inl same ↦
        rw (same, sym (holds_latest-abs r value) ∙ same)
          (done _ (ap ok (sym (latest-abs r))) (stay _ (ap abs? p)) (inv1 inv))
    | inr new ↦
        rw (new, sym (holds_latest-abs r value) ∙ new)
          (save_as-Outcome b law ctx n _ _ _ s s1 _ _ (λ t. refl)
            (ap ok (next_version-abs modulus r room)) (inv1 inv) same_view
            (ap some (abs-add_latest modulus r value room)))
  ]

  fetched : Inv s → Loaded b law (with_force_refresh ctx) n s
  unfolding with_force_refresh
  fetched inv = loaded b law (with_force_refresh ctx) n s inv (law.current_of_force _ refl)

  -- Put of a name that is neither empty nor reserved, where the version after the latest is below
  -- the modulus: the first value becomes version 1, the value that the latest version holds is
  -- answered by that version, any other becomes the next version, and the active version stays. Or
  -- an error of the backend is returned, which is no not-found of a read, and the secret is as
  -- before or as after the write. No other secret changes.
  pub put_value-Outcome :
      (modulus : ℕ) (value : Bytes)
      → Inv s
      → bytes_eq n [] ≡ false
      → has_prefix config_prefix n ≡ false
      → ((r : Record) → view s n ≡ some r → r.latest + 1 < modulus)
      → Outcome b law n s
          (put_answer (abs? (view s n)) value)
          (put_next (abs? (view s n)) value)
          (put_value b modulus ctx n value s)
  unfolding put_value put_loaded put_answer put_next
  put_value-Outcome modulus value inv named free room =
      rw (named, free)
        (elim (fetched inv) [
          | inl (r, q, p) ↦ rw (q, p) (put_present modulus value r p (room r p) inv)
          | inr (inl (q, p)) ↦
              rw (q, p)
                (save_as-Outcome b law ctx n _ _ _ s s1 _ _ (λ t. refl) refl (inv1 inv) same_view
                  (ap some (abs-fresh n 1 value)))
          | inr (inr (e, q, a, m, l)) ↦
              rw (q, a) (failed _ e refl (by_load _ n s l m a) same_view (inv1 inv))
        ])

  create_present :
      (v : ℕ) (value : Bytes) (r : Record)
      → view s n ≡ some r
      → Inv s
      → Outcome b law n s
          (create_answer (some (abs r)) v)
          (create_next (some (abs r)) v value)
          (create_loaded b ctx n v value (ok r) s1)
  unfolding create_loaded create_answer create_next
  create_present v value r p inv = elim (Bool-cases (is_unused ((abs r).cell v))) [
    | inl free ↦
        rw (is_claimed-abs r v, free)
          (save-Outcome b law ctx n _ s s1 _ (inv1 inv) same_view
            (ap some (abs-add_version r v value)))
    | inr taken ↦ rw (is_claimed-abs r v, taken) (done _ refl (stay _ (ap abs? p)) (inv1 inv))
  ]

  -- CreateVersion of a nonempty name and a version other than 0: an unused version gets the value
  -- and becomes active, and the latest is the greater of the two; a version that is live or deleted
  -- is refused as claimed, and nothing changes. Or an error of the backend is returned, which is no
  -- not-found of a read, and the secret is as before or as after the write. No other secret
  -- changes.
  pub create_version-Outcome :
      (v : ℕ) (value : Bytes)
      → Inv s
      → bytes_eq n [] ≡ false
      → eqb v 0 ≡ false
      → Outcome b law n s
          (create_answer (abs? (view s n)) v)
          (create_next (abs? (view s n)) v value)
          (create_version b ctx n v value s)
  unfolding create_version create_loaded create_answer create_next
  create_version-Outcome v value inv named positive =
      rw (named, positive)
        (elim (fetched inv) [
          | inl (r, q, p) ↦ rw (q, p) (create_present v value r p inv)
          | inr (inl (q, p)) ↦
              rw (q, p)
                (save-Outcome b law ctx n _ s s1 _ (inv1 inv) same_view
                  (ap some (abs-fresh n v value)))
          | inr (inr (e, q, a, m, l)) ↦
              rw (q, a) (failed _ e refl (by_load _ n s l m a) same_view (inv1 inv))
        ])

  activate_present :
      (v : ℕ) (r : Record)
      → view s n ≡ some r
      → Inv s
      → Outcome b law n s
          (activate_answer (some (abs r)) v)
          (activate_next (some (abs r)) v)
          (activate_loaded b ctx n v r s1)
  unfolding activate_loaded activate_answer activate_next
  activate_present v r p inv = elim (Bool-cases (is_live ((abs r).cell v))) [
    | inr dead ↦ rw (has_key-abs r v, dead) (done _ refl (stay _ (ap abs? p)) (inv1 inv))
    | inl alive ↦ elim (Bool-cases (eqb r.active v)) [
      | inl same ↦
          rw (has_key-abs r v, alive, same)
            (done _ refl
              (stay _ (ap abs? p ∙ ap some (reactivate v r ((eqb_iff r.active v).0 same))))
              (inv1 inv))
      | inr other ↦
          rw (has_key-abs r v, alive, other)
            (save-Outcome b law ctx n _ s s1 _ (inv1 inv) same_view (ap some (abs-set_active r v)))
    ]
  ]

  -- Activate of a name that is neither empty nor reserved and a version other than 0: a live
  -- version becomes active, and any other is not found, with nothing changed. Or an error of the
  -- backend is returned, which is no not-found of a read, and the secret is as before or as after
  -- the write. No other secret changes.
  pub activate-Outcome :
      (v : ℕ)
      → Inv s
      → bytes_eq n [] ≡ false
      → has_prefix config_prefix n ≡ false
      → eqb v 0 ≡ false
      → Outcome b law n s
          (activate_answer (abs? (view s n)) v)
          (activate_next (abs? (view s n)) v)
          (activate b ctx n v s)
  unfolding activate activate_answer activate_next
  activate-Outcome v inv named free positive =
      rw (named, free, positive)
        (elim (fetched inv) [
          | inl (r, q, p) ↦ rw (q, p) (activate_present v r p inv)
          | inr (inl (q, p)) ↦ rw (q, p) (done _ refl (stay _ (ap abs? p)) (inv1 inv))
          | inr (inr (e, q, a, m, l)) ↦
              rw q (failed _ e refl (by_load _ n s l m a) same_view (inv1 inv))
        ])

  delete_present :
      (v : ℕ) (r : Record)
      → view s n ≡ some r
      → Inv s
      → Outcome b law n s
          (delete_version_answer n (text "version") (some (abs r)) v)
          (delete_version_next (some (abs r)) v)
          (delete_loaded b ctx n v (ok r) s1)
  unfolding delete_loaded delete_version_answer delete_version_next abs
  delete_present v r p inv = elim (Bool-cases (eqb v r.active)) [
    | inl same ↦ rw (active-abs r, same) (done _ refl (stay _ (ap abs? p)) (inv1 inv))
    | inr other ↦ elim (Bool-cases (is_live ((abs r).cell v))) [
      | inr dead ↦
          rw (active-abs r, other, has_key-abs r v, dead)
            (done _ refl (stay _ (ap abs? p)) (inv1 inv))
      | inl alive ↦
          rw (active-abs r, other, has_key-abs r v, alive)
            (save-Outcome b law ctx n _ s s1 _ (inv1 inv) same_view
              (ap some (abs-drop_version r v)))
    ]
  ]

  -- DeleteVersion of a name that is not reserved and a version other than 0: the active version is
  -- refused, a version that is not live is not found, and a live one is gone for good; the first
  -- two change nothing. Or an error of the backend is returned, which is no not-found of a read,
  -- and the secret is as before or as after the write. No other secret changes.
  pub delete_version-Outcome :
      (v : ℕ)
      → Inv s
      → has_prefix config_prefix n ≡ false
      → eqb v 0 ≡ false
      → Outcome b law n s
          (delete_version_answer n (text "version") (abs? (view s n)) v)
          (delete_version_next (abs? (view s n)) v)
          (delete_version b ctx n v s)
  unfolding delete_version delete_loaded delete_version_answer delete_version_next
  delete_version-Outcome v inv free positive =
      rw (cut_prefix-none config_prefix n free, delete_version, positive)
        (elim (fetched inv) [
          | inl (r, q, p) ↦ rw (q, p) (delete_present v r p inv)
          | inr (inl (q, p)) ↦ rw (q, p) (done _ refl (stay _ (ap abs? p)) (inv1 inv))
          | inr (inr (e, q, a, m, l)) ↦
              rw (q, a) (failed _ e refl (by_load _ n s l m a) same_view (inv1 inv))
        ])

  deleted_by :
      (x : Result (Unit {0}))
      → (b.delete ctx n s).0 ≡ x
      → Inv s
      → Outcome b law n s (ok tt) none (b.delete ctx n s)
  deleted_by (ok u) e inv =
      done _ e (Moves-write b law n s s _ none none (λ k. refl) (law.delete_ok ctx n s inv e) refl)
        (law.delete_inv ctx n s inv)
  deleted_by (err f) e inv = elim (law.delete_err ctx n s f inv e) [
    | inl u ↦ failed _ f e (by_delete ctx n s e) u (law.delete_inv ctx n s inv)
    | inr w ↦
        torn _ f e (by_delete ctx n s e) (Moves-write b law n s s _ none none (λ k. refl) w refl)
          (law.delete_inv ctx n s inv)
  ]

  -- Delete of a name that is not reserved leaves no secret, whether there was one or not. Or an error
  -- of the backend is returned, and the secret is as before or gone. No other secret changes.
  pub delete_secret-Outcome :
      Inv s
      → has_prefix config_prefix n ≡ false
      → Outcome b law n s (ok tt) none (delete_secret b ctx n s)
  unfolding delete_secret
  delete_secret-Outcome inv free =
      rw (cut_prefix-none config_prefix n free, delete_secret)
        (deleted_by (b.delete ctx n s).0 refl inv)
