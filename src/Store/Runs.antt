-- ===== src/Store/Runs.antt =====
-- store/store.go over any lawful backend: what a sequence of writes keeps, whether they succeed, are
-- refused or fail in the backend.
use ts1p.Prelude.{
  has_prefix, ℕ, suc, ◌+◌, ◌<◌, ◌≡◌, refl, sym, subst, ◌≢◌, ◌⊎◌, inl, inr, true, Option, none, some,
  List, [], ◌∷◌, eqb, Bytes, bytes_eq, bytes_eq_iff, Bool-cases, arith, length, All, All-map,
}
use ts1p.Errors.{Result}
use ts1p.Backend.{Record, Context, Backend, IsLawful, Unchanged}
use ts1p.Store
use ts1p.Store.Refusals.{
  put_value_unnamed, create_version_unnamed, activate_unnamed, put_value_reserved,
  activate_reserved, delete_version_reserved, delete_secret_reserved, create_version_zero,
  activate_zero, delete_version_zero,
}
use ts1p.Store.Guards.{cut_prefix-none, cut_prefix-some, config_prefix}
use ts1p.Store.Model.{Secret, put_next, create_next, activate_next, delete_version_next}
use ts1p.Store.Abstraction.{abs, abs?, latest-abs}
use ts1p.Store.Refinement.{Outcome, done, failed, torn, Moves}
use ts1p.Store.Refinement.Writes.{
  put_value-Outcome, create_version-Outcome, activate-Outcome, delete_version-Outcome,
  delete_secret-Outcome,
}
use ts1p.Store.History.{
  Change, put, create, activate, delete_version, delete, next, Sound?, IsPositive, next-IsSound,
}
use ts1p.Store.Ageing.{Later, Later-refl, Later-trans, next-Later}

-- A call of one of the writing methods.
pub record Call : Type 0 where
  pub ctx : Context
  pub name : Bytes
  pub change : Change

-- The version that a change names to be created.
abbrev pub created : Change → ℕ
created (create v value) = v
created _ = 0

abbrev pub Room : ℕ → ℕ → Option Secret → Type 0
Room modulus k none = Unit
Room modulus k (some a) = a.latest + k < modulus

Room-less : (modulus k : ℕ) (o : Option Secret) → Room modulus (suc k) o → Room modulus k o
Room-less modulus k none h = tt
Room-less modulus k (some a) h = omega arith

next-Room :
    (modulus k : ℕ) (c : Change) (o : Option Secret)
    → created c + suc k < modulus
    → Room modulus (suc k) o
    → Room modulus k (next c o)
unfolding next put_next create_next activate_next delete_version_next
next-Room modulus k (put value) none f h = omega arith
next-Room modulus k (put value) (some a) f h = ground arith
next-Room modulus k (create v value) none f h = omega arith
next-Room modulus k (create v value) (some a) f h = ground arith
next-Room modulus k (activate v) none f h = tt
next-Room modulus k (activate v) (some a) f h = ground arith
next-Room modulus k (delete_version v) none f h = tt
next-Room modulus k (delete_version v) (some a) f h = ground arith
next-Room modulus k delete o f h = tt

module _ {S : Type 0} (b : Backend S) (modulus : ℕ) where
  -- The state after the method that makes the change.
  unfoldable pub perform : Context → Bytes → Change → S → S
  perform ctx n (put value) s = (Store.put_value b modulus ctx n value s).1
  perform ctx n (create v value) s = (Store.create_version b ctx n v value s).1
  perform ctx n (activate v) s = (Store.activate b ctx n v s).1
  perform ctx n (delete_version v) s = (Store.delete_version b ctx n v s).1
  perform ctx n delete s = (Store.delete_secret b ctx n s).1

  unfoldable pub run : List Call → S → S
  run [] s = s
  run (c ∷ cs) s = run cs (perform c.ctx c.name c.change s)

  module _ (law : IsLawful b) where
    open law use {Inv, view}

    -- What a call does to the storage: nothing, or the change of the model on its secret.
    abbrev pub Effect : Bytes → Change → S → S → Type 0
    Effect n c s s' =
        Inv s'
        × (Unchanged (view s) (view s')
            ⊎ IsPositive c × Moves n (next c (abs? (view s n))) (view s) (view s'))

    of_Outcome :
        {A : Type 0} (n : Bytes) (c : Change) (s : S) (answer : Result A) (x : Result A × S)
        → IsPositive c
        → Outcome b law n s answer (next c (abs? (view s n))) x
        → Effect n c s x.1
    of_Outcome n c s answer x p (done y e m i) = (i, inr (p, m))
    of_Outcome n c s answer x p (failed y e q l u i) = (i, inl u)
    of_Outcome n c s answer x p (torn y e q l m i) = (i, inr (p, m))

    nothing : (n : Bytes) (c : Change) (s : S) → Inv s → Effect n c s s
    nothing n c s i = (i, inl (λ k. refl))

    -- `perform` on every input, the refused ones included. `Put` needs a version that is left.
    pub perform-Effect :
        (ctx : Context) (n : Bytes) (c : Change) (s : S)
        → Inv s
        → ((r : Record) → view s n ≡ some r → r.latest + 1 < modulus)
        → Effect n c s (perform ctx n c s)
    unfolding perform next
    perform-Effect ctx n (put value) s i room = elim (Bool-cases (bytes_eq n [])) [
      | inl e ↦ rw (perform, put_value_unnamed b ctx n s e) (nothing n (put value) s i)
      | inr named ↦ elim (Bool-cases (has_prefix config_prefix n)) [
        | inl e ↦ rw (perform, put_value_reserved b ctx n s named e) (nothing n (put value) s i)
        | inr free ↦
            of_Outcome n (put value) s _ _ tt
              (put_value-Outcome b law ctx n s modulus value i named free room)
      ]
    ]
    perform-Effect ctx n (create v value) s i room = elim (Bool-cases (bytes_eq n [])) [
      | inl e ↦ rw (perform, create_version_unnamed b ctx n s e) (nothing n (create v value) s i)
      | inr named ↦ elim (Bool-cases (eqb v 0)) [
        | inl e ↦
            rw (perform, create_version_zero b ctx n s named v e) (nothing n (create v value) s i)
        | inr p ↦
            of_Outcome n (create v value) s _ _ (ground arith)
              (create_version-Outcome b law ctx n s v value i named p)
      ]
    ]
    perform-Effect ctx n (activate v) s i room = elim (Bool-cases (bytes_eq n [])) [
      | inl e ↦ rw (perform, activate_unnamed b ctx n s e) (nothing n (activate v) s i)
      | inr named ↦ elim (Bool-cases (has_prefix config_prefix n)) [
        | inl e ↦ rw (perform, activate_reserved b ctx n s named e) (nothing n (activate v) s i)
        | inr free ↦ elim (Bool-cases (eqb v 0)) [
          | inl e ↦
              rw (perform, activate_zero b ctx n s named v e free) (nothing n (activate v) s i)
          | inr p ↦
              of_Outcome n (activate v) s _ _ tt (activate-Outcome b law ctx n s v i named free p)
        ]
      ]
    ]
    perform-Effect ctx n (delete_version v) s i room =
        elim (Bool-cases (has_prefix config_prefix n)) [
          | inl e ↦
              let (cfg, cut, _) = cut_prefix-some config_prefix n e in
              rw (perform, delete_version_reserved b ctx n s cfg cut)
                (nothing n (delete_version v) s i)
          | inr free ↦ elim (Bool-cases (eqb v 0)) [
            | inl e ↦
                rw
                  (
                    perform,
                    delete_version_zero b ctx n s v e (cut_prefix-none config_prefix n free),
                  )
                  (nothing n (delete_version v) s i)
            | inr p ↦
                of_Outcome n (delete_version v) s _ _ tt
                  (delete_version-Outcome b law ctx n s v i free p)
          ]
        ]
    perform-Effect ctx n delete s i room = elim (Bool-cases (has_prefix config_prefix n)) [
      | inl e ↦
          let (cfg, cut, _) = cut_prefix-some config_prefix n e in
          rw (perform, delete_secret_reserved b ctx n s cfg cut) (nothing n delete s i)
      | inr free ↦ of_Outcome n delete s _ _ tt (delete_secret-Outcome b law ctx n s i free)
    ]

    -- Every stored secret is sound.
    pub record AllSound (s : S) : Type 0 where
      pub at : (k : Bytes) → Sound? (abs? (view s k))

    -- Every stored secret has room for `k` more versions, and so has the version that a call creates.
    abbrev pub HasRoom : ℕ → S → Type 0
    HasRoom k s = (n : Bytes) → Room modulus k (abs? (view s n))

    abbrev pub Fits : ℕ → Call → Type 0
    Fits k c = created c.change + k < modulus

    Moves-all :
        (P : Option Secret → Type 0) (n : Bytes) (o : Option Secret) (s s' : S)
        → Moves n o (view s) (view s')
        → P o
        → ((k : Bytes) → P (abs? (view s k)))
        → (k : Bytes) → P (abs? (view s' k))
    Moves-all P n o s s' m p all k = elim (Bool-cases (bytes_eq n k)) [
      | inl e ↦ subst (λ j. P (abs? (view s' j))) ((bytes_eq_iff n k).0 e) (subst P (sym m.at) p)
      | inr e ↦ subst (λ w. P (abs? w)) (sym (m.elsewhere k e)) (all k)
    ]

    -- A fact of all secrets that the change keeps is kept by the call.
    Effect-all :
        (P Q : Option Secret → Type 0) (n : Bytes) (c : Change) (s s' : S)
        → Effect n c s s'
        → ((o : Option Secret) → P o → Q o)
        → ((o : Option Secret) → IsPositive c → P o → Q (next c o))
        → ((k : Bytes) → P (abs? (view s k)))
        → (k : Bytes) → Q (abs? (view s' k))
    Effect-all P Q n c s s' (i, inl u) weaken step all k =
        subst (λ w. Q (abs? w)) (sym (u k)) (weaken _ (all k))
    Effect-all P Q n c s s' (i, inr (pos, m)) weaken step all k =
        Moves-all Q n _ s s' m (step _ pos (all n)) (λ j. weaken _ (all j)) k

    room_left :
        (k : ℕ) (s : S) (n : Bytes) (r : Record)
        → HasRoom (suc k) s
        → view s n ≡ some r
        → r.latest + 1 < modulus
    room_left k s n r room p =
        let h : (abs r).latest + suc k < modulus =
          subst (λ o. Room modulus (suc k) (abs? o)) p (room n) in
        omega (arith, latest-abs r)

    module _ (c : Call) (s : S) (k : ℕ) (i : Inv s) (room : HasRoom (suc k) s) where
      abbrev after : S
      after = perform c.ctx c.name c.change s

      effect : Effect c.name c.change s after
      effect = perform-Effect c.ctx c.name c.change s i (λ r p. room_left k s c.name r room p)

      perform-AllSound : AllSound s → AllSound after
      perform-AllSound sound = record {
        at =
            Effect-all Sound? Sound? c.name c.change s after effect (λ o h. h)
              (λ o p h. next-IsSound c.change o p h) sound.at;
      }

      perform-HasRoom : Fits (suc k) c → HasRoom k after
      perform-HasRoom fits =
          Effect-all (Room modulus (suc k)) (Room modulus k) c.name c.change s after effect
            (λ o h. Room-less modulus k o h) (λ o p h. next-Room modulus k c.change o fits h) room

    -- From a storage of sound secrets, after any writing calls, refused, successful or failing in the
    -- backend, every stored secret is sound: its active version is live, and every version that was
    -- assigned lies between 1 and the latest, which was assigned. The versions must suffice: neither a
    -- stored latest version nor a created one comes within the number of calls of the modulus.
    pub run-AllSound :
        (cs : List Call) (s : S)
        → Inv s
        → AllSound s
        → HasRoom (length cs) s
        → All (Fits (length cs)) cs
        → AllSound (run cs s)
    unfolding run
    run-AllSound [] s i sound room fits = sound
    run-AllSound (c ∷ cs) s i sound room fits =
        run-AllSound cs (perform c.ctx c.name c.change s) (effect c s (length cs) i room).0
          (perform-AllSound c s (length cs) i room sound)
          (perform-HasRoom c s (length cs) i room fits.0) (All-map (λ d h. omega arith) cs fits.1)

    module _ (n : Bytes) where
      -- The call is not the deletion of the whole secret `n`.
      abbrev pub Spares : Call → Type 0
      Spares c = bytes_eq c.name n ≡ true → c.change ≢ delete

      Later-of_eq : (s s' : S) → view s' n ≡ view s n → Later (abs? (view s n)) (abs? (view s' n))
      Later-of_eq s s' e =
          subst (λ w. Later (abs? (view s n)) (abs? w)) (sym e) (Later-refl (abs? (view s n)))

      Effect-Later :
          (c : Call) (s s' : S)
          → Effect c.name c.change s s'
          → Spares c
          → AllSound s
          → Later (abs? (view s n)) (abs? (view s' n))
      Effect-Later c s s' (i, inl u) spares sound = Later-of_eq s s' (u n)
      Effect-Later c s s' (i, inr (p, m)) spares sound = elim (Bool-cases (bytes_eq c.name n)) [
        | inr other ↦ Later-of_eq s s' (m.elsewhere n other)
        | inl same ↦
            subst (λ j. Later (abs? (view s j)) (abs? (view s' j))) ((bytes_eq_iff c.name n).0 same)
              (subst (Later (abs? (view s c.name))) (sym m.at)
                (next-Later c.change (abs? (view s c.name)) (spares same) (sound.at c.name)))
      ]

      -- Over any writing calls that do not delete the whole secret `n`, from a storage of sound secrets
      -- where the versions suffice: a live version keeps its value or is deleted, a deleted version
      -- stays deleted, and the latest version does not fall.
      pub run-Later :
          (cs : List Call) (s : S)
          → Inv s
          → AllSound s
          → HasRoom (length cs) s
          → All (Fits (length cs)) cs
          → All Spares cs
          → Later (abs? (view s n)) (abs? (view (run cs s) n))
      unfolding run
      run-Later [] s i sound room fits spares = Later-refl (abs? (view s n))
      run-Later (c ∷ cs) s i sound room fits spares =
          let k = length cs in
          let s' = perform c.ctx c.name c.change s in
          Later-trans (abs? (view s n)) (abs? (view s' n)) (abs? (view (run cs s') n))
            (Effect-Later c s s' (effect c s k i room) spares.0 sound)
            (run-Later cs s' (effect c s k i room).0 (perform-AllSound c s k i room sound)
              (perform-HasRoom c s k i room fits.0) (All-map (λ d h. omega arith) cs fits.1)
              spares.1)
