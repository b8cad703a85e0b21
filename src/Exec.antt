-- ===== src/Exec.antt =====
-- Methods on shared state that may fail. What was written before an error stays written, so the
-- state comes back beside the error too.
use ts1p.Prelude.{◌≡◌, refl}
use ts1p.Errors.{Error, Result, ok, err, Sentinel, sentinel}

abbrev pub Exec {ℓ} : Type ℓ → Type ℓ → Type ℓ
Exec S A = S → Result A × S

module _ {ℓ} {S A : Type ℓ} where
  abbrev pub pure : A → Exec S A
  pure a s = (ok a, s)

  abbrev pub raise : Error → Exec S A
  raise e s = (err e, s)

  abbrev pub throw : Sentinel → Exec S A
  throw t s = (err (sentinel t), s)

  -- a result that needs no state
  abbrev pub lift : Result A → Exec S A
  lift r s = (r, s)

module _ {ℓ} {S A B : Type ℓ} where
  abbrev pub continue : (A → Exec S B) → Result A × S → Result B × S
  continue f (ok a, s) = f a s
  continue f (err e, s) = (err e, s)

  infixl 5 ◌>>=◌ ◌>>◌
  -- `x, err := m(); if err != nil { return err }; …`
  abbrev pub ◌>>=◌ : Exec S A → (A → Exec S B) → Exec S B
  ◌>>=◌ m f s = continue f (m s)

  abbrev pub ◌>>◌ : Exec S A → Exec S B → Exec S B
  m >> n = m >>= λ _. n

  abbrev pub handle : (Result A → Exec S B) → Result A × S → Result B × S
  handle f (r, s) = f r s

  -- a call whose error the code looks at
  abbrev pub attempt : Exec S A → (Result A → Exec S B) → Exec S B
  attempt m f s = handle f (m s)

module _ {ℓ} {S A : Type ℓ} where
  continue-pure : (x : Result A × S) → continue (pure {S = S}) x ≡ x
  continue-pure (ok a, s) = refl
  continue-pure (err e, s) = refl

  pub bind-pure : (m : Exec S A) (s : S) → (m >>= pure) s ≡ m s
  bind-pure m s = continue-pure (m s)
