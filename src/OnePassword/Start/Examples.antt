-- ===== src/OnePassword/Start/Examples.antt =====
-- backend/onepassword/onepassword.go: a start at which 1Password is unreachable once, with a backoff that
-- gives up after three tries and waits for nothing.
use ts1p.Prelude.{
  ℕ, zero, suc, ◌+◌, ◌≡◌, refl, sym, subst, [], ◌∷◌, if◌then◌else◌, eqb, Bytes, text,
}
use ts1p.Errors.{opaque, Result, ok, err}
use ts1p.OnePassword.Faults.{Spelling}
use ts1p.OnePassword.Client.{Attempt, done, permanent, transient}
use ts1p.OnePassword.Start.{Sdk, Patience, Birth, new}
use ts1p.OnePassword.Start.Trying.{Ends, IsPatience}
use ts1p.OnePassword.Start.Opening.{Opened, new-Opened}

module _ {T : Type 0} (A : Type 0) (op : T → Attempt A × T) where
  follow : (T → Result A × T) → Attempt A × T → Result A × T
  follow next (done v, s) = (ok v, s)
  follow next (permanent e, s) = (err e, s)
  follow next (transient e, s) = next s

  given_up : Attempt A × T → Result A × T
  given_up (done v, s) = (ok v, s)
  given_up (permanent e, s) = (err e, s)
  given_up (transient e, s) = (err e, s)

  tries : ℕ → T → Result A × T
  unfolding follow given_up
  tries zero s = given_up (op s)
  tries (suc n) s = follow (tries n) (op s)

  given_up-Ends : (s : T) (y : Attempt A × T) → op s ≡ y → Ends op s (given_up y)
  unfolding given_up
  given_up-Ends s (done v, t) e =
      subst (λ (y : Attempt A × T). Ends op s (ok v, y.1)) e (Ends.success s v (cc))
  given_up-Ends s (permanent g, t) e =
      subst (λ (y : Attempt A × T). Ends op s (err g, y.1)) e (Ends.refusal s g (cc))
  given_up-Ends s (transient g, t) e =
      subst (λ (y : Attempt A × T). Ends op s (err g, y.1)) e (Ends.late s g (cc))

  follow-Ends :
      (next : T → Result A × T) (s : T) (y : Attempt A × T)
      → ((t : T) → Ends op t (next t))
      → op s ≡ y
      → Ends op s (follow next y)
  unfolding follow
  follow-Ends next s (done v, t) h e =
      subst (λ (y : Attempt A × T). Ends op s (ok v, y.1)) e (Ends.success s v (cc))
  follow-Ends next s (permanent g, t) h e =
      subst (λ (y : Attempt A × T). Ends op s (err g, y.1)) e (Ends.refusal s g (cc))
  follow-Ends next s (transient g, t) h e =
      Ends.next s g (next t) (cc)
        (subst (λ (y : Attempt A × T). Ends op y.1 (next t)) (sym e) (h t))

  tries-Ends : (n : ℕ) (s : T) → Ends op s (tries n s)
  unfolding tries
  tries-Ends zero s = given_up-Ends s (op s) refl
  tries-Ends (suc n) s = follow-Ends (tries n) s (op s) (tries-Ends n) refl

abbrev thrice : {T : Type 0} → Patience T
thrice = record { retry = λ A op s. tries A op 2 s }

thrice-IsPatience : {T : Type 0} → IsPatience {T = T} thrice
thrice-IsPatience = record { ends = λ A op s. tries-Ends A op 2 s }

-- The state counts the requests for a client.
abbrev sdk : Sdk ℕ Bytes
sdk = record {
  new_client = λ token n.
      if eqb n 0 then (err (opaque (text "no route to host")), n + 1) else (ok token, n + 1);
  vaults = λ client n. (ok (record { title = text "secrets"; id = text "v1" } ∷ []), n);
  list_items = λ client id n. (ok [], n);
}

abbrev spell : Spelling
spell = record { message = λ e. elim e [ opaque m ↦ m | _ ↦ [] ]; to_lower = λ s. s }

abbrev birth : Birth
birth = record { now = 1000; draw = 7 }

new-Opened_example :
    Opened sdk
      (text "token")
      (text "secrets")
      spell
      100
      birth
      0
      (new sdk (text "token") (text "secrets") spell thrice 100 birth 0)
new-Opened_example =
    new-Opened sdk (text "token") (text "secrets") spell thrice 100 birth 0 thrice-IsPatience
