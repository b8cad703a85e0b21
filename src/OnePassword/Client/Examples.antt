-- ===== src/OnePassword/Client/Examples.antt =====
-- backend/onepassword/onepassword.go: calls of an SDK that always answers, over a backoff that waits for nothing.
use ts1p.Prelude.{
  has_infix, has_prefix, eqb, ◌⊎◌, ℕ, zero, suc, ◌+◌, ◌≤◌, ◌≡◌, refl, inl, inr, true, false, none,
  [], ◌∷◌, if◌then◌else◌, text,
}
use ts1p.Errors.{Sentinel, sentinel, Result, ok, err, opaque}
use ts1p.Exec.{Exec}
use ts1p.Backend.{Context}
use ts1p.OnePassword.{Items}
use ts1p.OnePassword.Fields.{Text}
use ts1p.OnePassword.Spending.{Bounded, backend-Bounded}
use ts1p.OnePassword.Faults.{is_client_fault}
use ts1p.OnePassword.Client.{
  Client, Environment, in_time, Attempt, done, permanent, transient, Backoff, call,
  recycle_if_stale, attempts, after_run, run_op, attempt_op, attempted, race_ctx, faulted,
  record_fault, wedged,
}
use ts1p.OnePassword.Client.Retry.{IsBackoff, Retried, call-calls}

module _ {V : Type 0} (A : Type 0) (op : Client V → Attempt A × Client V) where
  -- What an attempt comes to, where `next` are the tries that are left.
  ended : ℕ → (Client V → Result A × Client V) → Attempt A × Client V → Result A × Client V
  ended n next (done v, s) = (ok v, s)
  ended n next (permanent e, s) = (err e, s)
  ended zero next (transient e, s) = (err e, s)
  ended (suc n) next (transient e, s) = next s

  tries : ℕ → Client V → Result A × Client V
  tries zero s = (err (opaque []), s)
  tries (suc n) s = ended n (tries n) (op s)

  abbrev Comes : ℕ → Attempt A × Client V → Result A × Client V → Type 0
  Comes n y x = elim y.0 as (λ z. Type 0) [
    | done v ↦ x ≡ (ok v, y.1)
    | permanent e ↦ x ≡ (err e, y.1)
    | transient e ↦
        (x ≡ (err e, y.1))
        ⊎ (x ≡ (err (sentinel Sentinel.deadline_exceeded), y.1))
        ⊎ Retried op n y.1 x
  ]

  first-Comes : (y : Attempt A × Client V) → Comes 0 y (ended 0 (tries 0) y)
  unfolding ended
  first-Comes (done v, s) = refl
  first-Comes (permanent e, s) = refl
  first-Comes (transient e, s) = inl refl

  next-Comes :
      (n : ℕ)
      → ((s : Client V) → Retried op (suc n) s (tries (suc n) s))
      → (y : Attempt A × Client V) → Comes (suc n) y (ended (suc n) (tries (suc n)) y)
  unfolding ended
  next-Comes n h (done v, s) = refl
  next-Comes n h (permanent e, s) = refl
  next-Comes n h (transient e, s) = inr (inr (h s))

  tries-Retried : (n : ℕ) (s : Client V) → Retried op (suc n) s (tries (suc n) s)
  unfolding tries
  tries-Retried zero s = first-Comes (op s)
  tries-Retried (suc n) s = next-Comes n (tries-Retried n) (op s)

abbrev at_once : Backoff ℕ
at_once = record { retry = λ A n op s. tries A op n s }

at_once-IsBackoff : IsBackoff at_once
at_once-IsBackoff = record { retried = λ A n op s. tries-Retried A op n s }

-- The vault is a number, which requests count up; the third request finds the core wedged.
abbrev calm : Environment
calm = record {
  clock = λ k. k;
  race = λ k. in_time;
  leaves = λ ctx k. false;
  spell = record { message = λ e. elim e [ opaque m ↦ m | _ ↦ [] ]; to_lower = λ s. s };
  recycle_at = none;
}

abbrev count : Exec ℕ ℕ
count v = if eqb v 2 then (err (opaque (text "wasm error: unreachable")), v) else (ok v, v + 1)

abbrev new : ℕ → Client ℕ
new v = record {
  vault = v;
  calls = 0;
  looks = 0;
  reads = 0;
  oob = 0;
  ctx_canceled = 0;
  core_timeout = 0;
  consec_timeouts = 0;
  rate_limited = 0;
  auth_failed = 0;
  last_fault = none;
  exits = [];
}

abbrev plain : Context
plain = record { force = false; gone = false }

-- The fault outlives its retry, and the process exits.
wedged_run : (call calm at_once (text "listing items") true plain count (new 2)).1.exits ≡ 1 ∷ []
unfolding call attempts after_run run_op tries ended attempt_op attempted race_ctx recycle_if_stale
    is_client_fault has_infix has_prefix faulted record_fault wedged
wedged_run = refl

call-calls_example :
    (call calm at_once (text "listing items") true plain count (new 2)).1.calls
    ≤ (new 2).calls + (if true then 8 else 1)
call-calls_example =
    call-calls calm at_once at_once-IsBackoff (text "listing items") plain count (new 2) true

-- A vault that holds nothing, and counts its requests.
abbrev nothing : Items ℕ
nothing = record {
  list_items = λ ctx v. (ok [], v + 1);
  get_item = λ ctx id v. (err (opaque (text "gone")), v + 1);
  put_item = λ ctx item v. (ok tt, v + 1);
  create_item = λ ctx name fields v. (ok (text "i1"), v + 1);
  delete_item = λ ctx id v. (ok tt, v + 1);
}

abbrev codec : Text
codec = record {
  marshal = λ m. ok (text "{}");
  unmarshal = λ s. err (opaque []);
  valid = λ s. true;
}

backend-Bounded_example : Bounded calm at_once at_once-IsBackoff nothing codec
backend-Bounded_example = backend-Bounded calm at_once at_once-IsBackoff nothing codec
