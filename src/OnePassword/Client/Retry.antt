-- ===== src/OnePassword/Client/Retry.antt =====
-- backend/onepassword/onepassword.go: what backoff's documentation promises of Retry, and how often a
-- call asks the SDK.
use ts1p.Prelude.{
  ℕ, zero, suc, ◌+◌, ◌*◌, ◌≤◌, ◌≡◌, refl, sym, ap, subst, inl, inr, ◌⊎◌, Bool, true, false,
  Bool-cases, Option, none, some, if◌then◌else◌, Bytes, arith,
}
use ts1p.Errors.{Error, Sentinel, sentinel, Result, ok, err}
use ts1p.Exec.{Exec}
use ts1p.Backend.{Context}
use ts1p.OnePassword.Faults.{is_client_fault}
use ts1p.OnePassword.Client.{
  Client, Environment, Attempt, done, permanent, transient, Backoff, max_tries, recycle_if_stale,
  recycle_at_time, record_fault, race_ctx, attempt_op, run_op, canceled, settled, finish, faulted,
  wedged, after_run, attempts, call, count_timeout, count_refusals,
}

module _ {V A : Type 0} (op : Client V → Attempt A × Client V) where
  -- What at most `n` tries may come to: a success or a permanent error ends them; after another error
  -- the result is that error, that of the context whose deadline passed, or that of a next try.
  abbrev pub Retried : ℕ → Client V → Result A × Client V → Type 0
  Retried zero s x = ⊥
  Retried (suc n) s x = elim (op s).0 as (λ y. Type 0) [
    | done v ↦ x ≡ (ok v, (op s).1)
    | permanent e ↦ x ≡ (err e, (op s).1)
    | transient e ↦
        (x ≡ (err e, (op s).1))
        ⊎ (x ≡ (err (sentinel Sentinel.deadline_exceeded), (op s).1))
        ⊎ Retried n (op s).1 x
  ]

  -- A relation between states that every try keeps, and a count that it moves, are kept by all tries.
  module _ (R : ℕ → Client V → Client V → Type 0) (one : (s : Client V) → R 1 s (op s).1)
      (more : (n : ℕ) (s t u : Client V) → R 1 s t → R n t u → R (suc n) s u)
      (weaken : (n : ℕ) (s t : Client V) → R 1 s t → R (suc n) s t) where
    pub Retried-keeps : (n : ℕ) (s : Client V) (x : Result A × Client V) → Retried n s x → R n s x.1
    Retried-keeps zero s x h = elim h [ ]
    Retried-keeps (suc n) s x h = from (λ g. Retried-keeps n (op s).1 x g) (op s).0 h
      where
        ended : {r : Result A} → x ≡ (r, (op s).1) → R (suc n) s x.1
        ended e =
            subst (R (suc n) s) (sym (ap (λ (y : Result A × Client V). y.1) e))
              (weaken n s (op s).1 (one s))

        from :
            (Retried n (op s).1 x → R n (op s).1 x.1)
            → (y : Attempt A)
            → elim y as (λ z. Type 0) [
              | done v ↦ x ≡ (ok v, (op s).1)
              | permanent e ↦ x ≡ (err e, (op s).1)
              | transient e ↦
                  (x ≡ (err e, (op s).1))
                  ⊎ (x ≡ (err (sentinel Sentinel.deadline_exceeded), (op s).1))
                  ⊎ Retried n (op s).1 x
            ]
            → R (suc n) s x.1
        from rest (done v) h = ended h
        from rest (permanent e) h = ended h
        from rest (transient e) (inl h) = ended h
        from rest (transient e) (inr (inl h)) = ended h
        from rest (transient e) (inr (inr h)) = more n s (op s).1 x.1 (one s) (rest h)

-- backoff.Retry as documented, with a bound on the tries that is not 0.
pub record IsBackoff {V : Type 0} (backoff : Backoff V) : Type 1 where
  pub retried :
      (A : Type 0) (n : ℕ) (op : Client V → Attempt A × Client V) (s : Client V)
      → Retried op (suc n) s (backoff.retry A (suc n) op s)

module _ {V : Type 0} (env : Environment) (backoff : Backoff V) (law : IsBackoff backoff) where
  -- At most so many requests lie between two states.
  abbrev Within : ℕ → Client V → Client V → Type 0
  Within n s t = t.calls ≤ s.calls + n

  module _ {A : Type 0} (fn : Exec V A) where
    race_ctx-calls : (b : Client V) → (race_ctx env backoff fn b).1.calls ≡ b.calls + 1
    unfolding race_ctx
    race_ctx-calls b = refl

    attempt_op-calls : (b : Client V) → (attempt_op env backoff fn b).1.calls ≡ b.calls + 1
    unfolding attempt_op
    attempt_op-calls b = race_ctx-calls b

    run_op-retried : (b : Client V) → Within max_tries b (run_op env backoff true fn b).1
    unfolding run_op
    run_op-retried b =
        Retried-keeps (attempt_op env backoff fn) Within (λ s. omega (arith, attempt_op-calls s))
          (λ n s t u p q. omega arith) (λ n s t p. omega arith) max_tries b _
          (law.retried A 3 (attempt_op env backoff fn) b)

    run_op-once : (b : Client V) → Within 1 b (run_op env backoff false fn b).1
    unfolding run_op
    run_op-once b = omega (arith, race_ctx-calls b)

    module _ (label : Bytes) (retryable : Bool) (ctx : Context) (start k : ℕ)
        (each : (b : Client V) → Within k b (run_op env backoff retryable fn b).1) where
      finish-calls :
          (x : Result A × Client V) → (finish env backoff label ctx x).1.calls ≡ x.1.calls
      unfolding finish canceled settled count_timeout count_refusals
      finish-calls (ok v, b) = ground arith
      finish-calls (err e, b) = ground arith

      faulted-calls :
          (next : Client V → Result A × Client V) (e : Error) (b : Client V) (n : ℕ)
          → ((c : Client V) → Within n c (next c).1)
          → Within n b (faulted env backoff next label ctx start e b).1
      unfolding faulted canceled record_fault
      faulted-calls next e b n h = elim (Bool-cases (env.leaves ctx (b.looks + 1))) [
        | inl g ↦ rw g (omega arith)
        | inr g ↦ rw g (h _)
      ]

      after_run-calls :
          (next : Error → Client V → Result A × Client V) (n : ℕ)
          → ((e : Error) (c : Client V) → Within n c (next e c).1)
          → (x : Result A × Client V)
          → Within n x.1 (after_run env backoff next label ctx start x).1
      unfolding after_run
      after_run-calls next n h (ok v, b) = omega (arith, finish-calls (ok v, b))
      after_run-calls next n h (err e, b) = elim (Bool-cases (is_client_fault env.spell e)) [
        | inl f ↦ rw f (faulted-calls (next e) e b n (h e))
        | inr f ↦ rw f (omega (arith, finish-calls (err e, b)))
      ]

      wedged-calls :
          (e : Error) (c : Client V) → Within 0 c (wedged env backoff {A = A} label e c).1
      unfolding wedged
      wedged-calls e c = omega arith

      one_more : (left : ℕ) → (suc left + 1) * k ≡ k + (left + 1) * k
      one_more left = grind arith

      attempts-calls :
          (left : ℕ) (b : Client V)
          → Within ((left + 1) * k) b (attempts env backoff left label retryable ctx start fn b).1
      unfolding attempts
      attempts-calls zero b =
          let p = each b in
          let q =
            after_run-calls (wedged env backoff label) 0 wedged-calls
              (run_op env backoff retryable fn b) in
          grind arith
      attempts-calls (suc left) b =
          let p = each b in
          let q =
            after_run-calls (λ e. attempts env backoff left label retryable ctx start fn)
              ((left + 1) * k) (λ e c. attempts-calls left c) (run_op env backoff retryable fn b) in
          omega (arith, one_more left)

  recycle_at_time-calls :
      (o : Option ℕ) (b : Client V) → (recycle_at_time env backoff o b).calls ≡ b.calls
  unfolding recycle_at_time
  recycle_at_time-calls none b = refl
  recycle_at_time-calls (some at) b = ground arith

  module _ {A : Type 0} (label : Bytes) (ctx : Context) (fn : Exec V A) (b : Client V) where
    looked-calls :
        (gone : Bool) (c : Client V) (x : Result A × Client V) (n : ℕ)
        → c.calls ≡ b.calls
        → x.1.calls ≤ c.calls + n
        → (if gone then canceled env backoff c else x).1.calls ≤ b.calls + n
    unfolding canceled
    looked-calls true c x n e h = omega arith
    looked-calls false c x n e h = omega arith

    -- A call asks the SDK once if its operation must not be run again, and eight times at most if it
    -- may.
    pub call-calls :
        (retryable : Bool)
        → (call env backoff label retryable ctx fn b).1.calls
          ≤ b.calls + (if retryable then 8 else 1)
    unfolding call recycle_if_stale
    call-calls true =
        looked-calls _ _ _ 8 (recycle_at_time-calls env.recycle_at _)
          (attempts-calls fn label true ctx _ max_tries (run_op-retried fn) 1 _)
    call-calls false =
        looked-calls _ _ _ 1 (recycle_at_time-calls env.recycle_at _)
          (attempts-calls fn label false ctx _ 1 (run_op-once fn) 0 _)
