-- ===== src/OnePassword/Client.antt =====
-- backend/onepassword/onepassword.go: `call`, through which every request to the SDK goes. The SDK, the
-- backoff library, the clock, and what the environment decides (which requests outlive the deadline,
-- when the caller leaves) are arguments. os.Exit is a function that tests replace: here it notes its
-- code, and the call goes on.
pub mod Retry
pub mod Outcomes
mod Examples
use ts1p.Prelude.{
  ℕ, zero, suc, ◌+◌, ◌-◌, ◌/◌, Bool, true, false, not, ◌&&◌, ◌||◌, Option, none, some, List, [],
  ◌∷◌, if◌then◌else◌, ltb, leb, Bytes,
}
use ts1p.Errors.{Error, Sentinel, sentinel, is, Result, ok, err}
use ts1p.Exec.{Exec}
use ts1p.Backend.{Context}
use ts1p.OnePassword.Faults.{
  FaultClass, out_of_bounds, invalid_client_id, wasm, Spelling, is_rate_limited, is_auth_error,
  is_client_fault, fault_class, classify,
}

-- faultInfo, less the frame of the trace
pub record FaultInfo : Type 0 where
  pub time : ℕ
  pub fault : FaultClass
  pub op : Bytes
  pub ctx_canceled : Bool
  pub latency_millis : ℕ

-- The fields of Backend that `call` changes, beside the vault; `calls` counts the requests to the SDK,
-- `looks` the looks at the caller's context, `reads` those at the clock, and `exits` are the exit codes.
pub record Client (V : Type 0) : Type 0 where
  pub vault : V
  pub calls : ℕ
  pub looks : ℕ
  pub reads : ℕ
  pub oob : ℕ
  pub ctx_canceled : ℕ
  pub core_timeout : ℕ
  pub consec_timeouts : ℕ
  pub rate_limited : ℕ
  pub auth_failed : ℕ
  pub last_fault : Option FaultInfo
  pub exits : List ℕ

-- How a request to the SDK races its deadline. One that is abandoned may have taken effect or not.
pub data Race : Type 0 where
  in_time late_done late_lost : Race

pub record Environment : Type 0 where
  pub clock : ℕ → ℕ
  pub race : ℕ → Race
  -- ctx.Err() != nil, at each look
  pub leaves : Context → ℕ → Bool
  pub spell : Spelling
  -- Backend.recycleAt; no time is the zero time
  pub recycle_at : Option ℕ

-- What an operation tells backoff.Retry: backoff.Permanent, or an error to try again on.
pub data Attempt (A : Type 0) : Type 0 where
  done : A → Attempt A
  permanent : Error → Attempt A
  transient : Error → Attempt A

-- backoff.Retry, with at most so many tries
pub record Backoff (V : Type 0) : Type 1 where
  pub retry : (A : Type 0) → ℕ → (Client V → Attempt A × Client V) → Client V → Result A × Client V

abbrev pub max_tries : ℕ
max_tries = 4

abbrev pub fault_retries : ℕ
fault_retries = 1

abbrev pub max_consec_timeouts : ℕ
max_consec_timeouts = 3

count_oob : FaultClass → ℕ → ℕ
count_oob out_of_bounds n = n + 1
count_oob invalid_client_id n = n
count_oob wasm n = n

module _ {V : Type 0} where
  abbrev pub note_cancel : Client V → Client V
  note_cancel b = record b { ctx_canceled = b.ctx_canceled + 1 }

  abbrev pub record_timeout : Client V → Client V
  record_timeout b = record b { core_timeout = b.core_timeout + 1 }

  abbrev pub exit : ℕ → Client V → Client V
  exit code b = record b { exits = code ∷ b.exits }

module _ {V : Type 0} (env : Environment) (backoff : Backoff V) where
  abbrev pub now : Client V → ℕ × Client V
  now b = (env.clock b.reads, record b { reads = b.reads + 1 })

  abbrev pub look : Context → Client V → Bool × Client V
  look ctx b = (env.leaves ctx b.looks, record b { looks = b.looks + 1 })

  recycle_at_time : Option ℕ → Client V → Client V
  recycle_at_time none b = b
  recycle_at_time (some at) b = let (t, b') = now b in if ltb t at then b' else exit 0 b'

  unfoldable pub recycle_if_stale : Client V → Client V
  unfolding recycle_at_time
  recycle_if_stale b = recycle_at_time env.recycle_at b

  unfoldable pub record_fault : Bytes → Error → Bool → ℕ → Client V → Client V
  unfolding count_oob
  record_fault label e canceled start b =
      let (t, b1) = now b in
      let (t', b2) = now b1 in
      let class = fault_class env.spell e in
      record b2 {
        last_fault = some (record {
          time = t';
          fault = class;
          op = label;
          ctx_canceled = canceled;
          latency_millis = (t - start) / 1000000;
        });
        oob = count_oob class b.oob;
      }

  pub count_timeout : Error → Client V → Client V
  count_timeout e b =
      if is e Sentinel.deadline_exceeded
      then (let b' = record (record_timeout b) { consec_timeouts = b.consec_timeouts + 1 } in
          if leb max_consec_timeouts b'.consec_timeouts then exit 1 b' else b')
      else b

  pub count_refusals : Error → Client V → Client V
  count_refusals e b = record b {
    rate_limited = if is_rate_limited e then b.rate_limited + 1 else b.rate_limited;
    auth_failed = if is_auth_error env.spell e then b.auth_failed + 1 else b.auth_failed;
  }

  module _ {A : Type 0} where
    raced : Race → Exec V A → Exec V A
    raced in_time fn v = fn v
    raced late_done fn v = (err (sentinel Sentinel.deadline_exceeded), (fn v).1)
    raced late_lost fn v = (err (sentinel Sentinel.deadline_exceeded), v)

    -- One request to the SDK.
    unfoldable pub race_ctx : Exec V A → Exec (Client V) A
    unfolding raced
    race_ctx fn b =
        let x = raced (env.race b.calls) fn b.vault in
        (x.0, record b { vault = x.1; calls = b.calls + 1 })

    -- How the operation that is retried ends an attempt.
    pub attempted : Result A → Attempt A
    attempted (ok v) = done v
    attempted (err e) =
        if is_client_fault env.spell e || is_rate_limited e then permanent e else transient e

    unfoldable pub attempt_op : Exec V A → Client V → Attempt A × Client V
    attempt_op fn b = let x = race_ctx fn b in (attempted x.0, x.1)

    unfoldable pub run_op : Bool → Exec V A → Exec (Client V) A
    run_op retryable fn b =
        if not retryable then race_ctx fn b else backoff.retry A max_tries (attempt_op fn) b

    pub canceled : Client V → Result A × Client V
    canceled b = (err (sentinel Sentinel.canceled), note_cancel b)

    -- What follows the loop, if the caller is still there.
    pub settled : Bytes → Result A → Client V → Result A × Client V
    settled label (ok v) b = (ok v, record b { consec_timeouts = 0 })
    settled label (err e) b = (err (classify label e), count_refusals e (count_timeout e b))

    pub finish : Bytes → Context → Result A × Client V → Result A × Client V
    finish label ctx (x, b) =
        let (gone, b') = look ctx b in if gone then canceled b' else settled label x b'

    -- A fault, and what follows it if the caller is there.
    pub faulted :
        (Client V → Result A × Client V)
        → Bytes
        → Context
        → ℕ
        → Error
        → Client V
        → Result A × Client V
    faulted next label ctx start e b =
        let (gone, b1) = look ctx b in
        let (gone', b2) = look ctx (record_fault label e gone start b1) in
        if gone' then canceled b2 else next b2

    -- The fault has survived its retries.
    pub wedged : Bytes → Error → Client V → Result A × Client V
    wedged label e b = (err (classify label e), exit 1 b)

    pub after_run :
        (Error → Client V → Result A × Client V)
        → Bytes
        → Context
        → ℕ
        → Result A × Client V
        → Result A × Client V
    after_run next label ctx start (ok v, b) = finish label ctx (ok v, b)
    after_run next label ctx start (err e, b) =
        if is_client_fault env.spell e
        then faulted (next e) label ctx start e b
        else finish label ctx (err e, b)

    -- The loop: so many attempts may follow this one.
    pub attempts : ℕ → Bytes → Bool → Context → ℕ → Exec V A → Exec (Client V) A
    attempts zero label retryable ctx start fn b =
        after_run (wedged label) label ctx start (run_op retryable fn b)
    attempts (suc left) label retryable ctx start fn b =
        after_run (λ e. attempts left label retryable ctx start fn) label ctx start
          (run_op retryable fn b)

    unfoldable pub call : Bytes → Bool → Context → Exec V A → Exec (Client V) A
    call label retryable ctx fn b =
        let (start, b1) = now b in
        let (gone, b2) = look ctx (recycle_if_stale b1) in
        if gone
        then canceled b2
        else attempts (if retryable then fault_retries else 0) label retryable ctx start fn b2
