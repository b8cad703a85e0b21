-- ===== src/OnePassword/Client/Outcomes.antt =====
-- backend/onepassword/onepassword.go: what a call through the SDK comes to.
use ts1p.Prelude.{ℕ, ◌+◌, ◌≤◌, ◌≡◌, ◌⊎◌, true, false, List, ◌∷◌, Bytes, arith}
use ts1p.Errors.{Error, Sentinel, sentinel, is, Result, ok, err}
use ts1p.Exec.{Exec}
use ts1p.Backend.{Context}
use ts1p.OnePassword.Faults.{is_client_fault, classify}
use ts1p.OnePassword.Client.{Client, Environment, Backoff, max_consec_timeouts, canceled}
use ts1p.OnePassword.Client.Retry.{IsBackoff}

pub classify-unavailable :
    (label : Bytes) (e : Error) → is (classify label e) Sentinel.unavailable ≡ true
unfolding classify
classify-unavailable label e = ground arith

-- What running the operation leaves alone.
abbrev Still : {V : Type 0} → ℕ → Client V → Client V → Type 0
Still n s t = (t.exits ≡ s.exits) × (t.ctx_canceled ≡ s.ctx_canceled) × (t.looks ≡ s.looks)

module _ {V : Type 0} (env : Environment) (backoff : Backoff V) (law : IsBackoff backoff)
    (label : Bytes) (ctx : Context) {A : Type 0} where
  -- How a call ends, where `exits` and `n` are the exit codes and the count of departed callers
  -- before it, and `spent` is the count of looks when a fault has come in every attempt.
  pub data Ended (exits : List ℕ) (n spent : ℕ) (x : Result A × Client V) : Type 0 where
    -- the last look found the caller gone
    left :
        (k : ℕ)
        → x.0 ≡ err (sentinel Sentinel.canceled)
        → x.1.exits ≡ exits
        → x.1.ctx_canceled ≡ n + 1
        → x.1.looks ≡ k + 1
        → env.leaves ctx k ≡ true
        → Ended exits n spent x
    answered :
        (v : A) (k : ℕ)
        → x.0 ≡ ok v
        → x.1.exits ≡ exits
        → x.1.consec_timeouts ≡ 0
        → x.1.looks ≡ k + 1
        → env.leaves ctx k ≡ false
        → Ended exits n spent x
    failed :
        (e : Error) (k : ℕ)
        → x.0 ≡ err (classify label e)
        → is_client_fault env.spell e ≡ false
        → x.1.exits ≡ exits
        → x.1.looks ≡ k + 1
        → env.leaves ctx k ≡ false
        → Ended exits n spent x
    -- the process exits, and the last look found the caller there
    recycled :
        (e : Error) (k : ℕ)
        → x.0 ≡ err (classify label e)
        → x.1.exits ≡ 1 ∷ exits
        → (is_client_fault env.spell e ≡ true) × (x.1.looks ≡ spent)
          ⊎ ((is e Sentinel.deadline_exceeded ≡ true) × (max_consec_timeouts ≤ x.1.consec_timeouts))
        → x.1.looks ≡ k + 1
        → env.leaves ctx k ≡ false
        → Ended exits n spent x
