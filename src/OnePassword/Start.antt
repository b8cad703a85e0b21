-- ===== src/OnePassword/Start.antt =====
-- backend/onepassword/onepassword.go: New, start and connectVault, from the token to a connection that is
-- bound to a vault. The SDK's client, the backoff library, the clock and the random draw are arguments.
pub mod Trying
pub mod Opening
mod Examples
use ts1p.Prelude.{
  ℕ, ◌+◌, ◌-◌, ◌/◌, ◌%◌, Bool, true, false, ◌||◌, Option, none, some, List, [], ◌∷◌, if◌then◌else◌,
  eqb, Bytes, bytes_eq, text,
}
use ts1p.Errors.{Error, Sentinel, sentinel, wrap, join, is, Result, ok, err, fail}
use ts1p.Exec.{Exec, pure, raise, throw, lift, attempt, ◌>>=◌, ◌>>◌}
use ts1p.OnePassword.Titles.{Overview}
use ts1p.OnePassword.Faults.{Spelling, is_auth_error}
use ts1p.OnePassword.Client.{Attempt, done, permanent, transient}

-- The SDK's functions that connectVault calls, over the state `S` of the outside, with clients `C`.
pub record Sdk (S C : Type 0) : Type 0 where
  pub new_client : Bytes → Exec S C
  -- the title and ID of each vault
  pub vaults : C → Exec S (List Overview)
  pub list_items : C → Bytes → Exec S (List Overview)

-- The fields of Backend that `start` sets; no time is the zero time.
pub record Fresh (S C : Type 0) : Type 0 where
  pub sdk : S
  pub conn : Option C
  pub vault_id : Bytes
  pub recycle_at : Option ℕ

-- backoff.Retry with no bound on the tries, until the context is done or the time is up
pub record Patience (T : Type 0) : Type 1 where
  pub retry : (A : Type 0) → (T → Attempt A × T) → T → Result A × T

-- What `start` reads once it is connected: time.Now and rand.N.
pub record Birth : Type 0 where
  pub now : ℕ
  pub draw : ℕ

-- An error of the SDK on the way to a connection.
abbrev pub unavailable : Bytes → Error → Error
unavailable label e = wrap label (join (sentinel Sentinel.unavailable) e)

-- The ID of the first vault of this title, which is empty if there is none.
unfoldable pub vault_called : Bytes → List Overview → Bytes
vault_called name [] = []
vault_called name (v ∷ vs) = if bytes_eq v.title name then v.id else vault_called name vs

abbrev pub unconnected : {S C : Type 0} → S → Fresh S C
unconnected s = record { sdk = s; conn = none; vault_id = []; recycle_at = none }

relabel : {S A : Type 0} → Bytes → Result A × S → Result A × S
relabel label (ok a, t) = (ok a, t)
relabel label (err e, t) = (err (unavailable label e), t)

-- Trying again cannot help.
unfoldable pub is_misconfigured : Spelling → Error → Bool
is_misconfigured spell e = is e Sentinel.vault_not_found || is_auth_error spell e

-- The lifetime of the process, when it is bounded.
unfoldable pub aged :
    {S C : Type 0} → ℕ → Birth → Result (Unit {0}) × Fresh S C → Result (Unit {0}) × Fresh S C
aged max_age birth (err e, b) = (err e, b)
aged max_age birth (ok u, b) = if eqb max_age 0 then (ok tt, b) else (
  ok tt,
  record b { recycle_at = some (birth.now + (max_age - birth.draw % (max_age / 10 + 1))) },
)

module _ {S C : Type 0} (sdk : Sdk S C) (token vault_name : Bytes) where
  abbrev labelled : {A : Type 0} → Bytes → Exec S A → Exec S A
  labelled label m s = relabel label (m s)

  -- The probe of the items API, and the connection.
  probe : C → Bytes → Exec S (C × Bytes)
  unfolding relabel
  probe client id =
      if bytes_eq id []
      then raise (
          wrap (text "service accounts cannot use the Private vault")
            (sentinel Sentinel.vault_not_found))
      else (labelled (text "onepassword: probing items in vault") (sdk.list_items client id)
          >> pure (client, id))

  unfoldable pub connect_vault : Exec S (C × Bytes)
  unfolding probe relabel
  connect_vault = do
    client ← labelled (text "onepassword: creating client") (sdk.new_client token)
    vaults ← labelled (text "onepassword: listing vaults") (sdk.vaults client)
    probe client (vault_called vault_name vaults)

  module _ (spell : Spelling) where
    -- What the operation that is retried ends in.
    unfoldable pub tried : Fresh S C → Result (C × Bytes) × S → Attempt (Unit {0}) × Fresh S C
    tried b (ok (client, id), s) =
        (done tt, record b { sdk = s; conn = some client; vault_id = id })
    tried b (err e, s) =
        let t : Fresh S C = record b { sdk = s } in
        if is_misconfigured spell e then (permanent e, t) else (transient e, t)

    unfoldable pub try_connect : Fresh S C → Attempt (Unit {0}) × Fresh S C
    unfolding tried
    try_connect b = tried b (connect_vault b.sdk)

    unfoldable pub start : Patience (Fresh S C) → ℕ → Birth → Exec (Fresh S C) (Unit {0})
    start patience max_age birth b = aged max_age birth (patience.retry (Unit {0}) try_connect b)

    unfoldable pub new : Patience (Fresh S C) → ℕ → Birth → S → Result (Unit {0}) × Fresh S C
    new patience max_age birth s =
        let b = unconnected s in
        if bytes_eq token [] then (fail Sentinel.empty_token, b) else start patience max_age birth b
