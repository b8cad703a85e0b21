-- ===== src/OnePassword/Faults.antt =====
-- backend/onepassword/onepassword.go: what an error of the SDK is taken for. What err.Error() and
-- strings.ToLower give are arguments.
use ts1p.Prelude.{Bool, ◌||◌, if◌then◌else◌, Bytes, text, has_infix}
use ts1p.Errors.{Error, Sentinel, sentinel, wrap, join, is}

-- The classes of faults, faultOOB, faultInvalidClient and faultWASM.
pub data FaultClass : Type 0 where
  out_of_bounds invalid_client_id wasm : FaultClass

-- An error's text, and a text in lower case.
pub record Spelling : Type 0 where
  pub message : Error → Bytes
  pub to_lower : Bytes → Bytes

-- errors.As with the SDK's type
unfoldable pub is_rate_limited : Error → Bool
is_rate_limited e = is e Sentinel.sdk_rate_limit

module _ (spell : Spelling) where
  unfoldable pub is_auth_error : Error → Bool
  is_auth_error e =
      let s = spell.to_lower (spell.message e) in
      has_infix (text "invalid bearer token") s
      || has_infix (text "invalid user credentials") s
      || has_infix (text "token is invalid") s
      || has_infix (text "unauthorized") s
      || has_infix (text "not authorized") s

  unfoldable pub is_client_fault : Error → Bool
  is_client_fault e =
      let s = spell.message e in
      has_infix (text "out of bounds memory access") s
      || has_infix (text "invalid client id") s
      || has_infix (text "wasm error") s

  unfoldable pub fault_class : Error → FaultClass
  fault_class e =
      let s = spell.message e in
      if has_infix (text "out of bounds memory access") s
      then out_of_bounds
      else if has_infix (text "invalid client id") s
      then invalid_client_id
      else wasm

-- The storage error under a label. Of a nil error it is nil: the callers have one that is not.
unfoldable pub classify : Bytes → Error → Error
classify label e =
    if is_rate_limited e
    then wrap label (join (sentinel Sentinel.unavailable) (join (sentinel Sentinel.rate_limited) e))
    else wrap label (join (sentinel Sentinel.unavailable) e)
