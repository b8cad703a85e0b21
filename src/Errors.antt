-- ===== src/Errors.antt =====
-- Go's error values: the sentinels of the packages, `fmt.Errorf` with `%w`, and `errors.Is`.
-- The `api` sentinels are those of setec's package types/api, which the code only compares.
use ts1p.Prelude.{ℕ, Bool, false, ◌||◌, eqb, Bytes}

pub data Sentinel : Type 0 where
  -- backend/backend.go
  backend_not_found unavailable rate_limited : Sentinel
  -- setec's types/api
  api_not_found access_denied value_not_changed version_claimed : Sentinel
  -- store/store.go
  invalid_version invalid_version_plain empty_name unexpected_no_active delete_active : Sentinel
  unknown_config : Sentinel
  -- server/server.go
  server_empty_name no_caller_identity identity_unavailable missing_config : Sentinel
  -- backend/onepassword/onepassword.go
  vault_not_found empty_token empty_secret_name duplicate_titles meta_too_large : Sentinel
  invalid_record : Sentinel
  -- the SDK's typed error of a rate limit, which errors.As looks for
  sdk_rate_limit : Sentinel
  -- cmd/vendorhash/main.go
  no_got_hash : Sentinel
  -- cmd/ts1p/main.go
  state_dir_required vault_required token_required op_max_age_too_short no_tls_domains : Sentinel
  -- package context
  canceled deadline_exceeded : Sentinel

-- Two sentinels are one error exactly if they are the same variable: its number.
abbrev pub number : Sentinel → ℕ
number backend_not_found = 0
number unavailable = 1
number rate_limited = 2
number api_not_found = 3
number access_denied = 4
number value_not_changed = 5
number version_claimed = 6
number invalid_version = 7
number invalid_version_plain = 8
number empty_name = 9
number unexpected_no_active = 10
number delete_active = 11
number unknown_config = 12
number server_empty_name = 13
number no_caller_identity = 14
number identity_unavailable = 15
number missing_config = 16
number vault_not_found = 17
number empty_token = 18
number empty_secret_name = 19
number duplicate_titles = 20
number meta_too_large = 21
number invalid_record = 22
number canceled = 23
number deadline_exceeded = 24
number sdk_rate_limit = 25
number no_got_hash = 26
number state_dir_required = 27
number vault_required = 28
number token_required = 29
number op_max_age_too_short = 30
number no_tls_domains = 31

pub data Error : Type 0 where
  sentinel : Sentinel → Error
  -- an error of a library, known by its message
  opaque : Bytes → Error
  -- fmt.Errorf("… %w …") with a message of its own
  wrap : Bytes → Error → Error
  -- fmt.Errorf("%w: %w")
  join : Error → Error → Error

-- errors.Is
abbrev pub is : Error → Sentinel → Bool
is (sentinel t) s = eqb (number t) (number s)
is (opaque m) s = false
is (wrap m e) s = is e s
is (join e f) s = is e s || is f s

pub data Result {ℓ} (A : Type ℓ) : Type ℓ where
  ok : A → Result A
  err : Error → Result A

abbrev pub fail {ℓ} : {A : Type ℓ} → Sentinel → Result A
fail s = err (sentinel s)
