-- ===== src/Store/Refusals.antt =====
-- store/store.go: the requests that the methods refuse before they look at the storage.
use ts1p.Prelude.{has_prefix, ℕ, ◌≡◌, refl, ◌++◌, true, false, none, some, [], eqb, Bytes, bytes_eq}
use ts1p.Errors.{Sentinel, sentinel, err}
use ts1p.Backend.{Context, Backend}
use ts1p.Store.{
  put_value, create_version, activate, delete_version, delete_secret, unknown_config_value,
}
use ts1p.Store.Guards.{cut_prefix, config_prefix, has_prefix-append, cut_prefix-append}

module _ {S : Type 0} (b : Backend S) (ctx : Context) (n : Bytes) (s : S) where
  module _ (unnamed : bytes_eq n [] ≡ true) where
    pub put_value_unnamed :
        (modulus : ℕ) (value : Bytes)
        → put_value b modulus ctx n value s ≡ (err (sentinel Sentinel.empty_name), s)
    unfolding put_value
    put_value_unnamed modulus value = rw unnamed

    pub create_version_unnamed :
        (v : ℕ) (value : Bytes)
        → create_version b ctx n v value s ≡ (err (sentinel Sentinel.empty_name), s)
    unfolding create_version
    create_version_unnamed v value = rw unnamed

    pub activate_unnamed : (v : ℕ) → activate b ctx n v s ≡ (err (sentinel Sentinel.empty_name), s)
    unfolding activate
    activate_unnamed v = rw unnamed

  module _ (named : bytes_eq n [] ≡ false) (reserved : has_prefix config_prefix n ≡ true) where
    pub put_value_reserved :
        (modulus : ℕ) (value : Bytes)
        → put_value b modulus ctx n value s ≡ (err (unknown_config_value n), s)
    unfolding put_value
    put_value_reserved modulus value = rw (named, reserved)

    pub activate_reserved : (v : ℕ) → activate b ctx n v s ≡ (err (unknown_config_value n), s)
    unfolding activate
    activate_reserved v = rw (named, reserved)

  module _ (cfg : Bytes) (reserved : cut_prefix config_prefix n ≡ some cfg) where
    pub delete_version_reserved :
        (v : ℕ) → delete_version b ctx n v s ≡ (err (unknown_config_value cfg), s)
    unfolding delete_version
    delete_version_reserved v = rw (reserved, delete_version)

    pub delete_secret_reserved : delete_secret b ctx n s ≡ (err (unknown_config_value cfg), s)
    unfolding delete_secret
    delete_secret_reserved = rw (reserved, delete_secret)

  module _ (named : bytes_eq n [] ≡ false) (v : ℕ) (zeroth : eqb v 0 ≡ true) where
    pub create_version_zero :
        (value : Bytes)
        → create_version b ctx n v value s ≡ (err (sentinel Sentinel.invalid_version), s)
    unfolding create_version
    create_version_zero value = rw (named, zeroth)

    pub activate_zero :
        has_prefix config_prefix n ≡ false
        → activate b ctx n v s ≡ (err (sentinel Sentinel.invalid_version_plain), s)
    unfolding activate
    activate_zero free = rw (named, free, zeroth)

  pub delete_version_zero :
      (v : ℕ)
      → eqb v 0 ≡ true
      → cut_prefix config_prefix n ≡ none
      → delete_version b ctx n v s ≡ (err (sentinel Sentinel.invalid_version_plain), s)
  unfolding delete_version
  delete_version_zero v zeroth free = rw (free, delete_version, zeroth)

-- Under the reserved prefix Put, Activate, DeleteVersion and Delete are refused, whatever their other
-- arguments: the error has the whole name in the first two and the rest of it in the others, and the
-- state is untouched.
pub reserved_refused :
    {S : Type 0} (b : Backend S) (ctx : Context) (rest value : Bytes) (modulus v : ℕ) (s : S)
    → (put_value b modulus ctx (config_prefix ++ rest) value s
        ≡ (err (unknown_config_value (config_prefix ++ rest)), s))
      × (activate b ctx (config_prefix ++ rest) v s
          ≡ (err (unknown_config_value (config_prefix ++ rest)), s))
      × (delete_version b ctx (config_prefix ++ rest) v s ≡ (err (unknown_config_value rest), s))
      × (delete_secret b ctx (config_prefix ++ rest) s ≡ (err (unknown_config_value rest), s))
unfolding bytes_eq
reserved_refused b ctx rest value modulus v s =
    let name : Bytes = config_prefix ++ rest in
    let p = has_prefix-append config_prefix rest in
    let c = cut_prefix-append config_prefix rest in
    (
      put_value_reserved b ctx name s (nonempty rest) p modulus value,
      activate_reserved b ctx name s (nonempty rest) p v,
      delete_version_reserved b ctx name s rest c v,
      delete_secret_reserved b ctx name s rest c,
    )
  where
    nonempty : (r : Bytes) → bytes_eq (config_prefix ++ r) [] ≡ false
    nonempty r = refl
