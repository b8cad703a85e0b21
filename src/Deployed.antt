-- ===== src/Deployed.antt =====
-- cmd/ts1p/main.go: the storage that serve wires up, the store (store/store.go) over the cache
-- (backend/cache/cache.go) over 1Password (backend/onepassword/onepassword.go).
mod Examples
use ts1p.Prelude.{ℕ, ◌≡◌, refl, List, Bytes, All, length, Option}
use ts1p.Backend.{Record, Backend, IsLawful}
use ts1p.Cache
use ts1p.Cache.{Cache}
use ts1p.Cache.Eviction.{Lru, IsLru}
use ts1p.Cache.Timing.{Config}
use ts1p.Cache.Forced.{forced-IsLawful}
use ts1p.OnePassword
use ts1p.OnePassword.{Items, OnePassword}
use ts1p.OnePassword.Fields.{Text}
use ts1p.OnePassword.Validity.{IsCodec}
use ts1p.OnePassword.Vault.{IsVault}
use ts1p.OnePassword.Lawful.{IsRight}
use ts1p.OnePassword.Lawful.Loading.{view}
use ts1p.OnePassword.Lawful.Contract.{backend-IsLawful}
use ts1p.Store.Model.{Secret}
use ts1p.Store.Abstraction.{abs?}
use ts1p.Store.History.{Sound?}
use ts1p.Store.Ageing.{Later}
use ts1p.Store.Runs.{Call, Room, Fits, Spares, AllSound, run, run-AllSound, run-Later}

module _ {V L : Type 0} (items : Items V) (json : Text) (lru : Lru L) (cfg : Config) where
  -- The backend of the store: connectBackend's, wrapped by cache.New.
  abbrev pub storage : Backend (Cache (OnePassword V) L)
  storage = Cache.backend (OnePassword.backend items json) lru cfg

  module _ (law : IsVault items) (codec : IsCodec json) (good : IsLru lru) where
    abbrev storage-IsLawful : IsLawful storage
    storage-IsLawful =
        forced-IsLawful (OnePassword.backend items json) lru cfg good
          (backend-IsLawful items json law codec)

    -- The secret that the vault has under a name.
    abbrev pub secret_in_vault : Cache (OnePassword V) L → Bytes → Option Secret
    secret_in_vault c n = abs? (view items json law c.inner n)

    -- What a run of calls from `c` to `d` leaves of the vault.
    pub record Kept (c d : Cache (OnePassword V) L) (n : Bytes) : Type 0 where
      pub sound : (k : Bytes) → Sound? (secret_in_vault d k)
      pub later : Later (secret_in_vault c n) (secret_in_vault d n)

    -- Over any writing calls to the store over the cache over 1Password, whatever is resident in the cache
    -- and whichever requests fail: every secret that the vault has stays sound, and of a secret that the
    -- calls do not delete whole, a live version keeps its value or is deleted, a deleted version stays
    -- deleted, and the latest version does not fall. The secrets are sound before, the versions suffice,
    -- and nothing else writes to the vault.
    pub run-Kept :
        (modulus : ℕ) (n : Bytes) (cs : List Call) (c : Cache (OnePassword V) L)
        → IsRight items json law c.inner
        → ((k : Bytes) → Sound? (secret_in_vault c k))
        → ((k : Bytes) → Room modulus (length cs) (secret_in_vault c k))
        → All (Fits storage modulus storage-IsLawful (length cs)) cs
        → All (Spares storage modulus storage-IsLawful n) cs
        → Kept c (run storage modulus cs c) n
    unfolding forced-IsLawful backend-IsLawful
    run-Kept modulus n cs c right sound room fits spares = record {
      sound = (run-AllSound storage modulus storage-IsLawful cs c right all room fits).at;
      later = run-Later storage modulus storage-IsLawful n cs c right all room fits spares;
    }
      where
        all : AllSound storage modulus storage-IsLawful c
        all = record { at = sound }
