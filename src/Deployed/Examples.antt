-- ===== src/Deployed/Examples.antt =====
-- The stack over a vault in memory: two versions are put under a name, one of them is deleted.
use ts1p.Prelude.{sym, subst, false, none, List, [], ◌∷◌, Bytes, bytes_eq, bytes_eq_eq, text, arith}
use ts1p.Backend.{Context}
use ts1p.Cache.{Cache}
use ts1p.Cache.Forced.{Forceable, cache-Forceable}
use ts1p.Cache.Examples.{Entries, assoc, assoc-IsLru, hourly}
use ts1p.OnePassword
use ts1p.OnePassword.{OnePassword}
use ts1p.OnePassword.Lawful.Contract.{Keeping, backend-Keeping, backend-IsLawful}
use ts1p.OnePassword.Sample.{Vault, items}
use ts1p.OnePassword.Sample.Law.{items-IsVault, empty, empty-IsRight, view-empty}
use ts1p.OnePassword.Sample.Codec.{codec, codec-IsCodec}
use ts1p.Store.Abstraction.{abs?}
use ts1p.Store.History.{Change, Sound?}
use ts1p.Store.Runs.{Call, Room, run}
use ts1p.Deployed.{Kept, run-Kept, storage}

abbrev plain : Context
plain = record { force = false; gone = false }

abbrev db : Bytes
db = text "db"

abbrev fresh : Cache (OnePassword Vault) Entries
fresh = record {
  inner = empty;
  recs = [];
  seq = 0;
  names = none;
  oracle = record { reads = 0; draws = 0 };
  stale_served = 0;
}

abbrev calls : List Call
calls =
    record { ctx = plain; name = db; change = Change.put (text "one") }
    ∷ record { ctx = plain; name = db; change = Change.put (text "two") }
    ∷ record { ctx = plain; name = db; change = Change.delete_version 1 }
    ∷ []

backend-Keeping_example : Keeping items codec items-IsVault
backend-Keeping_example = backend-Keeping items codec items-IsVault codec-IsCodec

run-Kept_example :
    Kept items codec assoc hourly items-IsVault codec-IsCodec assoc-IsLru fresh
      (run (storage items codec assoc hourly) 4294967296 calls fresh)
      db
unfolding bytes_eq
run-Kept_example =
    run-Kept items codec assoc hourly items-IsVault codec-IsCodec assoc-IsLru 4294967296 db calls
      fresh (empty-IsRight codec) (λ k. subst (λ o. Sound? (abs? o)) (sym (view-empty codec k)) tt)
      (λ k. subst (λ o. Room 4294967296 3 (abs? o)) (sym (view-empty codec k)) tt) (omega arith)
      (λ h e. cc, (λ h e. cc, (λ h e. cc, tt)))

cache-Forceable_example :
    Forceable
      (OnePassword.backend items codec)
      assoc
      hourly
      assoc-IsLru
      (backend-IsLawful items codec items-IsVault codec-IsCodec)
cache-Forceable_example =
    cache-Forceable (OnePassword.backend items codec) assoc hourly assoc-IsLru
      (backend-IsLawful items codec items-IsVault codec-IsCodec)
