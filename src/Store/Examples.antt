-- ===== src/Store/Examples.antt =====
-- store/store.go run on small storages, and the theorems about it at them.
use ts1p.Prelude.{
  has_prefix, ℕ, ◌+◌, ◌<◌, ◌≡◌, refl, subst, true, false, Option, none, some, List, [], ◌∷◌, Bytes,
  bytes_eq, bytes_eq_eq, nat_eq, bytes_le, text, lookup, put, delete, keys, contains, sort, arith,
  ◌++◌, nat_ord, bytes_ord, IsSorted, is_some, All, if◌then◌else◌, Bool-cases, inl, inr,
}
use mathlib.Core.Option.{some-injective}
use ts1p.Errors.{Sentinel, sentinel, opaque, ok, err}
use ts1p.Backend.{Record, Context, Backend, clone, is_claimed, with_force_refresh}
use ts1p.Mem
use ts1p.Mem.{Records, backend-IsLawful, found-not_found}
use ts1p.Store
use ts1p.Store.{SecretInfo, SecretValue, info, unknown_config_value}
use ts1p.Store.Guards.{cut_prefix, config_prefix}
use ts1p.Store.Model.{
  Secret, put_answer, put_next, create_answer, create_next, activate_answer, activate_next,
  delete_version_answer, delete_version_next,
}
use ts1p.Store.Abstraction.{abs, abs?}
use ts1p.Store.Refinement.{Outcome}
use ts1p.Store.Refinement.Writes.{
  put_value-Outcome, create_version-Outcome, activate-Outcome, delete_version-Outcome,
}
use ts1p.Store.History.{Change, IsSound, Sound?}
use ts1p.Store.Ageing.{Later}
use ts1p.Store.Runs.{Call, AllSound, Room, Spares, run, run-AllSound, run-Later}
use ts1p.Store.Refusals.{reserved_refused}
use ts1p.Store.Reads.{get-Outcome, get_answer}
use ts1p.Store.Listing.{Shows, list-Shows}
use ts1p.Store.Overflow.{put_overflow, twice}

abbrev plain : Context
plain = record { force = false; gone = false }

abbrev db : Bytes
db = text "db"

-- Two live versions and a deleted one.
abbrev db_record : Record
db_record = record {
  name = db;
  versions = (1, text "one") ∷ (3, text "three") ∷ [];
  active = 1;
  latest = 3;
  deleted = some ((2, tt) ∷ []);
}

abbrev held : Records
held = (db, db_record) ∷ []

abbrev modulus : ℕ
modulus = 4294967296

program : Unit {0}
unfolding Store.put_value Store.create_version Store.activate Store.delete_version
    Store.delete_secret Store.get Store.get_conditional Store.get_version Store.list Store.get_info
    Mem.load Mem.save Mem.list Mem.remove lookup put delete keys bytes_eq sort contains bytes_le
    clone is_claimed with_force_refresh has_prefix cut_prefix Store.info Store.active Store.value_at
    Store.holds_latest
program = tt

put_new : Store.put_value Mem.backend modulus plain (text "x") (text "v") [] ≡ (
  ok 1,
  (
    text "x",
    record {
      name = text "x";
      versions = (1, text "v") ∷ [];
      active = 1;
      latest = 1;
      deleted = none;
    },
  )
      ∷ [],
)
unfolding program
put_new = refl

put_same : Store.put_value Mem.backend modulus plain db (text "three") held ≡ (ok 3, held)
unfolding program
put_same = refl

put_next_version : (Store.put_value Mem.backend modulus plain db (text "one") held).0 ≡ ok 4
unfolding program
put_next_version = refl

create_deleted :
    Store.create_version Mem.backend plain db 2 (text "again") held
    ≡ (err (sentinel Sentinel.version_claimed), held)
unfolding program
create_deleted = refl

delete_active_version :
    Store.delete_version Mem.backend plain db 1 held ≡ (err (sentinel Sentinel.delete_active), held)
unfolding program
delete_active_version = refl

shown :
    (Store.list Mem.backend plain (λ n. true) held).0
    ≡ ok (record { name = db; active_version = 1; versions = 1 ∷ 3 ∷ [] } ∷ [])
unfolding program
shown = refl

room : (r : Record) → lookup db held ≡ some r → r.latest + 1 < modulus
unfolding lookup bytes_eq
room r p = subst (λ (x : Record). x.latest + 1 < modulus) (some-injective _ _ p) (omega arith)

put_value-Outcome_example :
    Outcome Mem.backend backend-IsLawful db held
      (put_answer (abs? (lookup db held)) (text "one"))
      (put_next (abs? (lookup db held)) (text "one"))
      (Store.put_value Mem.backend modulus plain db (text "one") held)
unfolding backend-IsLawful bytes_eq has_prefix
put_value-Outcome_example =
    put_value-Outcome Mem.backend backend-IsLawful plain db held modulus (text "one") tt refl refl
      room

create_version-Outcome_example :
    Outcome Mem.backend backend-IsLawful db held
      (create_answer (abs? (lookup db held)) 2)
      (create_next (abs? (lookup db held)) 2 (text "again"))
      (Store.create_version Mem.backend plain db 2 (text "again") held)
unfolding backend-IsLawful bytes_eq has_prefix
create_version-Outcome_example =
    create_version-Outcome Mem.backend backend-IsLawful plain db held 2 (text "again") tt refl refl

activate-Outcome_example :
    Outcome Mem.backend backend-IsLawful db held
      (activate_answer (abs? (lookup db held)) 3)
      (activate_next (abs? (lookup db held)) 3)
      (Store.activate Mem.backend plain db 3 held)
unfolding backend-IsLawful bytes_eq has_prefix
activate-Outcome_example =
    activate-Outcome Mem.backend backend-IsLawful plain db held 3 tt refl refl refl

delete_version-Outcome_example :
    Outcome Mem.backend backend-IsLawful db held
      (delete_version_answer db (text "version") (abs? (lookup db held)) 3)
      (delete_version_next (abs? (lookup db held)) 3)
      (Store.delete_version Mem.backend plain db 3 held)
unfolding backend-IsLawful has_prefix
delete_version-Outcome_example =
    delete_version-Outcome Mem.backend backend-IsLawful plain db held 3 tt refl refl

abbrev calls : List Call
calls =
    record { ctx = plain; name = db; change = Change.put (text "four") }
    ∷ record { ctx = plain; name = db; change = Change.create 9 (text "nine") }
    ∷ record { ctx = plain; name = db; change = Change.delete_version 3 }
    ∷ record { ctx = plain; name = text "x"; change = Change.delete }
    ∷ []

db_record-IsSound : IsSound (abs db_record)
unfolding abs lookup
db_record-IsSound = record {
  active_live = refl;
  latest_claimed = refl;
  in_range = λ v h. ground arith;
}

module _ (P : Option Secret → Type 0) (at_none : P none) (at_db : P (some (abs db_record))) where
  of_held : (k : Bytes) → P (abs? (lookup k held))
  unfolding lookup
  of_held k = elim (Bool-cases (bytes_eq db k)) [ inl e ↦ rw e at_db | inr e ↦ rw e at_none ]

Room-held : (k : Bytes) → Room modulus 4 (abs? (lookup k held))
unfolding abs
Room-held = of_held (Room modulus 4) tt (omega arith)

held-AllSound : AllSound Mem.backend modulus backend-IsLawful held
unfolding backend-IsLawful
held-AllSound = record { at = of_held Sound? tt db_record-IsSound }

run-AllSound_example :
    AllSound Mem.backend modulus backend-IsLawful (run Mem.backend modulus calls held)
unfolding backend-IsLawful
run-AllSound_example =
    run-AllSound Mem.backend modulus backend-IsLawful calls held tt held-AllSound Room-held
      (omega arith)

spared : All (Spares Mem.backend modulus backend-IsLawful db) calls
unfolding bytes_eq
spared = (λ h e. cc, (λ h e. cc, (λ h e. cc, (λ h e. cc, tt))))

run-Later_example :
    Later (abs? (lookup db held)) (abs? (lookup db (run Mem.backend modulus calls held)))
unfolding backend-IsLawful
run-Later_example =
    run-Later Mem.backend modulus backend-IsLawful db calls held tt held-AllSound Room-held
      (omega arith) spared

reserved_refused_example :
    (Store.put_value Mem.backend modulus plain (config_prefix ++ text "a") (text "v") held
      ≡ (err (unknown_config_value (config_prefix ++ text "a")), held))
    × (Store.activate Mem.backend plain (config_prefix ++ text "a") 1 held
        ≡ (err (unknown_config_value (config_prefix ++ text "a")), held))
    × (Store.delete_version Mem.backend plain (config_prefix ++ text "a") 1 held
        ≡ (err (unknown_config_value (text "a")), held))
    × (Store.delete_secret Mem.backend plain (config_prefix ++ text "a") held
        ≡ (err (unknown_config_value (text "a")), held))
reserved_refused_example = reserved_refused Mem.backend plain (text "a") (text "v") modulus 1 held

get-Outcome_example :
    Outcome Mem.backend backend-IsLawful db held
      (get_answer (abs? (lookup db held)))
      (abs? (lookup db held))
      (Store.get Mem.backend plain db held)
unfolding backend-IsLawful
get-Outcome_example = get-Outcome Mem.backend backend-IsLawful plain db held tt refl

-- A backend that answers reads of "db" alone.
abbrev narrow : Backend Records
narrow = record {
  load = λ ctx n s. if bytes_eq n db then Mem.load ctx n s else (err (opaque (text "hidden")), s);
  save = Mem.save;
  list = Mem.list;
  delete = Mem.remove;
}

list-Shows_example :
    Shows Mem.backend backend-IsLawful plain
      (λ n. true)
      (λ k. lookup k held)
      (sort (db ∷ []))
      (Store.list Mem.backend plain (λ n. true) held).0
    × IsSorted (sort (db ∷ []))
    × ((k : Bytes) → contains k (sort (db ∷ [])) ≡ is_some (lookup k held))
unfolding backend-IsLawful Mem.list keys
list-Shows_example =
    list-Shows Mem.backend backend-IsLawful plain (λ n. true) held (db ∷ []) refl tt refl

-- The latest version is the last of 32 bits.
abbrev full_record : Record
full_record = record {
  name = db;
  versions = (1, text "one") ∷ [];
  active = 1;
  latest = 4294967295;
  deleted = none;
}

abbrev full : Records
full = (db, full_record) ∷ []

put_overflow_example :
    ((Store.put_value Mem.backend modulus plain db (text "a") full).0 ≡ ok 0)
    × ((twice modulus plain db full (text "a") (text "b")).0 ≡ ok 1)
    × ((q : Record) × (lookup db (twice modulus plain db full (text "a") (text "b")).1 ≡ some q)
        × (lookup 1 q.versions ≡ some (text "b"))
        × (q.latest ≡ 1)
        × (q.active ≡ 1))
unfolding lookup bytes_eq has_prefix Store.holds_latest
put_overflow_example =
    put_overflow modulus plain db refl refl full full_record (text "a") (text "b") refl
      (omega arith) refl refl refl
