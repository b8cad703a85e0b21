-- ===== src/Store/Overflow.antt =====
-- store/store.go: `r.Latest++` in Put, where the latest version is the last of its unsigned type.
use ts1p.Prelude.{
  has_prefix, ℕ, ◌+◌, ◌<◌, ◌≡◌, refl, ap, ◌∙◌, false, some, [], Bytes, bytes_eq, bytes_eq_eq,
  nat_eq, lookup, put, lookup-put_self, arith,
}
use native.Mathlib.Nat.{mod-eq_of_lt}
use ts1p.Errors.{Result, ok}
use ts1p.Backend.{Record, Context, clone-id}
use ts1p.Mem
use ts1p.Mem.{Records}
use ts1p.Store.{put_value, load, put_loaded, holds_latest, add_latest, next_version}
use ts1p.Store.Guards.{config_prefix}

-- Two Puts in a row.
abbrev pub twice : ℕ → Context → Bytes → Records → Bytes → Bytes → Result ℕ × Records
twice modulus ctx n records v w =
    put_value Mem.backend modulus ctx n w (put_value Mem.backend modulus ctx n v records).1

module _ (modulus : ℕ) (ctx : Context) (n : Bytes) (named : bytes_eq n [] ≡ false)
    (free : has_prefix config_prefix n ≡ false) where
  -- Put of a new value under a name that is there, in the in-memory backend.
  put_again :
      (records : Records) (r : Record) (value : Bytes)
      → lookup n records ≡ some r
      → holds_latest r value ≡ false
      → put_value Mem.backend modulus ctx n value records
        ≡ (ok (next_version modulus r.latest), put n (add_latest modulus r value) records)
  unfolding put_value put_loaded load Mem.load Mem.save
  put_again records r value p new = rw (named, free, p, clone-id, new, clone-id)

  -- After a Put of `v`, another value is not the one that the latest version holds.
  holds_latest-add_latest :
      (r : Record) (v w : Bytes)
      → bytes_eq v w ≡ false
      → holds_latest (add_latest modulus r v) w ≡ false
  unfolding holds_latest
  holds_latest-add_latest r v w differ =
      rw (lookup-put_self (next_version modulus r.latest) v r.versions) differ

  wraps : (v : ℕ) → 1 < modulus → v + 1 ≡ modulus → next_version modulus v ≡ 0
  wraps v room last = grind arith

  -- In the in-memory backend, where the latest version of a secret is the last one below the modulus:
  -- Put of a value that it does not hold returns version 0, and a Put of another value then returns
  -- and overwrites version 1, with 1 as the latest, whatever version 1 held. The name is neither
  -- empty nor reserved, and the modulus is above 1.
  pub put_overflow :
      (records : Records) (r : Record) (v w : Bytes)
      → lookup n records ≡ some r
      → 1 < modulus
      → r.latest + 1 ≡ modulus
      → holds_latest r v ≡ false
      → bytes_eq v w ≡ false
      → ((put_value Mem.backend modulus ctx n v records).0 ≡ ok 0)
        × ((twice modulus ctx n records v w).0 ≡ ok 1)
        × ((q : Record) × (lookup n (twice modulus ctx n records v w).1 ≡ some q)
            × (lookup 1 q.versions ≡ some w)
            × (q.latest ≡ 1)
            × (q.active ≡ r.active))
  put_overflow records r v w p room last new differ =
      let zeroth = wraps r.latest room last in
      let r1 = add_latest modulus r v in
      let again : next_version modulus (next_version modulus r.latest) ≡ 1 =
        ap (next_version modulus) zeroth ∙ mod-eq_of_lt room in
      let second =
        put_again (put n r1 records) r1 w (lookup-put_self n r1 records)
          (holds_latest-add_latest r v w differ) in
      rw (put_again records r v p new) (
        rw second (
          ap ok zeroth,
          ap ok again,
          (
            add_latest modulus r1 w,
            lookup-put_self n (add_latest modulus r1 w) (put n r1 records),
            rw again (lookup-put_self 1 w r1.versions),
            again,
            refl,
          ),
        ))
