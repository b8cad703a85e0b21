-- ===== src/Store/Abstraction.antt =====
-- The secret that a stored record stands for, and what each change of a record means for it.
use ts1p.Prelude.{
  ℕ, ◌+◌, ◌%◌, ◌<◌, not, max, ◌≡◌, refl, Bool, true, false, Option, none, some, Bytes, arith,
  nat_eq, lookup, has_key, lookup-put, lookup-delete,
}
use mathlib.Core.Path.{fun_ext}
use native.Mathlib.Nat.{mod-eq_of_lt}
use ts1p.Backend.{Record, deleted_set, is_claimed, SameRecord}
use ts1p.Store.{fresh_record, add_latest, add_version, set_active, drop_version, holds_latest}
use ts1p.Store.Model.{Cell, unused, gone, live, Secret, set_cell, only, is_live, is_unused, holds}

cell_of : Option Bytes → Bool → Cell
cell_of (some x) d = live x
cell_of none true = gone
cell_of none false = unused

unfoldable pub abs : Record → Secret
unfolding cell_of
abs r = record {
  cell = λ v. cell_of (lookup v r.versions) (has_key v (deleted_set r));
  active = r.active;
  latest = r.latest;
}

abbrev pub abs? : Option Record → Option Secret
abs? none = none
abs? (some r) = some (abs r)

-- Secrets are equal if they agree at every version.
secret_ext :
    (a b : Secret)
    → ((k : ℕ) → a.cell k ≡ b.cell k)
    → a.active ≡ b.active
    → a.latest ≡ b.latest
    → a ≡ b
secret_ext a b h p q = λ i. record { cell = fun_ext h i; active = p i; latest = q i }

pub abs-fresh :
    (name : Bytes) (v : ℕ) (value : Bytes) → abs (fresh_record name v value) ≡ only v value
unfolding abs lookup
abs-fresh name v value = secret_ext _ _ (λ k. ground arith) refl refl

pub abs-add_version :
    (r : Record) (v : ℕ) (value : Bytes)
    → abs (add_version r v value) ≡ record {
      cell = set_cell v (live value) (abs r).cell;
      active = v;
      latest = max (abs r).latest v;
    }
unfolding abs
abs-add_version r v value =
    secret_ext _ _ (λ k. ground (arith, lookup-put v k value r.versions)) refl refl

pub abs-add_latest :
    (modulus : ℕ) (r : Record) (value : Bytes)
    → r.latest + 1 < modulus
    → abs (add_latest modulus r value) ≡ record (abs r) {
      cell = set_cell ((abs r).latest + 1) (live value) (abs r).cell;
      latest = (abs r).latest + 1;
    }
unfolding abs
abs-add_latest modulus r value h =
    let e : (r.latest + 1) % modulus ≡ r.latest + 1 = mod-eq_of_lt h in
    secret_ext _ _ (λ k. rw e (ground (arith, lookup-put (r.latest + 1) k value r.versions))) refl e

pub abs-drop_version :
    (r : Record) (v : ℕ)
    → abs (drop_version r v) ≡ record (abs r) { cell = set_cell v gone (abs r).cell }
unfolding abs
abs-drop_version r v =
    secret_ext _ _
      (λ k. ground (arith, lookup-delete v k r.versions, lookup-put v k tt (deleted_set r))) refl
      refl

-- The tests of the code are those of the model.
pub is_claimed-abs : (r : Record) (v : ℕ) → is_claimed r v ≡ not (is_unused ((abs r).cell v))
unfolding is_claimed abs
is_claimed-abs r v = ground arith

pub has_key-abs : (r : Record) (v : ℕ) → has_key v r.versions ≡ is_live ((abs r).cell v)
unfolding abs
has_key-abs r v = ground arith

pub holds_latest-abs :
    (r : Record) (value : Bytes) → holds_latest r value ≡ holds ((abs r).cell (abs r).latest) value
unfolding holds_latest abs
holds_latest-abs r value = ground arith

pub latest-abs : (r : Record) → (abs r).latest ≡ r.latest
unfolding abs
latest-abs r = refl

pub active-abs : (r : Record) → (abs r).active ≡ r.active
unfolding abs
active-abs r = refl

pub abs-set_active : (r : Record) (v : ℕ) → abs (set_active r v) ≡ record (abs r) { active = v }
unfolding abs
abs-set_active r v = refl

-- Forms of one record stand for one secret.
pub abs-SameRecord : (r t : Record) → SameRecord r t → abs t ≡ abs r
unfolding abs is_claimed
abs-SameRecord r t h =
    secret_ext _ _ (λ k. ground (arith, h.versions k, h.claimed k)) h.active h.latest
