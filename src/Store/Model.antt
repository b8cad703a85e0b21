-- ===== src/Store/Model.antt =====
-- What setec's semantics promise of one secret: each version is unused, live or gone, one version is
-- active, and the latest is the highest that was ever assigned. No maps and no storage.
use ts1p.Prelude.{
  ℕ, ◌+◌, max, Bool, true, false, Option, none, some, if◌then◌else◌, eqb, Bytes, bytes_eq,
}
use ts1p.Errors.{Sentinel, sentinel, wrap, Result, ok, err, fail}

pub data Cell : Type 0 where
  unused gone : Cell
  live : Bytes → Cell

pub record Secret : Type 0 where
  pub cell : ℕ → Cell
  pub active : ℕ
  pub latest : ℕ

abbrev pub set_cell : ℕ → Cell → (ℕ → Cell) → ℕ → Cell
set_cell v c cells k = if eqb v k then c else cells k

abbrev pub only : ℕ → Bytes → Secret
only v value = record { cell = set_cell v (live value) (λ k. unused); active = v; latest = v }

abbrev pub is_live : Cell → Bool
is_live (live x) = true
is_live _ = false

abbrev pub is_unused : Cell → Bool
is_unused unused = true
is_unused _ = false

abbrev pub holds : Cell → Bytes → Bool
holds (live x) value = bytes_eq x value
holds _ value = false

-- A write of a value: the first version, or the one after the latest unless that holds the value.
unfoldable pub put_answer : Option Secret → Bytes → Result ℕ
put_answer none value = ok 1
put_answer (some a) value = if holds (a.cell a.latest) value then ok a.latest else ok (a.latest + 1)

unfoldable pub put_next : Option Secret → Bytes → Option Secret
put_next none value = some (only 1 value)
put_next (some a) value =
    if holds (a.cell a.latest) value
    then some a
    else some
        (record a { cell = set_cell (a.latest + 1) (live value) a.cell; latest = a.latest + 1 })

-- The creation of a chosen version, which becomes the active one.
unfoldable pub create_answer : Option Secret → ℕ → Result (Unit {0})
create_answer none v = ok tt
create_answer (some a) v = if is_unused (a.cell v) then ok tt else fail Sentinel.version_claimed

unfoldable pub create_next : Option Secret → ℕ → Bytes → Option Secret
create_next none v value = some (only v value)
create_next (some a) v value =
    if is_unused (a.cell v)
    then some
        (record { cell = set_cell v (live value) a.cell; active = v; latest = max a.latest v })
    else some a

unfoldable pub activate_answer : Option Secret → ℕ → Result (Unit {0})
activate_answer none v = fail Sentinel.api_not_found
activate_answer (some a) v = if is_live (a.cell v) then ok tt else fail Sentinel.api_not_found

unfoldable pub activate_next : Option Secret → ℕ → Option Secret
activate_next none v = none
activate_next (some a) v = if is_live (a.cell v) then some (record a { active = v }) else some a

unfoldable pub delete_version_answer : Bytes → Bytes → Option Secret → ℕ → Result (Unit {0})
delete_version_answer name label none v = err (wrap name (sentinel Sentinel.api_not_found))
delete_version_answer name label (some a) v =
    if eqb v a.active
    then fail Sentinel.delete_active
    else if is_live (a.cell v)
    then ok tt
    else err (wrap label (sentinel Sentinel.api_not_found))

unfoldable pub delete_version_next : Option Secret → ℕ → Option Secret
delete_version_next none v = none
delete_version_next (some a) v =
    if eqb v a.active
    then some a
    else if is_live (a.cell v)
    then some (record a { cell = set_cell v gone a.cell })
    else some a
