-- ===== src/Store/History.antt =====
-- Store/Model over time: what holds of a secret whatever the writes were, and how a version ages.
use ts1p.Prelude.{
  ℕ, ◌≤◌, ◌<◌, ◌≡◌, inl, inr, true, false, Option, none, some, eqb, Bytes, Bool-cases, arith,
}
use ts1p.Store.Model.{
  Secret, only, is_live, is_unused, holds, put_next, create_next, activate_next,
  delete_version_next,
}

-- A write of a secret.
pub data Change : Type 0 where
  put : Bytes → Change
  create : ℕ → Bytes → Change
  activate : ℕ → Change
  delete_version : ℕ → Change
  delete : Change

unfoldable pub next : Change → Option Secret → Option Secret
next (put value) a = put_next a value
next (create v value) a = create_next a v value
next (activate v) a = activate_next a v
next (delete_version v) a = delete_version_next a v
next delete a = none

-- The active version is live, versions count from 1, and none is above the latest.
pub record IsSound (a : Secret) : Type 0 where
  pub active_live : is_live (a.cell a.active) ≡ true
  pub latest_claimed : is_unused (a.cell a.latest) ≡ false
  pub in_range : (v : ℕ) → is_unused (a.cell v) ≡ false → (0 < v) × (v ≤ a.latest)

abbrev pub Sound? : Option Secret → Type 0
Sound? none = Unit
Sound? (some a) = IsSound a

-- The code refuses version 0 before it looks at the secret.
abbrev pub IsPositive : Change → Type 0
IsPositive (create v value) = 0 < v
IsPositive _ = Unit

only-IsSound : (v : ℕ) (value : Bytes) → 0 < v → IsSound (only v value)
only-IsSound v value h = record {
  active_live = ground arith;
  latest_claimed = ground arith;
  in_range = λ k e. ground arith;
}

put-IsSound : (a : Secret) (value : Bytes) → IsSound a → Sound? (put_next (some a) value)
unfolding put_next
put-IsSound a value h = elim (Bool-cases (holds (a.cell a.latest) value)) [
  | inl e ↦ rw e h
  | inr e ↦ rw e (record {
    active_live = ground (arith, h.active_live, h.in_range a.active);
    latest_claimed = ground arith;
    in_range = λ k e. ground (arith, h.in_range k);
  })
]

create-IsSound :
    (a : Secret) (v : ℕ) (value : Bytes) → 0 < v → IsSound a → Sound? (create_next (some a) v value)
unfolding create_next
create-IsSound a v value p h = elim (Bool-cases (is_unused (a.cell v))) [
  | inr e ↦ rw e h
  | inl e ↦ rw e (record {
    active_live = ground arith;
    latest_claimed = ground (arith, h.latest_claimed);
    in_range = λ k e. ground (arith, h.in_range k);
  })
]

activate-IsSound : (a : Secret) (v : ℕ) → IsSound a → Sound? (activate_next (some a) v)
unfolding activate_next
activate-IsSound a v h = elim (Bool-cases (is_live (a.cell v))) [
  | inr e ↦ rw e h
  | inl e ↦
      rw e (record { active_live = e; latest_claimed = h.latest_claimed; in_range = h.in_range })
]

delete-IsSound : (a : Secret) (v : ℕ) → IsSound a → Sound? (delete_version_next (some a) v)
unfolding delete_version_next
delete-IsSound a v h = elim (Bool-cases (eqb v a.active)) [
  | inl e ↦ rw e h
  | inr e ↦ rw e (elim (Bool-cases (is_live (a.cell v))) [
    | inr d ↦ rw d h
    | inl d ↦ rw d (record {
      active_live = ground (arith, h.active_live);
      latest_claimed = ground (arith, h.latest_claimed);
      in_range = λ k u. ground (arith, h.in_range k);
    })
  ])
]

-- Every write keeps a sound secret sound.
pub next-IsSound : (c : Change) (a : Option Secret) → IsPositive c → Sound? a → Sound? (next c a)
unfolding next put_next create_next activate_next delete_version_next
next-IsSound (put value) none p h = only-IsSound 1 value (omega arith)
next-IsSound (put value) (some a) p h = put-IsSound a value h
next-IsSound (create v value) none p h = only-IsSound v value p
next-IsSound (create v value) (some a) p h = create-IsSound a v value p h
next-IsSound (activate v) none p h = tt
next-IsSound (activate v) (some a) p h = activate-IsSound a v h
next-IsSound (delete_version v) none p h = tt
next-IsSound (delete_version v) (some a) p h = delete-IsSound a v h
next-IsSound delete a p h = tt
