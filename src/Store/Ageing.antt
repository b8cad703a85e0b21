-- ===== src/Store/Ageing.antt =====
-- Store/Model over time: when one state of a secret may come after another.
use ts1p.Prelude.{
  ℕ, ◌+◌, ◌≤◌, ◌≡◌, refl, subst, ◌≢◌, ◌⊎◌, inl, inr, true, Option, none, some, eqb, Bool-cases,
  arith,
}
use ts1p.Store.Model.{
  Cell, unused, gone, live, Secret, set_cell, is_live, is_unused, holds, put_next, create_next,
  activate_next, delete_version_next,
}
use ts1p.Store.History.{
  Change, put, create, activate, delete_version, delete, next, IsSound, Sound?,
}

-- How a version may look later: a live value stays as it is or is deleted, a deleted one stays so.
abbrev pub Ages : Cell → Cell → Type 0
Ages unused later = Unit
Ages (live x) later = (later ≡ live x) ⊎ (later ≡ gone)
Ages gone later = later ≡ gone

abbrev pub Later : Option Secret → Option Secret → Type 0
Later none b = Unit
Later (some a) none = ⊥
Later (some a) (some b) = ((v : ℕ) → Ages (a.cell v) (b.cell v)) × (a.latest ≤ b.latest)

Ages-refl : (c : Cell) → Ages c c
Ages-refl unused = tt
Ages-refl (live x) = inl refl
Ages-refl gone = refl

Ages-trans : (c d e : Cell) → Ages c d → Ages d e → Ages c e
Ages-trans unused d e p q = tt
Ages-trans (live x) unused e p q = absurd (elim p [ inl u ↦ cc | inr u ↦ cc ])
Ages-trans (live x) (live y) e p q = ground arith
Ages-trans (live x) gone e p q = inr q
Ages-trans gone unused e p q = absurd (cc)
Ages-trans gone (live y) e p q = absurd (cc)
Ages-trans gone gone e p q = q

pub Later-refl : (a : Option Secret) → Later a a
Later-refl none = tt
Later-refl (some a) = (λ v. Ages-refl (a.cell v), omega arith)

pub Later-trans : (a b c : Option Secret) → Later a b → Later b c → Later a c
Later-trans none b c p q = tt
Later-trans (some a) none c p q = absurd p
Later-trans (some a) (some b) none p q = absurd q
Later-trans (some a) (some b) (some c) p q =
    (λ v. Ages-trans (a.cell v) (b.cell v) (c.cell v) (p.0 v) (q.0 v), omega arith)

Ages-fresh : (c d : Cell) → is_unused c ≡ true → Ages c d
Ages-fresh unused d h = tt
Ages-fresh gone d h = absurd (cc)
Ages-fresh (live x) d h = absurd (cc)

Ages-gone : (c : Cell) → Ages c gone
Ages-gone unused = tt
Ages-gone gone = refl
Ages-gone (live x) = inr refl

Ages-set :
    (cells : ℕ → Cell) (v : ℕ) (c : Cell)
    → Ages (cells v) c
    → (k : ℕ) → Ages (cells k) (set_cell v c cells k)
Ages-set cells v c h k = elim (Bool-cases (eqb v k)) [
  | inl e ↦ rw e (let p : v ≡ k = ground arith in subst (λ j. Ages (cells j) c) p h)
  | inr e ↦ rw e (Ages-refl (cells k))
]

above_latest : (a : Secret) → IsSound a → is_unused (a.cell (a.latest + 1)) ≡ true
above_latest a h = ground (arith, h.in_range (a.latest + 1))

-- A write other than the deletion of the whole secret lets every version age.
pub next-Later : (c : Change) (a : Option Secret) → c ≢ delete → Sound? a → Later a (next c a)
unfolding next put_next create_next activate_next delete_version_next
next-Later delete a n h = absurd (n refl)
next-Later (put value) none n h = tt
next-Later (create v value) none n h = tt
next-Later (activate v) none n h = tt
next-Later (delete_version v) none n h = tt
next-Later (put value) (some a) n h = elim (Bool-cases (holds (a.cell a.latest) value)) [
  | inl e ↦ rw e (Later-refl (some a))
  | inr e ↦ rw e (Ages-set a.cell (a.latest + 1) _ (Ages-fresh _ _ (above_latest a h)), omega arith)
]
next-Later (create v value) (some a) n h = elim (Bool-cases (is_unused (a.cell v))) [
  | inr e ↦ rw e (Later-refl (some a))
  | inl e ↦ rw e (Ages-set a.cell v _ (Ages-fresh _ _ e), omega arith)
]
next-Later (activate v) (some a) n h = elim (Bool-cases (is_live (a.cell v))) [
  | inr e ↦ rw e (Later-refl (some a))
  | inl e ↦ rw e (λ k. Ages-refl (a.cell k), omega arith)
]
next-Later (delete_version v) (some a) n h = elim (Bool-cases (eqb v a.active)) [
  | inl e ↦ rw e (Later-refl (some a))
  | inr e ↦ rw e (elim (Bool-cases (is_live (a.cell v))) [
    | inr d ↦ rw d (Later-refl (some a))
    | inl d ↦ rw d (Ages-set a.cell v gone (Ages-gone (a.cell v)), omega arith)
  ])
]
