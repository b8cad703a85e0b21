-- ===== src/Store/Guards.antt =====
-- store/store.go: the reserved prefix, and `strings.CutPrefix`.
use ts1p.Prelude.{
  ◌≡◌, refl, true, false, Option, none, some, [], ◌∷◌, ◌++◌, if◌then◌else◌, eqb, Bytes, text,
  has_prefix, arith,
}

abbrev pub config_prefix : Bytes
config_prefix = text "_internal/"

-- strings.CutPrefix(s, prefix): what follows the prefix, if it is there
unfoldable pub cut_prefix : Bytes → Bytes → Option Bytes
cut_prefix [] s = some s
cut_prefix (p ∷ prefix) [] = none
cut_prefix (p ∷ prefix) (b ∷ s) = let rest = cut_prefix prefix s in if eqb p b then rest else none

-- The two guards agree on the names that they catch.
pub cut_prefix-none : (prefix s : Bytes) → has_prefix prefix s ≡ false → cut_prefix prefix s ≡ none
unfolding has_prefix cut_prefix
cut_prefix-none [] s h = cc
cut_prefix-none (p ∷ prefix) [] h = refl
cut_prefix-none (p ∷ prefix) (b ∷ s) h = ground (arith, cut_prefix-none prefix s)

pub cut_prefix-append : (prefix rest : Bytes) → cut_prefix prefix (prefix ++ rest) ≡ some rest
unfolding cut_prefix
cut_prefix-append [] rest = refl
cut_prefix-append (p ∷ prefix) rest = ground (arith, cut_prefix-append prefix rest)

pub has_prefix-append : (prefix rest : Bytes) → has_prefix prefix (prefix ++ rest) ≡ true
unfolding has_prefix
has_prefix-append [] rest = refl
has_prefix-append (p ∷ prefix) rest = ground (arith, has_prefix-append prefix rest)

pub cut_prefix-some :
    (prefix s : Bytes)
    → has_prefix prefix s ≡ true
    → (rest : Bytes) × (cut_prefix prefix s ≡ some rest) × (s ≡ prefix ++ rest)
unfolding has_prefix cut_prefix
cut_prefix-some [] s h = (s, refl, refl)
cut_prefix-some (p ∷ prefix) [] h = absurd (cc)
cut_prefix-some (p ∷ prefix) (b ∷ s) h =
    let (rest, cut, e) = cut_prefix-some prefix s (ground arith) in
    (rest, ground arith, ground arith)
