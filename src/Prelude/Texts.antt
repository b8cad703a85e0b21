-- ===== src/Prelude/Texts.antt =====
-- Go's tests on strings.
use mathlib.Core.Bool.{Bool, true, false, ◌&&◌, ◌||◌}
use mathlib.Core.List.{[], ◌∷◌}
use ts1p.Prelude.Tests.{eqb}
use ts1p.Prelude.Equality.{Bytes}

-- strings.HasPrefix(s, prefix)
unfoldable pub has_prefix : Bytes → Bytes → Bool
has_prefix [] s = true
has_prefix (p ∷ prefix) [] = false
has_prefix (p ∷ prefix) (b ∷ s) = eqb p b && has_prefix prefix s

-- strings.Contains
unfoldable pub has_infix : Bytes → Bytes → Bool
has_infix s [] = has_prefix s []
has_infix s (c ∷ cs) = has_prefix s (c ∷ cs) || has_infix s cs
