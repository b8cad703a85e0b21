-- ===== src/OnePassword/Sample/Codec.antt =====
-- A codec for tests, in place of JSON: lists of lists of numbers, each list with a zero behind it.
use ts1p.Prelude.{
  ℕ, zero, suc, ◌≡◌, refl, sym, ap, ◌∙◌, true, some, List, [], ◌∷◌, Bytes, text, nat_eq, Map,
  lookup,
}
use ts1p.Errors.{opaque, Result, ok, err}
use ts1p.OnePassword.Fields.{Text, Meta, versions_of}
use ts1p.OnePassword.Validity.{IsCodec}

closed : List ℕ → List ℕ → List ℕ
closed [] rest = 0 ∷ rest
closed (n ∷ x) rest = suc n ∷ closed x rest

encode : List (List ℕ) → List ℕ
unfolding closed
encode [] = []
encode (x ∷ xs) = closed x (encode xs)

grown : ℕ → List (List ℕ) → List (List ℕ)
grown n [] = (n ∷ []) ∷ []
grown n (x ∷ xs) = (n ∷ x) ∷ xs

decode : List ℕ → List (List ℕ)
unfolding grown
decode [] = []
decode (zero ∷ r) = [] ∷ decode r
decode (suc n ∷ r) = grown n (decode r)

decode-closed : (x r : List ℕ) → decode (closed x r) ≡ x ∷ decode r
unfolding decode closed grown
decode-closed [] r = refl
decode-closed (n ∷ x) r = ap (grown n) (decode-closed x r)

decode-encode : (xs : List (List ℕ)) → decode (encode xs) ≡ xs
unfolding decode encode
decode-encode [] = refl
decode-encode (x ∷ xs) = decode-closed x (encode xs) ∙ ap (λ ys. x ∷ ys) (decode-encode xs)

rows : Map ℕ Bytes → List (List ℕ)
rows [] = []
rows ((v, x) ∷ m) = (v ∷ x) ∷ rows m

from_rows : List (List ℕ) → Map ℕ Bytes
from_rows [] = []
from_rows ([] ∷ xs) = from_rows xs
from_rows ((v ∷ x) ∷ xs) = (v, x) ∷ from_rows xs

from_rows-rows : (m : Map ℕ Bytes) → from_rows (rows m) ≡ m
unfolding from_rows rows
from_rows-rows [] = refl
from_rows-rows ((v, x) ∷ m) = ap (λ ys. (v, x) ∷ ys) (from_rows-rows m)

table : Meta → List (List ℕ)
unfolding rows versions_of
table m = (m.active ∷ m.latest ∷ []) ∷ m.deleted ∷ rows (versions_of m.versions)

from_table : List (List ℕ) → Result Meta
unfolding from_rows
from_table ((a ∷ l ∷ []) ∷ d ∷ vs) =
    ok (record { active = a; latest = l; versions = some (from_rows vs); deleted = d })
from_table _ = err (opaque (text "invalid table"))

unfoldable pub codec : Text
unfolding encode table decode from_table
codec = record {
  marshal = λ m. ok (encode (table m));
  unmarshal = λ s. from_table (decode s);
  valid = λ s. true;
}

pub codec-IsCodec : IsCodec codec
unfolding codec table from_table versions_of
codec-IsCodec = record {
  reads = λ m s e. (
    record {
      active = m.active;
      latest = m.latest;
      versions = some (from_rows (rows (versions_of m.versions)));
      deleted = m.deleted;
    },
    ap (λ (x : Result Bytes). elim x [ ok t ↦ from_table (decode t) | err f ↦ err f ]) (sym e)
        ∙ ap from_table (decode-encode (table m)),
    record {
      active = refl;
      latest = refl;
      versions = λ v. ap (lookup v) (from_rows-rows (versions_of m.versions));
      deleted = λ v. refl;
    },
  );
}
