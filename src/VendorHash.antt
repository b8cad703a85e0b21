-- ===== src/VendorHash.antt =====
-- cmd/vendorhash/main.go: the tool that keeps vendorHash. The file system and `nix build` are an
-- interface; the regular expression, JSON and the cancellation of the context are arguments.
mod Restoring
mod Examples
use ts1p.Prelude.{
  ℕ, Bool, true, false, not, Option, none, some, List, [], ◌∷◌, ◌++◌, if◌then◌else◌, Bytes,
  bytes_eq, text,
}
use ts1p.Errors.{Sentinel, Result, ok, err, fail}
use ts1p.Exec.{Exec, lift, ◌>>=◌, ◌>>◌}

-- os.ReadFile and os.WriteFile on flakehashes.json, and the output of `nix build`.
pub record Machine (F : Type 0) : Type 0 where
  pub read_file : Exec F Bytes
  pub write_file : Bytes → Exec F (Unit {0})
  pub build : F → Bytes × F

-- The JSON of the one field, and the submatch of gotRE.
pub record Formats : Type 0 where
  pub unmarshal : Bytes → Result Bytes
  pub marshal_indent : Bytes → Result Bytes
  pub got : Bytes → Option Bytes

abbrev fake_hash : Bytes
fake_hash = text "sha256-AAAAAAAAAAAAAAAAAAAAAAAAAAAAAAAAAAAAAAAAAAA="

abbrev newline : Bytes
newline = 10 ∷ []

-- `write`, or a wrong usage
unfoldable mode : List Bytes → Option Bool
mode (program ∷ command ∷ []) =
    if bytes_eq command (text "check")
    then some false
    else if bytes_eq command (text "update")
    then some true
    else none
mode [] = none
mode (program ∷ []) = none
mode (program ∷ command ∷ more ∷ rest) = none

module _ {F : Type 0} (m : Machine F) (formats : Formats) where
  unfoldable read : Exec F Bytes
  read = m.read_file >>= λ b. lift (formats.unmarshal b)

  unfoldable store : Bytes → Exec F (Unit {0})
  store hash = lift (formats.marshal_indent hash) >>= λ b. m.write_file (b ++ newline)

  unfoldable built : Bool → Bytes × F → Result Bytes × F
  built canceled (out, s) =
      if canceled
      then (fail Sentinel.canceled, s)
      else (elim (formats.got out) [ none ↦ fail Sentinel.no_got_hash | some hash ↦ ok hash ], s)

  -- The deferred restore, whose failure is printed only.
  unfoldable restored : Bytes → Result Bytes × F → Result Bytes × F
  restored original (x, s) = (x, (m.write_file original s).1)

  unfoldable compute : Bool → Exec F Bytes
  unfolding restored built store
  compute canceled = m.read_file >>= λ original s.
      restored original ((store fake_hash >> λ t. built canceled (m.build t)) s)

  -- The exit code of what follows the two reads, and of the write.
  unfoldable stored : Result (Unit {0}) × F → ℕ × F
  stored (ok u, s) = (0, s)
  stored (err e, s) = (1, s)

  unfoldable compared : Bool → Bytes → Result Bytes × F → ℕ × F
  unfolding stored store
  compared write current (err e, s) = (1, s)
  compared write current (ok computed, s) =
      if bytes_eq computed current
      then (0, s)
      else if not write
      then (1, s)
      else stored (store computed s)

  unfoldable with_current : Bool → Bool → Result Bytes × F → ℕ × F
  unfolding compared compute
  with_current write canceled (err e, s) = (1, s)
  with_current write canceled (ok current, s) = compared write current (compute canceled s)

  unfoldable run_mode : Option Bool → Bool → F → ℕ × F
  unfolding with_current read
  run_mode none canceled s = (2, s)
  run_mode (some write) canceled s = with_current write canceled (read s)

  unfoldable run : List Bytes → Bool → F → ℕ × F
  unfolding run_mode mode
  run args canceled s = run_mode (mode args) canceled s
