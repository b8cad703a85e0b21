-- ===== src/VendorHash/Examples.antt =====
-- cmd/vendorhash/main.go: a file whose writes all succeed.
use ts1p.Prelude.{refl, false, some, [], ◌∷◌, Bytes, text}
use ts1p.Errors.{ok}
use ts1p.VendorHash.{Machine, Formats, run}
use ts1p.VendorHash.Restoring.{IsMachine, IsRestorable, Left, run-Left}

abbrev disk : Machine Bytes
disk = record {
  read_file = λ s. (ok s, s);
  write_file = λ b s. (ok tt, b);
  build = λ s. (text "got: sha256-b", s);
}

disk-IsMachine : IsMachine disk
disk-IsMachine = record {
  view = λ s. some s;
  read_same = λ s. refl;
  read_ok = λ s b e. cc;
  write_ok = λ b s e. refl;
  build_same = λ s. refl;
}

-- A file that is the hash alone.
abbrev plain : Formats
plain = record {
  unmarshal = λ s. ok s;
  marshal_indent = λ h. ok h;
  got = λ out. some (text "sha256-b");
}

abbrev old : Bytes
old = text "sha256-a"

old-IsRestorable : IsRestorable disk plain disk-IsMachine old
old-IsRestorable = record { back = λ b t e. refl }

run-Left_example :
    Left disk plain disk-IsMachine
      (text "vendorhash" ∷ text "update" ∷ [])
      false
      old
      (run disk plain (text "vendorhash" ∷ text "update" ∷ []) false old)
run-Left_example =
    run-Left disk plain disk-IsMachine old old-IsRestorable false
      (text "vendorhash" ∷ text "update" ∷ [])
