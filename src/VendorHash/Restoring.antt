-- ===== src/VendorHash/Restoring.antt =====
-- cmd/vendorhash/main.go: what a run leaves in the file.
use ts1p.Prelude.{
  ℕ, ◌≡◌, ◌⊎◌, refl, sym, ap, ◌∙◌, inl, inr, Bool, true, false, Bool-cases, Option, none, some,
  List, ◌++◌, Bytes, bytes_eq, arith,
}
use mathlib.Core.Option.{some-injective}
use ts1p.Errors.{Result, ok, err}
use ts1p.Exec.{lift, continue, ◌>>◌}
use ts1p.VendorHash.{
  Machine, Formats, fake_hash, newline, mode, read, store, built, restored, compute, stored,
  compared, with_current, run_mode, run,
}

-- What the tool relies on: a read tells what the file holds and changes nothing, a write that succeeds
-- replaces it, and the build leaves it alone. A write that fails may leave anything.
pub record IsMachine {F : Type 0} (m : Machine F) : Type 1 where
  pub view : F → Option Bytes
  pub read_same : (s : F) → view (m.read_file s).1 ≡ view s
  pub read_ok : (s : F) (b : Bytes) → (m.read_file s).0 ≡ ok b → view s ≡ some b
  pub write_ok :
      (b : Bytes) (s : F) → (m.write_file b s).0 ≡ ok tt → view (m.write_file b s).1 ≡ some b
  pub build_same : (s : F) → view (m.build s).1 ≡ view s

module _ {F : Type 0} (m : Machine F) (formats : Formats) (law : IsMachine m) where
  open law use {view}

  -- What was in the file can be written back.
  pub record IsRestorable (s : F) : Type 0 where
    pub back : (b : Bytes) (t : F) → view s ≡ some b → (m.write_file b t).0 ≡ ok tt

  restored-view :
      (s : F) (b : Bytes) (x : Result Bytes × F)
      → IsRestorable s
      → view s ≡ some b
      → view (restored m formats b x).1 ≡ view s
  unfolding restored
  restored-view s b (x, t) h e = law.write_ok b t (h.back b t e) ∙ sym e

  IsRestorable-later : (s t : F) → view t ≡ view s → IsRestorable s → IsRestorable t
  IsRestorable-later s t e h = record { back = λ b u p. h.back b u (sym e ∙ p) }

  module _ (s : F) (h : IsRestorable s) where
    compute_read :
        (canceled : Bool) (x : Result Bytes × F)
        → ((b : Bytes) → x.0 ≡ ok b → view s ≡ some b)
        → view x.1 ≡ view s
        → view
            (continue
              (λ original t.
                restored m formats original
                  ((store m formats fake_hash >> λ u. built m formats canceled (m.build u)) t))
              x).1
          ≡ view s
    compute_read canceled (ok original, t) p e = restored-view s original _ h (p original refl)
    compute_read canceled (err f, t) p e = e

    compute-view : (canceled : Bool) → view (compute m formats canceled s).1 ≡ view s
    unfolding compute
    compute-view canceled = compute_read canceled (m.read_file s) (law.read_ok s) (law.read_same s)

  read_from :
      (s : F) (x : Result Bytes × F)
      → view x.1 ≡ view s
      → view (continue (λ b. lift (formats.unmarshal b)) x).1 ≡ view s
  read_from s (ok b, t) e = e
  read_from s (err f, t) e = e

  read-view : (s : F) → view (read m formats s).1 ≡ view s
  unfolding read
  read-view s = read_from s (m.read_file s) (law.read_same s)

  -- The file holds the hash that was computed, as JSON.
  pub record Holds (r : Result Bytes) (s : F) : Type 0 where
    pub hash : Bytes
    pub computed : r ≡ ok hash
    pub json : Bytes
    pub written : formats.marshal_indent hash ≡ ok json
    pub held : view s ≡ some (json ++ newline)

  stored_zero :
      (x : Result (Unit {0}) × F)
      → (stored m formats x).0 ≡ 0
      → (x.0 ≡ ok tt) × ((stored m formats x).1 ≡ x.1)
  unfolding stored
  stored_zero (ok u, s) p = (refl, refl)
  stored_zero (err e, s) p = absurd (ground arith)

  stored-Holds :
      (hash : Bytes) (s : F) (x : Result Bytes)
      → formats.marshal_indent hash ≡ x
      → (stored m formats (continue {A = Bytes} (λ b. m.write_file (b ++ newline)) (x, s))).0 ≡ 0
      → Holds
          (ok hash)
          (stored m formats (continue {A = Bytes} (λ b. m.write_file (b ++ newline)) (x, s))).1
  unfolding stored
  stored-Holds hash s (err f) e p = absurd (ground arith)
  stored-Holds hash s (ok b) e p =
      let q = stored_zero (m.write_file (b ++ newline) s) p in
      record {
        hash = hash;
        computed = refl;
        json = b;
        written = e;
        held = ap view q.1 ∙ law.write_ok _ s q.0;
      }

  -- What a run may leave.
  pub record Left (args : List Bytes) (canceled : Bool) (s : F) (x : ℕ × F) : Type 0 where
    pub misused : mode args ≡ none → x ≡ (2, s)
    pub checked : mode args ≡ some false → view x.1 ≡ view s
    pub updated :
        mode args ≡ some true
        → x.0 ≡ 0
        → (view x.1 ≡ view s) ⊎ Holds (compute m formats canceled (read m formats s).1).0 x.1

  module _ (s : F) where
    -- After the file was read, for an update or a check.
    record Compared (r : Result Bytes) (write : Bool) (x : ℕ × F) : Type 0 where
      checked : write ≡ false → view x.1 ≡ view s
      updated : x.0 ≡ 0 → (view x.1 ≡ view s) ⊎ Holds r x.1

    same-Compared :
        (r : Result Bytes) (write : Bool) (n : ℕ) (t : F)
        → view t ≡ view s
        → Compared r write (n, t)
    same-Compared r write n t e = record { checked = λ p. e; updated = λ p. inl e }

    compared-Compared :
        (write : Bool) (current : Bytes) (x : Result Bytes × F)
        → view x.1 ≡ view s
        → Compared x.0 write (compared m formats write current x)
    unfolding compared store
    compared-Compared write current (err f, t) e = same-Compared (err f) write 1 t e
    compared-Compared write current (ok computed, t) e =
        elim (Bool-cases (bytes_eq computed current)) [
          | inl same ↦ rw same (same-Compared (ok computed) write 0 t e)
          | inr other ↦ rw other (elim (Bool-cases write) [
            | inr off ↦ rw off (same-Compared (ok computed) false 1 t e)
            | inl on ↦ rw on (record {
              checked = λ p. absurd (cc);
              updated = λ p. inr (stored-Holds computed t _ refl p);
            })
          ])
        ]

    module _ (h : IsRestorable s) (canceled : Bool) where
      current-Compared :
          (write : Bool) (x : Result Bytes × F)
          → view x.1 ≡ view s
          → Compared
              (compute m formats canceled x.1).0
              write
              (with_current m formats write canceled x)
      unfolding with_current
      current-Compared write (err f, t) e = same-Compared _ write 1 t e
      current-Compared write (ok current, t) e =
          compared-Compared write current _
            (compute-view t (IsRestorable-later s t e h) canceled ∙ e)

      mode-Left :
          (args : List Bytes) (o : Option Bool)
          → mode args ≡ o
          → Left args canceled s (run_mode m formats o canceled s)
      unfolding run_mode
      mode-Left args none e = record {
        misused = λ p. refl;
        checked = λ p. absurd (cc);
        updated = λ p. absurd (cc);
      }
      mode-Left args (some write) e =
          let c = current-Compared write (read m formats s) (read-view s) in
          record {
            misused = λ p. absurd (cc);
            checked = λ p. c.checked (some-injective _ _ (sym e ∙ p));
            updated = λ p. c.updated;
          }

      -- If what was in the file can be written back: a wrong usage touches nothing and exits with 2; a check leaves the file as
      -- it was, however the build, the formats, the other writes and a cancellation go; and an update that exits with 0 leaves
      -- it as it was or with the JSON of the hash that was computed.
      pub run-Left : (args : List Bytes) → Left args canceled s (run m formats args canceled s)
      unfolding run
      run-Left args = mode-Left args (mode args) refl
