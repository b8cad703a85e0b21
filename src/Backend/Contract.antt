-- ===== src/Backend/Contract.antt =====
-- backend/backend.go: the interface of a storage backend, and what its comments promise.
use ts1p.Prelude.{
  ℕ, ◌≡◌, refl, ◌⊎◌, Bool, true, false, Option, none, some, List, if◌then◌else◌, is_some, Bytes,
  bytes_eq, contains, bytes_eq_eq, nat_eq, lookup,
}
use ts1p.Errors.{Error, Sentinel, is, ok, err}
use ts1p.Exec.{Exec}
use ts1p.Backend.Records.{Record, is_claimed, Context}

-- The interface Backend, over the state `S` of an implementation.
pub record Backend (S : Type 0) : Type 0 where
  pub load : Context → Bytes → Exec S Record
  pub save : Context → Bytes → Record → Exec S (Unit {0})
  pub list : Context → Exec S (List Bytes)
  pub delete : Context → Bytes → Exec S (Unit {0})

-- What a backend holds after a write of `r` under `name`: `o` is what is held under it then.
abbrev pub Written :
    (Bytes → Option Record) → Bytes → Option Record → (Bytes → Option Record) → Type 0
Written before name o after = (k : Bytes) → after k ≡ (if bytes_eq name k then o else before k)

abbrev pub Unchanged : (Bytes → Option Record) → (Bytes → Option Record) → Type 0
Unchanged before after = (k : Bytes) → after k ≡ before k

-- Two records that tell the same: a storage may keep another form of a record than it was given.
pub record SameRecord (r t : Record) : Type 0 where
  pub versions : (v : ℕ) → lookup v t.versions ≡ lookup v r.versions
  pub active : t.active ≡ r.active
  pub latest : t.latest ≡ r.latest
  pub claimed : (v : ℕ) → is_claimed t v ≡ is_claimed r v

pub SameRecord-refl : (r : Record) → SameRecord r r
SameRecord-refl r = record {
  versions = λ v. refl;
  active = refl;
  latest = refl;
  claimed = λ v. refl;
}

-- A form of `r` is held under `name`, and nothing else has changed.
pub record Stored (before : Bytes → Option Record) (name : Bytes) (r : Record)
    (after : Bytes → Option Record) : Type 0 where
  pub form : Record
  pub same : SameRecord r form
  pub written : Written before name (some form) after

pub Stored-exact :
    (before : Bytes → Option Record) (name : Bytes) (r : Record) (after : Bytes → Option Record)
    → Written before name (some r) after
    → Stored before name r after
Stored-exact before name r after w = record { form = r; same = SameRecord-refl r; written = w }

-- The contract. `view` is what the storage holds; `current` tells for which contexts a read
-- returns what is held now. A write that fails may have taken effect, as a request that timed out.
pub record IsLawful {S : Type 0} (b : Backend S) : Type 1 where
  pub Inv : S → Type 0
  pub view : S → Bytes → Option Record
  pub current : Context → Bool
  pub current_of_force : (ctx : Context) → ctx.force ≡ true → current ctx ≡ true
  pub load_inv : (ctx : Context) (n : Bytes) (s : S) → Inv s → Inv (b.load ctx n s).1
  pub save_inv : (ctx : Context) (n : Bytes) (r : Record) (s : S) → Inv s → Inv (b.save ctx n r s).1
  pub list_inv : (ctx : Context) (s : S) → Inv s → Inv (b.list ctx s).1
  pub delete_inv : (ctx : Context) (n : Bytes) (s : S) → Inv s → Inv (b.delete ctx n s).1
  pub load_view : (ctx : Context) (n : Bytes) (s : S) → Unchanged (view s) (view (b.load ctx n s).1)
  pub list_view : (ctx : Context) (s : S) → Unchanged (view s) (view (b.list ctx s).1)
  pub load_ok :
      (ctx : Context) (n : Bytes) (s : S) (r : Record)
      → Inv s
      → current ctx ≡ true
      → (b.load ctx n s).0 ≡ ok r
      → view s n ≡ some r
  pub load_not_found :
      (ctx : Context) (n : Bytes) (s : S) (e : Error)
      → Inv s
      → current ctx ≡ true
      → (b.load ctx n s).0 ≡ err e
      → is e Sentinel.backend_not_found ≡ true
      → view s n ≡ none
  -- setec's not-found is none of a backend's errors
  pub load_api :
      (ctx : Context) (n : Bytes) (s : S) (e : Error)
      → Inv s
      → (b.load ctx n s).0 ≡ err e
      → is e Sentinel.api_not_found ≡ false
  pub save_ok :
      (ctx : Context) (n : Bytes) (r : Record) (s : S)
      → Inv s
      → (b.save ctx n r s).0 ≡ ok tt
      → Stored (view s) n r (view (b.save ctx n r s).1)
  pub save_err :
      (ctx : Context) (n : Bytes) (r : Record) (s : S) (e : Error)
      → Inv s
      → (b.save ctx n r s).0 ≡ err e
      → Unchanged (view s) (view (b.save ctx n r s).1)
        ⊎ Stored (view s) n r (view (b.save ctx n r s).1)
  pub delete_ok :
      (ctx : Context) (n : Bytes) (s : S)
      → Inv s
      → (b.delete ctx n s).0 ≡ ok tt
      → Written (view s) n none (view (b.delete ctx n s).1)
  pub delete_err :
      (ctx : Context) (n : Bytes) (s : S) (e : Error)
      → Inv s
      → (b.delete ctx n s).0 ≡ err e
      → Unchanged (view s) (view (b.delete ctx n s).1)
        ⊎ Written (view s) n none (view (b.delete ctx n s).1)
  pub list_ok :
      (ctx : Context) (s : S) (names : List Bytes)
      → Inv s
      → current ctx ≡ true
      → (b.list ctx s).0 ≡ ok names
      → (k : Bytes) → contains k names ≡ is_some (view s k)
