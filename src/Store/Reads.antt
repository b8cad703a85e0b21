-- ===== src/Store/Reads.antt =====
-- store/store.go: what the reads of one secret return.
use ts1p.Prelude.{
  ℕ, ◌≡◌, refl, sym, ap, ◌∙◌, inl, inr, true, Bool-cases, Option, none, some, if◌then◌else◌, eqb,
  Bytes, lookup, has_key, nat_eq, nat_ord, IsSorted, contains, keys, sort-IsSorted, contains-sort,
  contains-keys, Option-cases,
}
use ts1p.Errors.{Sentinel, Result, ok, err, fail}
use ts1p.Exec.{Exec, lift, ◌>>=◌}
use ts1p.Backend.{Record, Context, Backend, IsLawful, deleted_set}
use ts1p.Store.{SecretValue, info, load, value_at, active, get, get_version}
use ts1p.Store.Model.{Cell, live, Secret, is_live}
use ts1p.Store.Abstraction.{abs, abs?, has_key-abs, active-abs}
use ts1p.Store.Access.{loaded}
use ts1p.Store.Refinement.{Outcome, done, failed, by_load, Moves-stay}

abbrev pub in_cell : Sentinel → ℕ → Cell → Result SecretValue
in_cell missing v (live x) = ok (record { value = x; version = v })
in_cell missing v _ = fail missing

-- The answer to a request for the active version.
pub get_answer : Option Secret → Result SecretValue
get_answer none = fail Sentinel.api_not_found
get_answer (some a) = in_cell Sentinel.unexpected_no_active a.active (a.cell a.active)

abbrev unless_held : ℕ → Result SecretValue → Result SecretValue
unless_held old (ok sv) = if eqb sv.version old then fail Sentinel.value_not_changed else ok sv
unless_held old (err e) = err e

-- The answer unless the client has that version already.
pub conditional_answer : Option Secret → ℕ → Result SecretValue
conditional_answer o old = unless_held old (get_answer o)

pub version_answer : Option Secret → ℕ → Result SecretValue
version_answer none v = fail Sentinel.api_not_found
version_answer (some a) v = in_cell Sentinel.api_not_found v (a.cell v)

value_at-abs :
    (missing : Sentinel) (r : Record) (v : ℕ)
    → value_at missing v (lookup v r.versions) ≡ in_cell missing v ((abs r).cell v)
unfolding value_at abs
value_at-abs missing r v = elim (Option-cases (lookup v r.versions)) [
  | inr (x, e) ↦ rw e
  | inl e ↦ rw e (elim (Bool-cases (has_key v (deleted_set r))) [ inl d ↦ rw d | inr d ↦ rw d ])
]

active-eq : (r : Record) → active r ≡ get_answer (some (abs r))
unfolding active get_answer abs
active-eq r = value_at-abs Sentinel.unexpected_no_active r r.active

module _ {S : Type 0} (b : Backend S) (law : IsLawful b) (ctx : Context) (n : Bytes) (s : S) where
  open law use {Inv, view, current}

  -- Reads that go on without the storage once they have the record.
  read-Outcome :
      {A : Type 0} (g : Record → Exec S A) (answer : Option Secret → Result A)
      → ((r : Record) (t : S) → g r t ≡ (answer (some (abs r)), t))
      → answer none ≡ fail Sentinel.api_not_found
      → Inv s
      → current ctx ≡ true
      → Outcome b law n s (answer (abs? (view s n))) (abs? (view s n)) ((load b ctx n >>= g) s)
  read-Outcome g answer present absent inv now =
      let s1 = (b.load ctx n s).1 in
      let u = law.load_view ctx n s in
      let i = law.load_inv ctx n s inv in
      elim (loaded b law ctx n s inv now) [
        | inl (r, q, p) ↦
            rw (q, p) (rw (present r s1) (done _ refl (Moves-stay b law n s s1 _ u (ap abs? p)) i))
        | inr (inl (q, p)) ↦
            rw (q, p) (done _ (sym absent) (Moves-stay b law n s s1 _ u (ap abs? p)) i)
        | inr (inr (e, q, a, m, l)) ↦ rw q (failed _ e refl (by_load ctx n s l m a) u i)
      ]

  module _ (inv : Inv s) (now : current ctx ≡ true) where
    -- Get in a context whose reads are current serves the active version of the secret that is stored,
    -- answers not found if there is none, or returns an error of the backend. Nothing changes.
    pub get-Outcome :
        Outcome b law n s (get_answer (abs? (view s n))) (abs? (view s n)) (get b ctx n s)
    unfolding get get_answer active
    get-Outcome =
        read-Outcome (λ r. lift (active r)) get_answer (λ r t i. (active-eq r i, t)) refl inv now

    -- GetVersion in a context whose reads are current serves the version that is asked for if it is
    -- live, answers not found if it is not, or returns an error of the backend. Nothing changes.
    pub get_version-Outcome :
        (v : ℕ)
        → Outcome b law n s
            (version_answer (abs? (view s n)) v)
            (abs? (view s n))
            (get_version b ctx n v s)
    unfolding get_version version_answer
    get_version-Outcome v =
        read-Outcome (λ r. lift (value_at Sentinel.api_not_found v (lookup v r.versions)))
          (λ o. version_answer o v) (λ r t i. (value_at-abs Sentinel.api_not_found r v i, t)) refl
          inv now

-- The metadata of a record names its active version and exactly its live versions, in order.
pub info_lem :
    (r : Record)
    → ((info r).active_version ≡ (abs r).active)
      × IsSorted (info r).versions
      × ((v : ℕ) → contains v (info r).versions ≡ is_live ((abs r).cell v))
unfolding info
info_lem r = (
  sym (active-abs r),
  sort-IsSorted (keys r.versions),
  λ v. contains-sort v (keys r.versions) ∙ contains-keys v r.versions ∙ has_key-abs r v,
)
