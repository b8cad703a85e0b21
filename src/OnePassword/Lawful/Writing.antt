-- ===== src/OnePassword/Lawful/Writing.antt =====
-- backend/onepassword/onepassword.go: what a write may come to over a vault that is the backend's own.
use ts1p.Prelude.{
  ap, ◌∙◌, ◌⊎◌, inl, inr, Option, some, List, if◌then◌else◌, Bytes, bytes_eq, bytes_eq_eq,
}
use ts1p.Errors.{Error, Result, ok, err}
use ts1p.Backend.{Record, Stored, Unchanged}
use ts1p.OnePassword.{Items, OnePassword}
use ts1p.OnePassword.Fields.{Text, Item, ItemField}
use ts1p.OnePassword.Vault.{IsVault}
use ts1p.OnePassword.Lawful.{IsRight}
use ts1p.OnePassword.Lawful.Rendering.{Rendered}
use ts1p.OnePassword.Lawful.Finding.{IsStill}
use ts1p.OnePassword.Lawful.Loading.{view, view-same}

-- The fields that record_to_fields made for `r`.
abbrev pub IsFor : Text → Record → Bytes → List ItemField → Type 0
IsFor json r name fields = (item : Item) → Rendered json name r fields item

module _ {V : Type 0} (items : Items V) (json : Text) (law : IsVault items) where
  -- What a write of `r` under `name` from a state of these records leaves, and what it tells.
  abbrev pub Outcome :
      (Bytes → Option Record)
      → Bytes
      → Record
      → (Bytes → Option Record)
      → Result (Unit {0})
      → Type 0
  Outcome before name r after (ok u) = Stored before name r after
  Outcome before name r after (err e) = Unchanged before after ⊎ Stored before name r after

  pub record Saved (s : OnePassword V) (name : Bytes) (r : Record)
      (x : Result (Unit {0}) × OnePassword V) : Type 0 where
    pub right : IsRight items json law x.1
    pub outcome : Outcome (view items json law s) name r (view items json law x.1) x.0

  pub unwritten :
      (s t : OnePassword V) (name : Bytes) (r : Record) (e : Error)
      → IsStill items json law s t
      → Saved s name r (err e, t)
  unwritten s t name r e st = record {
    right = st.right;
    outcome = inl (λ k. view-same items json law s t k (st.same k));
  }

  Stored-before :
      (f g h : Bytes → Option Record) (name : Bytes) (r : Record)
      → Unchanged f g
      → Stored g name r h
      → Stored f name r h
  Stored-before f g h name r u st = record {
    form = st.form;
    same = st.same;
    written = λ k. st.written k ∙ ap (λ o. if bytes_eq name k then some st.form else o) (u k);
  }

  later_Outcome :
      (f g h : Bytes → Option Record) (name : Bytes) (r : Record) (x : Result (Unit {0}))
      → Unchanged f g
      → Outcome g name r h x
      → Outcome f name r h x
  later_Outcome f g h name r (ok u) c o = Stored-before f g h name r c o
  later_Outcome f g h name r (err e) c (inl o) = inl (λ k. o k ∙ c k)
  later_Outcome f g h name r (err e) c (inr o) = inr (Stored-before f g h name r c o)

  -- A write after a computation that left every item.
  pub later_Saved :
      (s t : OnePassword V) (name : Bytes) (r : Record) (x : Result (Unit {0}) × OnePassword V)
      → IsStill items json law s t
      → Saved t name r x
      → Saved s name r x
  later_Saved s t name r (x, u) st w = record {
    right = w.right;
    outcome =
        later_Outcome _ _ _ name r x (λ k. view-same items json law s t k (st.same k)) w.outcome;
  }
