-- ===== src/OnePassword/Titles.antt =====
-- backend/onepassword/onepassword.go: from the titles of a vault's items to their IDs.
use ts1p.Prelude.{
  ℕ, ◌+◌, ◌<◌, ◌≡◌, refl, ap, ◌∙◌, inl, inr, Bool, true, false, Bool-cases, Option, none, some,
  List, [], ◌∷◌, if◌then◌else◌, eqb, is_some, Bytes, bytes_eq, bytes_eq_iff, bytes_eq_eq, Map, keys,
  lookup, has_key, put, delete, contains, lookup-put, lookup-delete, contains-keys, arith,
}

-- op.ItemOverview, with the fields that the code reads
pub record Overview : Type 0 where
  pub title : Bytes
  pub id : Bytes

-- The maps `ids` and `dup` of rememberIDs.
pub record Memo : Type 0 where
  pub ids : Map Bytes Bytes
  pub dup : Map Bytes Bool

abbrev pub no_titles : Memo
no_titles = record { ids = []; dup = [] }

pub note_title : Overview → Memo → Memo
note_title o m = record {
  ids = put o.title o.id m.ids;
  dup = if has_key o.title m.ids then put o.title true m.dup else m.dup;
}

pub note_titles : List Overview → Memo → Memo
note_titles [] m = m
note_titles (o ∷ os) m = note_titles os (note_title o m)

pub drop_titles : List Bytes → Map Bytes Bytes → Map Bytes Bytes
drop_titles [] ids = ids
drop_titles (t ∷ ts) ids = drop_titles ts (delete t ids)

unfoldable pub remember_ids : List Overview → Map Bytes Bytes
unfolding note_title note_titles drop_titles
remember_ids os = let m = note_titles os no_titles in drop_titles (keys m.dup) m.ids

-- The loop of resolveID: the ID of the last item with the title, and how many there are.
unfoldable pub count_one : Bytes → Overview → Bytes × ℕ → Bytes × ℕ
count_one name o (id, n) = if bytes_eq o.title name then (o.id, n + 1) else (id, n)

unfoldable pub count_titled : Bytes → List Overview → Bytes × ℕ → Bytes × ℕ
count_titled name [] p = p
count_titled name (o ∷ os) p = count_titled name os (count_one name o p)

unfoldable pub titled : Bytes → List Overview → Bytes × ℕ
unfolding count_titled count_one
titled name os = count_titled name os ([], 0)

-- The ID, if exactly one item has the title.
abbrev pub sole_id : Bytes × ℕ → Option Bytes
sole_id (id, n) = if eqb n 1 then some id else none

module _ (name : Bytes) where
  -- What the memo knows of the title after as many items as `p` counts.
  data Tracks (m : Memo) (p : Bytes × ℕ) : Type 0 where
    unseen : lookup name m.ids ≡ none → lookup name m.dup ≡ none → p.1 ≡ 0 → Tracks m p
    once : lookup name m.ids ≡ some p.0 → lookup name m.dup ≡ none → p.1 ≡ 1 → Tracks m p
    often :
        (t : Bool)
        → is_some (lookup name m.ids) ≡ true
        → lookup name m.dup ≡ some t
        → 1 < p.1
        → Tracks m p

  put-at :
      {A : Type 0} (t : Bytes) (x : A) (m : Map Bytes A)
      → bytes_eq t name ≡ true
      → lookup name (put t x m) ≡ some x
  put-at t x m h = rw (lookup-put, h)

  put-beside :
      {A : Type 0} (t : Bytes) (x : A) (m : Map Bytes A)
      → bytes_eq t name ≡ false
      → lookup name (put t x m) ≡ lookup name m
  put-beside t x m h = rw (lookup-put, h)

  put-beside_if :
      (c : Bool) (t : Bytes) (m : Map Bytes Bool)
      → bytes_eq t name ≡ false
      → lookup name (if c then put t true m else m) ≡ lookup name m
  put-beside_if true t m h = put-beside t true m h
  put-beside_if false t m h = refl

  put-at_if :
      (c : Bool) (t : Bytes) (m : Map Bytes Bool)
      → bytes_eq t name ≡ true
      → c ≡ true
      → lookup name (if c then put t true m else m) ≡ some true
  put-at_if true t m h e = put-at t true m h
  put-at_if false t m h e = absurd (cc)

  if-false : {A : Type 0} (c : Bool) (x y z : A) → c ≡ false → y ≡ z → (if c then x else y) ≡ z
  if-false true x y z h e = absurd (cc)
  if-false false x y z h e = e

  same-Tracks :
      (o : Overview) (m : Memo) (p : Bytes × ℕ)
      → bytes_eq o.title name ≡ true
      → has_key o.title m.ids ≡ is_some (lookup name m.ids)
      → Tracks m p
      → Tracks (note_title o m) (o.id, p.1 + 1)
  unfolding note_title
  same-Tracks o m (id, n) h k (Tracks.unseen a d z) =
      Tracks.once (put-at o.title o.id m.ids h)
        (ap (lookup name) (if-false _ (put o.title true m.dup) m.dup m.dup (k ∙ ap is_some a) refl)
          ∙ d)
        (ground arith)
  same-Tracks o m (id, n) h k (Tracks.once a d z) =
      Tracks.often true (ap is_some (put-at o.title o.id m.ids h))
        (put-at_if _ o.title m.dup h (k ∙ ap is_some a)) (ground arith)
  same-Tracks o m (id, n) h k (Tracks.often t a d z) =
      Tracks.often true (ap is_some (put-at o.title o.id m.ids h))
        (put-at_if _ o.title m.dup h (k ∙ a)) (ground arith)

  other-Tracks :
      (o : Overview) (m : Memo) (p : Bytes × ℕ)
      → bytes_eq o.title name ≡ false
      → Tracks m p
      → Tracks (note_title o m) p
  unfolding note_title
  other-Tracks o m p h (Tracks.unseen a d z) =
      Tracks.unseen (put-beside o.title o.id m.ids h ∙ a) (put-beside_if _ o.title m.dup h ∙ d) z
  other-Tracks o m p h (Tracks.once a d z) =
      Tracks.once (put-beside o.title o.id m.ids h ∙ a) (put-beside_if _ o.title m.dup h ∙ d) z
  other-Tracks o m p h (Tracks.often t a d z) =
      Tracks.often t (ap is_some (put-beside o.title o.id m.ids h) ∙ a)
        (put-beside_if _ o.title m.dup h ∙ d) z

  step-Tracks :
      (o : Overview) (m : Memo) (p : Bytes × ℕ)
      → Tracks m p
      → Tracks (note_title o m) (count_one name o p)
  unfolding count_one
  step-Tracks o m (id, n) t = elim (Bool-cases (bytes_eq o.title name)) [
    | inl h ↦ rw h (
        same-Tracks o m (id, n) h
          (ap (λ k. is_some (lookup k m.ids)) ((bytes_eq_iff o.title name).0 h)) t)
    | inr h ↦ rw h (other-Tracks o m (id, n) h t)
  ]

  all-Tracks :
      (os : List Overview) (m : Memo) (p : Bytes × ℕ)
      → Tracks m p
      → Tracks (note_titles os m) (count_titled name os p)
  unfolding note_titles count_titled
  all-Tracks [] m p t = t
  all-Tracks (o ∷ os) m p t =
      all-Tracks os (note_title o m) (count_one name o p) (step-Tracks o m p t)

  lookup-drop_titles :
      (ts : List Bytes) (ids : Map Bytes Bytes)
      → lookup name (drop_titles ts ids) ≡ (if contains name ts then none else lookup name ids)
  unfolding drop_titles contains
  lookup-drop_titles [] ids = refl
  lookup-drop_titles (t ∷ ts) ids =
      ground (arith, lookup-drop_titles ts (delete t ids), lookup-delete t name ids)

  kept-Tracks :
      (m : Memo) (p : Bytes × ℕ)
      → Tracks m p
      → (if has_key name m.dup then none else lookup name m.ids) ≡ sole_id p
  kept-Tracks m (id, n) (Tracks.unseen a d z) = rw (d, a, z)
  kept-Tracks m (id, n) (Tracks.once a d z) = rw (d, a, z)
  kept-Tracks m (id, n) (Tracks.often t a d z) = rw d (ground arith)

  -- After a listing, the memo holds a name exactly if one item, and no more, has it as its title, and
  -- then its ID: so that a memoised name is what resolveID would answer, and a duplicated title never
  -- is memoised.
  pub remember_ids-titled :
      (os : List Overview) → lookup name (remember_ids os) ≡ sole_id (titled name os)
  unfolding remember_ids titled lookup
  remember_ids-titled os =
      let m = note_titles os no_titles in
      lookup-drop_titles (keys m.dup) m.ids
      ∙ ap (λ (c : Bool). if c then none else lookup name m.ids) (contains-keys name m.dup)
      ∙ kept-Tracks m _ (all-Tracks os no_titles ([], 0) (Tracks.unseen refl refl refl))
