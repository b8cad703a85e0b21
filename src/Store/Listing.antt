-- ===== src/Store/Listing.antt =====
-- store/store.go: `List`.
use ts1p.Prelude.{
  ◌≡◌, refl, sym, subst, ap, ◌∙◌, inl, inr, Bool, true, false, Bool-cases, Option, none, some, List,
  [], ◌∷◌, ◌++◌, Bytes, bytes_eq_eq, bytes_ord, IsSorted, sort, sort-IsSorted, contains,
  contains-sort, is_some,
}
use mathlib.Core.List.{append-nil, append_assoc}
use ts1p.Errors.{Error, Sentinel, is, Result, ok, err}
use ts1p.Exec.{Exec, handle, continue}
use ts1p.Backend.{Record, Context, Backend, IsLawful}
use ts1p.Store.{SecretInfo, info, list, list_from, after_read}

-- Backends that agree on the names and on the reads of the allowed ones.
module _ {S : Type 0} (b b' : Backend S) (ctx : Context) (allow : Bytes → Bool)
    (reads : (n : Bytes) (s : S) → allow n ≡ true → b.load ctx n s ≡ b'.load ctx n s) where
  list_from-same :
      (out : List SecretInfo) (names : List Bytes) (s : S)
      → list_from b ctx allow out names s ≡ list_from b' ctx allow out names s
  unfolding list_from
  list_from-same out [] s = refl
  list_from-same out (name ∷ names) s = elim (Bool-cases (allow name)) [
    | inr hidden ↦ rw hidden (list_from-same out names s)
    | inl allowed ↦ rw allowed λ i.
        handle
          (after_read (λ r t. list_from-same (out ++ info r ∷ []) names t i)
            (λ t. list_from-same out names t i))
          (reads name s allowed i)
  ]

  -- List reads no record of a name that is not allowed: over two backends that agree on the list of
  -- names and on the reads of the allowed ones, it has the same answer and the same state after it.
  pub list-same :
      ((s : S) → b.list ctx s ≡ b'.list ctx s) → (s : S) → list b ctx allow s ≡ list b' ctx allow s
  unfolding list
  list-same names s = λ i. continue (λ l t. list_from-same [] (sort l) t i) (names s i)

-- A row before those that the rest of the loop shows.
abbrev pub row_before : SecretInfo → Result (List SecretInfo) → Result (List SecretInfo)
row_before row (ok rows) = ok (row ∷ rows)
row_before row (err e) = err e

abbrev rows_before : List SecretInfo → Result (List SecretInfo) → Result (List SecretInfo)
rows_before out (ok rows) = ok (out ++ rows)
rows_before out (err e) = err e

row_by_row :
    (out : List SecretInfo) (row : SecretInfo) (x : Result (List SecretInfo))
    → rows_before (out ++ row ∷ []) x ≡ rows_before out (row_before row x)
row_by_row out row (ok rows) = ap ok (append_assoc out (row ∷ []) rows)
row_by_row out row (err e) = refl

no_rows : (x : Result (List SecretInfo)) → rows_before [] x ≡ x
no_rows (ok rows) = refl
no_rows (err e) = refl

module _ {S : Type 0} (b : Backend S) (law : IsLawful b) (ctx : Context)
    (allow : Bytes → Bool) where
  open law use {Inv, view, current}

  -- What the listing of these names comes to, where `held` is what the storage holds.
  pub data Shows (held : Bytes → Option Record)
      : List Bytes → Result (List SecretInfo) → Type 0 where
    over : Shows held [] (ok [])
    hidden :
        (name : Bytes) (names : List Bytes) (x : Result (List SecretInfo))
        → allow name ≡ false
        → Shows held names x
        → Shows held (name ∷ names) x
    shown :
        (name : Bytes) (names : List Bytes) (x : Result (List SecretInfo)) (r : Record)
        → allow name ≡ true
        → held name ≡ some r
        → Shows held names x
        → Shows held (name ∷ names) (row_before (info r) x)
    absent :
        (name : Bytes) (names : List Bytes) (x : Result (List SecretInfo))
        → allow name ≡ true
        → held name ≡ none
        → Shows held names x
        → Shows held (name ∷ names) x
    unreadable :
        (name : Bytes) (names : List Bytes) (x : Result (List SecretInfo)) (s : S) (e : Error)
        → allow name ≡ true
        → (b.load ctx name s).0 ≡ err e
        → is e Sentinel.backend_not_found ≡ false
        → is e Sentinel.unavailable ≡ false
        → Shows held names x
        → Shows held (name ∷ names) x
    outage :
        (name : Bytes) (names : List Bytes) (s : S) (e : Error)
        → allow name ≡ true
        → (b.load ctx name s).0 ≡ err e
        → is e Sentinel.backend_not_found ≡ false
        → is e Sentinel.unavailable ≡ true
        → Shows held (name ∷ names) (err e)

  module _ (now : current ctx ≡ true) (held : Bytes → Option Record) where
    -- The loop shows this after the rows that it has.
    abbrev Walks : List SecretInfo → List Bytes → Result (List SecretInfo) → Type 0
    Walks out names x =
        (y : Result (List SecretInfo)) × Shows held names y × (x ≡ rows_before out y)

    read-Walks :
        (out : List SecretInfo) (name : Bytes) (names : List Bytes) (s : S)
        (keep : Record → Exec S (List SecretInfo)) (skip : Exec S (List SecretInfo))
        (x : Result Record)
        → (b.load ctx name s).0 ≡ x
        → allow name ≡ true
        → Inv s
        → ((k : Bytes) → view s k ≡ held k)
        → ((r : Record) → Walks (out ++ info r ∷ []) names (keep r (b.load ctx name s).1).0)
        → Walks out names (skip (b.load ctx name s).1).0
        → Walks out (name ∷ names) (handle (after_read keep skip) (b.load ctx name s)).0
    unfolding after_read
    read-Walks out name names s keep skip (ok r) e allowed inv same k n =
        let p : held name ≡ some r = sym (same name) ∙ law.load_ok ctx name s r inv now e in
        let (y, shows, q) = k r in
        (
          row_before (info r) y,
          Shows.shown name names y r allowed p shows,
          rw e (q ∙ row_by_row out (info r) y),
        )
    read-Walks out name names s keep skip (err f) e allowed inv same k n =
        let (y, shows, q) = n in
        elim (Bool-cases (is f Sentinel.backend_not_found)) [
          | inl miss ↦
              let p : held name ≡ none =
                sym (same name) ∙ law.load_not_found ctx name s f inv now e miss in
              (y, Shows.absent name names y allowed p shows, rw e (rw miss q))
          | inr other ↦ elim (Bool-cases (is f Sentinel.unavailable)) [
            | inl down ↦ (
              err f,
              Shows.outage name names s f allowed e other down,
              rw e (rw (other, down) refl),
            )
            | inr up ↦ (
              y,
              Shows.unreadable name names y s f allowed e other up shows,
              rw e (rw (other, up) q),
            )
          ]
        ]

    list_from-Walks :
        (out : List SecretInfo) (names : List Bytes) (s : S)
        → Inv s
        → ((k : Bytes) → view s k ≡ held k)
        → Walks out names (list_from b ctx allow out names s).0
    unfolding list_from
    list_from-Walks out [] s inv same = (ok [], Shows.over, ap ok (sym (append-nil out)))
    list_from-Walks out (name ∷ names) s inv same = elim (Bool-cases (allow name)) [
      | inr no_entry ↦
          let (y, shows, q) = list_from-Walks out names s inv same in
          (y, Shows.hidden name names y no_entry shows, rw no_entry q)
      | inl allowed ↦
          let s1 = (b.load ctx name s).1 in
          let i1 = law.load_inv ctx name s inv in
          let v1 = λ (k : Bytes). law.load_view ctx name s k ∙ same k in
          rw allowed (
            read-Walks out name names s _ _ (b.load ctx name s).0 refl allowed inv same
              (λ r. list_from-Walks (out ++ info r ∷ []) names s1 i1 v1)
              (list_from-Walks out names s1 i1 v1))
    ]

  -- In a context whose reads are current and where the names could be listed, List goes through the
  -- sorted names, which are exactly those that hold a record: an allowed one that holds a record shows
  -- its metadata, in this order, and one that holds none is skipped, as is one whose read fails with
  -- an error that is no outage; the first read that fails with an outage makes List return that error,
  -- and a name that is not allowed shows nothing.
  pub list-Shows :
      (s : S) (names : List Bytes)
      → current ctx ≡ true
      → Inv s
      → (b.list ctx s).0 ≡ ok names
      → Shows (view s) (sort names) (list b ctx allow s).0
        × IsSorted (sort names)
        × ((k : Bytes) → contains k (sort names) ≡ is_some (view s k))
  unfolding list
  list-Shows s names now inv e =
      let (y, shows, q) =
        list_from-Walks now (view s) [] (sort names) (b.list ctx s).1 (law.list_inv ctx s inv)
          (law.list_view ctx s) in
      (
        subst (Shows (view s) (sort names)) (sym (rw e (q ∙ no_rows y))) shows,
        sort-IsSorted names,
        λ k. contains-sort k names ∙ law.list_ok ctx s names inv now e k,
      )
