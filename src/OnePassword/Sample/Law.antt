-- ===== src/OnePassword/Sample/Law.antt =====
-- The vault in memory as an instance of what the backend relies on.
use ts1p.Prelude.{
  ◌≡◌, refl, sym, subst, ap, ◌∙◌, inl, Bool, true, false, Option, none, some, List, [],
  if◌then◌else◌, Bytes, bytes_eq, bytes_eq_iff, bytes_eq_eq, text, lookup, has_key, put, Distinct,
  lookup-put, put-Distinct, arith,
}
use ts1p.Errors.{Error, ok, err}
use ts1p.OnePassword.Fields.{ItemField, Item, Text}
use ts1p.OnePassword.Vault.{IsVault, IsListing, Foreign, drop, created}
use ts1p.OnePassword.{OnePassword}
use ts1p.OnePassword.Lawful.{IsRight}
use ts1p.OnePassword.Lawful.Loading.{view, read_at}
use ts1p.OnePassword.Sample.{
  Vault, items, item_at, item_of, overviews, answered, replaced, dropped, made, absent-Foreign,
  item_at-its, item_at-put, unlisted_lem, listed_lem, Placed,
}

answered-same : (v : Vault) (o : Option Item) → (answered v o).1 ≡ v
answered-same v none = refl
answered-same v (some item) = refl

answered-ok :
    (v : Vault) (o : Option Item) (item : Item) → (answered v o).0 ≡ ok item → o ≡ some item
answered-ok v none item e = absurd (cc)
answered-ok v (some i) item e = cc

answered-err : (v : Vault) (o : Option Item) (e : Error) → (answered v o).0 ≡ err e → Foreign e
answered-err v none e p = subst Foreign (cc) (absent-Foreign (text "item not found"))
answered-err v (some i) e p = absurd (cc)

has_key-put :
    (k j : Bytes) (o : Option (List ItemField)) (v : Vault)
    → has_key j v ≡ true
    → has_key j (put k o v) ≡ true
has_key-put k j o v h = ground (arith, lookup-put k j o v)

replaced-Distinct :
    (item : Item) (v : Vault) (o : Option Item) → Distinct v → Distinct (replaced item v o).1
replaced-Distinct item v none h = h
replaced-Distinct item v (some old) h = put-Distinct item.id (some item.fields) v h

replaced-has_key :
    (item : Item) (v : Vault) (o : Option Item) (j : Bytes)
    → has_key j v ≡ true
    → has_key j (replaced item v o).1 ≡ true
replaced-has_key item v none j h = h
replaced-has_key item v (some old) j h = has_key-put item.id j (some item.fields) v h

dropped-Distinct :
    (id : Bytes) (v : Vault) (o : Option Item) → Distinct v → Distinct (dropped id v o).1
dropped-Distinct id v none h = h
dropped-Distinct id v (some old) h = put-Distinct id none v h

dropped-has_key :
    (id : Bytes) (v : Vault) (o : Option Item) (j : Bytes)
    → has_key j v ≡ true
    → has_key j (dropped id v o).1 ≡ true
dropped-has_key id v none j h = h
dropped-has_key id v (some old) j h = has_key-put id j none v h

-- An item that is there under the title of `item` and has its ID.
found_by_id :
    (v : Vault) (item old : Item)
    → item_at v item.title ≡ some old
    → old.id ≡ item.id
    → (item.title ≡ item.id) × (item_at v item.id ≡ some old)
found_by_id v item old e i =
    let (t, d, u) = item_at-its v item.title old e in
    let same : item.title ≡ item.id = cc in (same, subst (λ k. item_at v k ≡ some old) same e)

drop-elsewhere :
    (id k : Bytes) (o : Option Item)
    → ((i : Item) → o ≡ some i → i.id ≡ k)
    → (if bytes_eq id k then none else o) ≡ drop id o
drop-elsewhere id k none h = ground arith
drop-elsewhere id k (some i) h = ground (arith, bytes_eq_iff id k, bytes_eq_iff i.id id, h i refl)

dropped-ok :
    (id : Bytes) (v : Vault) (o : Option Item)
    → (dropped id v o).0 ≡ ok tt
    → (k : Bytes) → item_at (dropped id v o).1 k ≡ drop id (item_at v k)
unfolding item_of
dropped-ok id v none e k = absurd (cc)
dropped-ok id v (some old) e k =
    item_at-put v id k none
    ∙ drop-elsewhere id k (item_at v k) (λ i p. let (t, d, u) = item_at-its v k i p in d)

dropped-err :
    (id : Bytes) (v : Vault) (o : Option Item) (e : Error)
    → (dropped id v o).0 ≡ err e
    → (k : Bytes) → item_at (dropped id v o).1 k ≡ item_at v k
dropped-err id v none e p k = refl
dropped-err id v (some old) e p k = absurd (cc)

replaced-there :
    (v : Vault) (item old : Item)
    → item_at v item.title ≡ some old
    → old.id ≡ item.id
    → (k : Bytes)
    → item_at (replaced item v (item_at v item.id)).1 k
      ≡ (if bytes_eq item.title k then some item else item_at v k)
unfolding item_of
replaced-there v item old e i k =
    let (same, there) = found_by_id v item old e i in
    ap (λ o. item_at (replaced item v o).1 k) there
    ∙ item_at-put v item.id k (some item.fields)
    ∙ ap (λ t. if bytes_eq t k then some (created item.id t item.fields) else item_at v k)
        (sym same)

replaced-done :
    (v : Vault) (item old : Item)
    → item_at v item.title ≡ some old
    → old.id ≡ item.id
    → (replaced item v (item_at v item.id)).0 ≡ ok tt
replaced-done v item old e i =
    let (same, there) = found_by_id v item old e i in ap (λ o. (replaced item v o).0) there

made-Distinct :
    (name : Bytes) (fields : List ItemField) (v : Vault) (b : Bool)
    → Distinct v
    → Distinct (made name fields v b).1
made-Distinct name fields v true h = h
made-Distinct name fields v false h = put-Distinct name (some fields) v h

made-has_key :
    (name : Bytes) (fields : List ItemField) (v : Vault) (b : Bool) (j : Bytes)
    → has_key j v ≡ true
    → has_key j (made name fields v b).1 ≡ true
made-has_key name fields v true j h = h
made-has_key name fields v false j h = has_key-put name j (some fields) v h

made-ok :
    (name : Bytes) (fields : List ItemField) (v : Vault) (id : Bytes) (b : Bool)
    → has_key name v ≡ b
    → (made name fields v b).0 ≡ ok id
    → (has_key id v ≡ false)
      × ((k : Bytes)
          → item_at (made name fields v b).1 k
            ≡ (if bytes_eq name k then some (created id name fields) else item_at v k))
unfolding item_of
made-ok name fields v id true h e = absurd (cc)
made-ok name fields v id false h e =
    let same : name ≡ id = cc in
    (
      subst (λ k. has_key k v ≡ false) same h,
      λ k.
          item_at-put v name k (some fields)
          ∙ ap (λ l. if bytes_eq name k then some (created l name fields) else item_at v k) same,
    )

made-err :
    (name : Bytes) (fields : List ItemField) (v : Vault) (e : Error) (b : Bool)
    → (made name fields v b).0 ≡ err e
    → (k : Bytes) → item_at (made name fields v b).1 k ≡ item_at v k
made-err name fields v e true p k = refl
made-err name fields v e false p k = absurd (cc)

pub items-IsVault : IsVault items
unfolding items item_of Placed
items-IsVault = record {
  Plain = Distinct;
  at = item_at;
  used = λ v id. has_key id v;
  title_of = λ v k i h e. (item_at-its v k i e).0;
  id_of = λ v k l i j h e f p.
      let (a, b, c) = item_at-its v k i e in let (a2, b2, c2) = item_at-its v l j f in cc;
  used_of =
      λ v k i h e. let (a, b, c) = item_at-its v k i e in subst (λ l. has_key l v ≡ true) (sym b) c;
  list_plain = λ ctx v h. h;
  list_same = λ ctx v k. refl;
  list_used = λ ctx v id h. h;
  list_ok = λ ctx v os h e.
      let same : overviews v ≡ os = cc in
      subst (λ l. IsListing l (item_at v)) same
        (record {
          unlisted = λ k p. unlisted_lem v k h p;
          listed = λ k item p. listed_lem v k item h p;
        });
  list_err = λ ctx v e h. absurd (cc);
  get_plain = λ ctx id v h. subst Distinct (sym (answered-same v (item_at v id))) h;
  get_same = λ ctx id v k. ap (λ w. item_at w k) (answered-same v (item_at v id));
  get_used =
      λ ctx id v j h. subst (λ w. has_key j w ≡ true) (sym (answered-same v (item_at v id))) h;
  get_ok = λ ctx id v item h e.
      let there = answered-ok v (item_at v id) item e in
      let (a, b, c) = item_at-its v id item there in
      (subst (λ k. item_at v k ≡ some item) (sym a) there, b);
  get_err = λ ctx id v e p. answered-err v (item_at v id) e p;
  put_plain = λ ctx item old v e i h. replaced-Distinct item v (item_at v item.id) h;
  put_used = λ ctx item v j h. replaced-has_key item v (item_at v item.id) j h;
  put_ok = λ ctx item old v h e i p k. replaced-there v item old e i k;
  put_err = λ ctx item old v f h e i p. absurd (cc (replaced-done v item old e i, p));
  create_plain = λ ctx name fields v e h. made-Distinct name fields v (has_key name v) h;
  create_used = λ ctx name fields v j h. made-has_key name fields v (has_key name v) j h;
  create_ok = λ ctx name fields v id h e p. made-ok name fields v id (has_key name v) refl p;
  create_err = λ ctx name fields v e h n p. inl (made-err name fields v e (has_key name v) p);
  delete_plain = λ ctx id v h. dropped-Distinct id v (item_at v id) h;
  delete_used = λ ctx id v j h. dropped-has_key id v (item_at v id) j h;
  delete_ok = λ ctx id v h p k. dropped-ok id v (item_at v id) p k;
  delete_err = λ ctx id v e h p. inl (λ k. dropped-err id v (item_at v id) e p k);
}

abbrev pub empty : OnePassword Vault
empty = record { vault = []; ids = [] }

pub empty-IsRight : (json : Text) → IsRight items json items-IsVault empty
unfolding items-IsVault item_at item_of lookup
empty-IsRight json = record {
  plain = tt;
  readable = λ k i e. absurd (cc);
  named = refl;
  memo = λ k id e. absurd (cc);
}

pub view-empty : (json : Text) (k : Bytes) → view items json items-IsVault empty k ≡ none
unfolding items-IsVault item_at item_of lookup view read_at
view-empty json k = refl
