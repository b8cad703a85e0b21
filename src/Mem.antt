-- ===== src/Mem.antt =====
-- backend/mem/mem.go: the in-memory backend. Its mutex makes each method one step.
use ts1p.Prelude.{
  ◌≡◌, refl, subst, Option, none, some, List, [], false, contains, has_key, Bytes, bytes_eq_eq, Map,
  keys, lookup, put, delete, lookup-put, lookup-delete, contains-keys, true, arith,
}
use ts1p.Errors.{Result, ok, err, Sentinel, fail, Error, is}
use ts1p.Exec.{Exec}
use ts1p.Backend.{Record, clone, clone-id, Context, Backend, IsLawful, Stored-exact}

-- `b.records`
abbrev pub Records : Type 0
Records = Map Bytes Record

abbrev pub new : Records
new = []

unfoldable pub found : Option Record → Result Record
found none = fail Sentinel.backend_not_found
found (some r) = ok (clone r)

unfoldable pub load : Context → Bytes → Exec Records Record
unfolding found
load ctx name records = (found (lookup name records), records)

unfoldable pub save : Context → Bytes → Record → Exec Records (Unit {0})
save ctx name r records = (ok tt, put name (clone r) records)

unfoldable pub list : Context → Exec Records (List Bytes)
list ctx records = (ok (keys records), records)

unfoldable pub remove : Context → Bytes → Exec Records (Unit {0})
remove ctx name records = (ok tt, delete name records)

abbrev pub backend : Backend Records
backend = record { load = load; save = save; list = list; delete = remove }

pub found-eq-ok : (o : Option Record) (r : Record) → found o ≡ ok r → o ≡ some r
unfolding found
found-eq-ok none r h = cc
found-eq-ok (some x) r h = cc (clone-id x)

pub found-eq-err : (o : Option Record) (e : Error) → found o ≡ err e → o ≡ none
unfolding found
found-eq-err none e h = refl
found-eq-err (some x) e h = cc

pub found-not_api :
    (o : Option Record) (e : Error) → found o ≡ err e → is e Sentinel.api_not_found ≡ false
unfolding found
found-not_api none e h = ground arith
found-not_api (some x) e h = cc

pub found-not_found :
    (o : Option Record) (e : Error) → found o ≡ err e → is e Sentinel.backend_not_found ≡ true
unfolding found
found-not_found none e h = ground arith
found-not_found (some x) e h = cc

pub names-eq-ok :
    (s : Records) (names : List Bytes) (k : Bytes)
    → ◌≡◌ {A = Result (List Bytes)} (ok (keys s)) (ok names)
    → contains k names ≡ has_key k s
names-eq-ok s names k e =
    let p : keys s ≡ names = cc in subst (λ l. contains k l ≡ has_key k s) p (contains-keys k s)

-- The in-memory backend keeps the contract, and every read of it is current.
unfoldable pub backend-IsLawful : IsLawful backend
unfolding load save list remove found
backend-IsLawful = record {
  Inv = λ s. Unit;
  view = λ s k. lookup k s;
  current = λ ctx. true;
  current_of_force = λ ctx h. refl;
  load_inv = λ ctx n s h. tt;
  save_inv = λ ctx n r s h. tt;
  list_inv = λ ctx s h. tt;
  delete_inv = λ ctx n s h. tt;
  load_view = λ ctx n s k. refl;
  list_view = λ ctx s k. refl;
  load_ok = λ ctx n s r h c e. found-eq-ok (lookup n s) r e;
  load_not_found = λ ctx n s e h c p q. found-eq-err (lookup n s) e p;
  load_api = λ ctx n s e i p. found-not_api (lookup n s) e p;
  save_ok = λ ctx n r s i h. Stored-exact _ n r _ (λ k. rw (lookup-put, clone-id));
  save_err = λ ctx n r s e i h. absurd (cc);
  delete_ok = λ ctx n s i h k. lookup-delete n k s;
  delete_err = λ ctx n s e i h. absurd (cc);
  list_ok = λ ctx s names h c e k. names-eq-ok s names k e;
}
