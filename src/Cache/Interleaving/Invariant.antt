-- ===== src/Cache/Interleaving/Invariant.antt =====
-- backend/cache/cache.go: what holds of the cache and of the flights while a writer is at work.
use ts1p.Prelude.{
  ℕ, ◌+◌, ◌≤◌, ◌≡◌, inl, inr, Bool, true, false, Bool-cases, Option, none, some, List, eqb, Bytes,
  bytes_eq, bytes_eq_eq, contains, is_some, arith,
}
use ts1p.Errors.{Error, Sentinel, is, Result, ok, err}
use ts1p.Backend.{Record}
use ts1p.Cache.Eviction.{Lru, Entry}
use ts1p.Cache.{Names}
use ts1p.Cache.Interleaving.{Flight, ListFlight, Writer, idle, saving, evicting, clearing, update}

-- The writer has changed the record of this name in the inner backend, and not yet in the cache.
abbrev pub writing : Writer → Bytes → Bool
writing idle k = false
writing (saving n r) k = bytes_eq n k
writing (evicting n) k = bytes_eq n k
writing clearing k = false

-- The writer has changed the inner backend, and not yet moved the sequence number.
abbrev pub changing : Writer → Bool
changing idle = false
changing (saving n r) = true
changing (evicting n) = true
changing clearing = false

-- What the writer has made the inner backend hold.
abbrev pub Pending : (Bytes → Option Record) → Writer → Type 0
Pending v idle = Unit
Pending v (saving n r) = v n ≡ some r
Pending v (evicting n) = v n ≡ none
Pending v clearing = Unit

-- An answer that is what `o` is, and names that are those of `v`.
pub record IsTrue (o : Option Record) (r : Result Record) : Type 0 where
  pub on_ok : (x : Record) → r ≡ ok x → o ≡ some x
  pub on_not_found : (e : Error) → r ≡ err e → is e Sentinel.backend_not_found ≡ true → o ≡ none

abbrev pub AreNames : (Bytes → Option Record) → List Bytes → Type 0
AreNames v ns = (k : Bytes) → contains k ns ≡ is_some (v k)

-- A flight took a number that was current then; if it still is, an answer is what is held.
pub record FlightRight (v : Bytes → Option Record) (w : Writer) (seq : ℕ) (f : Flight)
    : Type 0 where
  pub bound : f.seq ≤ seq
  pub told :
      (r : Result Record)
      → f.answer ≡ some r
      → f.seq ≡ seq
      → writing w f.name ≡ false
      → IsTrue (v f.name) r

pub record ListFlightRight (v : Bytes → Option Record) (w : Writer) (seq : ℕ) (f : ListFlight)
    : Type 0 where
  pub bound : f.seq ≤ seq
  pub told :
      (ns : List Bytes) → f.answer ≡ some (ok ns) → f.seq ≡ seq → changing w ≡ false → AreNames v ns

pub record IsRight {L : Type 0} (lru : Lru L) (v : Bytes → Option Record) (w : Writer) (l : L)
    (names : Option Names) (seq : ℕ) (flights : ℕ → Option Flight)
    (list_flights : ℕ → Option ListFlight) : Type 0 where
  pub pending : Pending v w
  -- what is resident is what is held, except under the name that is being written
  pub at : (k : Bytes) (e : Entry) → lru.peek k l ≡ some e → writing w k ≡ false → e.val ≡ v k
  pub listed : (n : Names) → names ≡ some n → w ≡ idle → AreNames v n.val
  pub flight : (i : ℕ) (f : Flight) → flights i ≡ some f → FlightRight v w seq f
  pub list_flight : (i : ℕ) (f : ListFlight) → list_flights i ≡ some f → ListFlightRight v w seq f

-- A family after the change of one place.
pub update-all :
    {A : Type 0} (P : A → Type 0) (fs : ℕ → Option A) (i : ℕ) (a : Option A)
    → ((j : ℕ) (f : A) → fs j ≡ some f → P f)
    → ((f : A) → a ≡ some f → P f)
    → (j : ℕ) (f : A) → update fs i a j ≡ some f
    → P f
update-all P fs i a h g j f e = elim (Bool-cases (eqb i j)) [
  | inl here ↦ g f (ground arith)
  | inr there ↦ h j f (ground arith)
]

-- A change of the numbers leaves no flight that may be stored.
pub FlightRight-later :
    (v v' : Bytes → Option Record) (w w' : Writer) (seq : ℕ) (f : Flight)
    → FlightRight v w seq f
    → FlightRight v' w' (seq + 1) f
FlightRight-later v v' w w' seq f h = record {
  bound = omega (arith, h.bound);
  told = λ r p e q. absurd (omega (arith, h.bound));
}

pub ListFlightRight-later :
    (v v' : Bytes → Option Record) (w w' : Writer) (seq : ℕ) (f : ListFlight)
    → ListFlightRight v w seq f
    → ListFlightRight v' w' (seq + 1) f
ListFlightRight-later v v' w w' seq f h = record {
  bound = omega (arith, h.bound);
  told = λ r p e q. absurd (omega (arith, h.bound));
}
