-- ===== src/Serving/Teardown.antt =====
-- cmd/ts1p/main.go: a trace that opens and closes in order.
use ts1p.Prelude.{
  ℕ, ◌≡◌, refl, ap, ◌∙◌, inl, inr, Bool, true, false, not, ◌&&◌, ◌||◌, Bool-cases, Option, none,
  some, List, [], ◌∷◌, if◌then◌else◌, eqb, Bytes, bytes_eq,
}
use ts1p.Errors.{Error, Sentinel, Result, ok, err}
use ts1p.Exec.{Exec, lift, throw, continue, ◌>>◌}
use ts1p.Serving.{
  Part, backend, tsnet, audit_log, debug_listener, warmer, Listener, http, https, service_listener,
  Event, opened, closed, canceled_warmer, listening, ready, drained, Trace, Flags, Outside,
  ServeMode, mode_dev, mode_service, mode_tls, choose_serve_mode, emit, deferred, served,
  open_listener, serve_mode, with_warmer, with_debug, with_audit, with_tsnet, with_backend,
  validated, serve,
}

abbrev part_number : Part → ℕ
part_number backend = 0
part_number tsnet = 1
part_number audit_log = 2
part_number debug_listener = 3
part_number warmer = 4

-- A part that is open; `stopping` is the warmer, once its context is canceled.
pub data Open : Type 0 where
  up : Part → Open
  stopping : Open

-- What may be closed: the warmer only once its context is canceled.
abbrev is_closable : Part → Open → Bool
is_closable warmer stopping = true
is_closable backend (up backend) = true
is_closable tsnet (up tsnet) = true
is_closable audit_log (up audit_log) = true
is_closable debug_listener (up debug_listener) = true
is_closable p o = false

abbrev is_up : Part → Open → Bool
is_up p (up q) = eqb (part_number p) (part_number q)
is_up p stopping = false

abbrev is_open : Part → List Open → Bool
is_open p [] = false
is_open p (o ∷ ps) = is_up p o || is_open p ps

abbrev push : Part → Option (List Open) → Option (List Open)
push p none = none
push p (some ps) = some (up p ∷ ps)

-- Only what was opened last may be closed.
abbrev pop : Part → Option (List Open) → Option (List Open)
pop p none = none
pop p (some []) = none
pop p (some (o ∷ ps)) = if is_closable p o then some ps else none

-- The warmer's context is canceled, when the warmer was opened last.
abbrev stop_warmer : Option (List Open) → Option (List Open)
stop_warmer none = none
stop_warmer (some []) = none
stop_warmer (some (o ∷ ps)) = if is_up warmer o then some (stopping ∷ ps) else none

abbrev can_serve : List Open → Bool
can_serve ps = is_open backend ps && (is_open tsnet ps && is_open audit_log ps)

abbrev serving : Option (List Open) → Option (List Open)
serving none = none
serving (some ps) = if can_serve ps then some ps else none

-- What is open after a trace, the latest first; none if a part was closed out of order, the warmer
-- without its context canceled before, that context canceled when the warmer was not the latest, or a listener opened, readiness told or the
-- requests drained without the storage, tsnet and the audit log being open.
abbrev pub open_parts : Trace → Option (List Open)
open_parts [] = some []
open_parts (opened p ∷ t) = push p (open_parts t)
open_parts (closed p ∷ t) = pop p (open_parts t)
open_parts (canceled_warmer ∷ t) = stop_warmer (open_parts t)
open_parts (listening l ∷ t) = serving (open_parts t)
open_parts (ready ∷ t) = serving (open_parts t)
open_parts (drained ∷ t) = serving (open_parts t)

-- An action that leaves open what was.
record Keeps (ps : List Open) (m : Exec Trace (Unit {0})) : Type 0 where
  keeps : (t : Trace) → open_parts t ≡ some ps → open_parts (m t).1 ≡ some ps

continue-Keeps :
    {A : Type 0} (ps : List Open) (k : A → Exec Trace (Unit {0})) (x : Result A × Trace)
    → ((a : A) → Keeps ps (k a))
    → open_parts x.1 ≡ some ps
    → open_parts (continue k x).1 ≡ some ps
continue-Keeps ps k (ok a, t) h e = (h a).keeps t e
continue-Keeps ps k (err f, t) h e = e

after-Keeps :
    (ps : List Open) (m n : Exec Trace (Unit {0})) → Keeps ps m → Keeps ps n → Keeps ps (m >> n)
after-Keeps ps m n h g = record { keeps = λ t e. continue-Keeps ps _ (m t) (λ u. g) (h.keeps t e) }

lift-Keeps : (ps : List Open) (r : Result (Unit {0})) → Keeps ps (lift r)
lift-Keeps ps r = record { keeps = λ t e. e }

-- A call that may fail, and what follows it.
try-Keeps :
    (ps : List Open) (r : Result (Unit {0})) (m : Exec Trace (Unit {0}))
    → Keeps ps m
    → Keeps ps (lift r >> m)
try-Keeps ps r m h = after-Keeps ps (lift r) m (lift-Keeps ps r) h

bracket-Keeps :
    (p : Part) (ps : List Open) (m : Exec Trace (Unit {0}))
    → is_closable p (up p) ≡ true
    → Keeps (up p ∷ ps) m
    → Keeps ps (emit (opened p) >> deferred (closed p) m)
unfolding emit deferred
bracket-Keeps p ps m c h = record {
  keeps = λ t e. ap (pop p) (h.keeps (opened p ∷ t) (ap (push p) e)) ∙ rw c;
}

warmer-Keeps :
    (ps : List Open) (m : Exec Trace (Unit {0}))
    → Keeps (up warmer ∷ ps) m
    → Keeps ps (emit (opened warmer) >> deferred (closed warmer) (deferred canceled_warmer m))
unfolding emit deferred
warmer-Keeps ps m h = record {
  keeps = λ t e.
      ap (λ o. pop warmer (stop_warmer o)) (h.keeps (opened warmer ∷ t) (ap (push warmer) e));
}

serving-Keeps :
    (ps : List Open) (e : Event)
    → ((t : Trace) → open_parts (e ∷ t) ≡ serving (open_parts t))
    → can_serve ps ≡ true
    → Keeps ps (emit e)
unfolding emit
serving-Keeps ps e h p = record { keeps = λ t q. h t ∙ ap serving q ∙ rw p }

module _ (out : Outside) (flags : Flags) (ps : List Open) (up_now : can_serve ps ≡ true) where
  served-Keeps : Keeps ps (served out flags)
  unfolding served
  served-Keeps =
      after-Keeps ps _ _
        (after-Keeps ps _ _ (serving-Keeps ps ready (λ t. refl) up_now)
          (lift-Keeps ps out.serve_end))
        (serving-Keeps ps drained (λ t. refl) up_now)

  open_listener-Keeps : (l : Listener) → Keeps ps (open_listener out flags l)
  unfolding open_listener
  open_listener-Keeps l = try-Keeps ps _ _ (serving-Keeps ps (listening l) (λ t. refl) up_now)

  serve_mode-Keeps : (mode : ServeMode) → Keeps ps (serve_mode out flags mode)
  unfolding serve_mode
  serve_mode-Keeps mode_dev = after-Keeps ps _ _ (open_listener-Keeps http) served-Keeps
  serve_mode-Keeps mode_service =
      after-Keeps ps _ _ (open_listener-Keeps service_listener) served-Keeps
  serve_mode-Keeps mode_tls =
      elim out.cert_domains
        as (λ ds. Keeps ps (elim ds [
          | [] ↦ throw Sentinel.no_tls_domains
          | d ∷ ds' ↦
              open_listener out flags http >> (open_listener out flags https >> served out flags)
        ])) [
          | [] ↦ lift-Keeps ps _
          | d ∷ ds ↦
              after-Keeps ps _ _ (open_listener-Keeps http)
                (after-Keeps ps _ _ (open_listener-Keeps https) served-Keeps)
        ]

module _ (out : Outside) (flags : Flags) (warm : Bool) (svc : Bytes) where
  with_warmer-Keeps :
      (ps : List Open) → can_serve ps ≡ true → Keeps ps (with_warmer out flags warm svc)
  unfolding with_warmer
  with_warmer-Keeps ps up_now = elim (Bool-cases warm) [
    | inl w ↦ rw w (
        warmer-Keeps ps _
          (serve_mode-Keeps out flags (up warmer ∷ ps) up_now (choose_serve_mode flags.dev svc)))
    | inr w ↦ rw w (serve_mode-Keeps out flags ps up_now (choose_serve_mode flags.dev svc))
  ]

  with_debug-Keeps :
      (ps : List Open) → can_serve ps ≡ true → Keeps ps (with_debug out flags warm svc)
  unfolding with_debug
  with_debug-Keeps ps up_now =
      elim (Bool-cases (not flags.dev && not (bytes_eq flags.debug_addr []))) [
        | inl d ↦ rw d (
            try-Keeps ps _ _ (
              bracket-Keeps debug_listener ps _ refl
                (with_warmer-Keeps (up debug_listener ∷ ps) up_now)))
        | inr d ↦ rw d (with_warmer-Keeps ps up_now)
      ]

  with_audit-Keeps : Keeps (up tsnet ∷ up backend ∷ []) (with_audit out flags warm svc)
  unfolding with_audit
  with_audit-Keeps = try-Keeps _ _ _ (
      bracket-Keeps audit_log _ _ refl
        (try-Keeps _ _ _ (with_debug-Keeps (up audit_log ∷ up tsnet ∷ up backend ∷ []) refl)))

  with_tsnet-Keeps : Keeps (up backend ∷ []) (with_tsnet out flags warm svc)
  unfolding with_tsnet
  with_tsnet-Keeps =
      bracket-Keeps tsnet _ _ refl (try-Keeps _ _ _ (try-Keeps _ _ _ with_audit-Keeps))

module _ (out : Outside) (flags : Flags) where
  with_backend-Keeps : (svc : Bytes) (cached : Bool) → Keeps [] (with_backend out flags svc cached)
  unfolding with_backend
  with_backend-Keeps svc cached = bracket-Keeps backend _ _ refl (with_tsnet-Keeps out flags _ svc)

  -- What `serve` leaves behind.
  pub record TornDown (x : Result (Unit {0}) × Trace) : Type 0 where
    pub all_closed : open_parts x.1 ≡ some []
    pub refused : (e : Error) → validated out flags ≡ err e → x ≡ (err e, [])

  serve-from :
      (v : Result (Bytes × Bool))
      → validated out flags ≡ v
      → TornDown (continue (λ x. with_backend out flags x.0 x.1) (v, []))
  serve-from (err f) e = record {
    all_closed = refl;
    refused = λ g p. (let q : f ≡ g = cc in ap (λ x. (err x, [])) q);
  }
  serve-from (ok x) e = record {
    all_closed = (with_backend-Keeps x.0 x.1).keeps [] refl;
    refused = λ g p. absurd (cc);
  }

  -- However 1Password, tsnet, the files and the listeners answer, and whatever the flags are, `serve` opens nothing if a flag or
  -- the storage is refused; otherwise it closes what it has opened, each part once, in the reverse order, on every way out: the
  -- warmer's context is canceled and the warmer waited for before the storage is closed, and a listener is opened, readiness
  -- told and the requests drained only while the storage, tsnet and the audit log are open.
  pub serve-TornDown : TornDown (serve out flags [])
  unfolding serve
  serve-TornDown = serve-from (validated out flags) refl
