-- ===== src/Server/Gate.antt =====
-- server/server.go: AdminGate, which guards the debug handlers.
use ts1p.Prelude.{ℕ, ◌≡◌, refl, inl, inr, true, false, Bool-cases, Bytes, bytes_eq, text}
use ts1p.Errors.{Result, ok, err}
use ts1p.Backend.{Backend}
use ts1p.Server.{Server, Services, logged, log_access, gate_logged, gate_identified, admin_gate}
use ts1p.Server.Wire.{action_delete, Request, Reply, silent, http_error}
use ts1p.Server.Identity.{Caller, get_identity}
use ts1p.Server.Access.{succeeded, written}

succeeded_silent : succeeded silent ≡ false
unfolding succeeded
succeeded_silent = refl

succeeded_error : (m : Bytes) (status : ℕ) → succeeded (http_error m status) ≡ false
unfolding succeeded
succeeded_error m status = refl

module _ {S W K R : Type 0} (b : Backend S) (modulus : ℕ) (services : Services W K R)
    (next : Request K → Server S W → Reply × Server S W) (r : Request K) (s : Server S W) where
  abbrev everything : Bytes
  everything = text "*"

  -- What a request to a debug handler ends in.
  pub data Gated (x : Reply × Server S W) : Type 0 where
    closed : x.1.db ≡ s.db → succeeded x.0 ≡ false → Gated x
    opened :
        (c : Caller R) (w : W)
        → get_identity services.unmarshal r ≡ ok c
        → services.allow c.perms action_delete everything ≡ true
        → written b modulus services c action_delete r.path 0 s.log ≡ (ok tt, w)
        → x ≡ next r (record s { log = w })
        → Gated x

  denied-Gated :
      (p : Result (Unit {0}) × W) → Gated (gate_logged b modulus services false next r (logged s p))
  unfolding gate_logged logged succeeded
  denied-Gated (ok u, w) = Gated.closed refl refl
  denied-Gated (err e, w) = Gated.closed refl refl

  allowed-Gated :
      (c : Caller R) (p : Result (Unit {0}) × W)
      → get_identity services.unmarshal r ≡ ok c
      → services.allow c.perms action_delete everything ≡ true
      → written b modulus services c action_delete r.path 0 s.log ≡ p
      → Gated (gate_logged b modulus services true next r (logged s p))
  unfolding gate_logged logged succeeded
  allowed-Gated c (ok tt, w) i h e = Gated.opened c w i h e refl
  allowed-Gated c (err f, w) i h e = Gated.closed refl refl

  identified-Gated :
      (x : Result (Caller R))
      → get_identity services.unmarshal r ≡ x
      → Gated (gate_identified b modulus services next r x s)
  unfolding gate_identified log_access
  identified-Gated (err e) i = elim (Bool-cases r.gone_after_whois) [
    | inl g ↦ simp g (Gated.closed refl (succeeded_silent))
    | inr g ↦ simp g (Gated.closed refl (succeeded_error (text "identity unavailable") 503))
  ]
  identified-Gated (ok c) i = elim (Bool-cases (services.allow c.perms action_delete everything)) [
    | inl h ↦ rw h (allowed-Gated c _ i h refl)
    | inr h ↦ rw h (denied-Gated _)
  ]

  -- A request to a guarded debug handler changes nothing of the storage and is not answered with
  -- success; or its caller is identified and may delete every secret, the audit writer has taken the
  -- entry that says so, and then the handler runs.
  pub admin_gate-Gated : Gated (admin_gate b modulus services next r s)
  unfolding admin_gate
  admin_gate-Gated = elim (Bool-cases (bytes_eq r.no_browsers (text "setec"))) [
    | inl h ↦ simp h (identified-Gated _ refl)
    | inr h ↦ simp h (Gated.closed refl (succeeded_error (text "access denied") 403))
  ]
