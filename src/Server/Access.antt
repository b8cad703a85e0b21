-- ===== src/Server/Access.antt =====
-- server/server.go: what a request must show before the storage is touched or a secret is answered.
use ts1p.Prelude.{
  ℕ, ◌≡◌, refl, sym, ap, inl, inr, Bool, true, false, Bool-cases, [], eqb, Bytes, bytes_eq, arith,
}
use ts1p.Errors.{Error, Sentinel, Result, ok, err}
use ts1p.Exec.{Exec, throw, lift, handle, continue, pure, ◌>>◌}
use ts1p.Backend.{Backend, Context}
use ts1p.Store
use ts1p.Store.{SecretInfo, SecretValue}
use ts1p.Server.{
  Server, Services, logged, on_store, audit_entry, log_access, check_and_log, get_conditionally,
  get_body, put_body, create_version_body, activate_body, error_reply, identity_error,
}
use ts1p.Server.Wire.{
  Action, action_get, action_put, action_create_version, action_activate, GetRequest, PutRequest,
  CreateVersionRequest, VersionRequest, Reply, silent, http_error, json, no_body,
}
use ts1p.Server.Identity.{Caller}

-- A reply with the status 200.
unfoldable pub succeeded : Reply → Bool
succeeded silent = false
succeeded (http_error m status) = false
succeeded (json status bs) = eqb status 200
succeeded (no_body status) = eqb status 200

pub error_reply-fails : (gone : Bool) (e : Error) → succeeded (error_reply gone e) ≡ false
unfolding error_reply succeeded
error_reply-fails gone e = ground arith

pub identity_error-fails : (gone : Bool) (e : Error) → succeeded (identity_error gone e) ≡ false
unfolding identity_error succeeded
identity_error-fails gone e = ground arith

module _ {S W K R : Type 0} (b : Backend S) (modulus : ℕ) (services : Services W K R) where
  -- The entry for an allowed call, and what the writer makes of it.
  abbrev pub written : Caller R → Action → Bytes → ℕ → W → Result (Unit {0}) × W
  written c a n v w = services.write_entries (audit_entry b modulus services c a n v true) w

  module _ (c : Caller R) (a : Action) (n : Bytes) (s : Server S W) where
    pub data Guarded {Resp : Type 0} (x : Result Resp × Server S W) : Type 0 where
      refused : (e : Error) → x.1.db ≡ s.db → x.0 ≡ err e → Guarded x
      audited :
          (v : ℕ)
          → services.allow c.perms a n ≡ true
          → (written c a n v s.log).0 ≡ ok tt
          → x.1.log ≡ (written c a n v s.log).1
          → Guarded x
      withheld :
          (e : Error) → services.allow c.perms a n ≡ true → a ≡ action_get → x.0 ≡ err e → Guarded x

    allowed-Guarded :
        {Resp : Type 0} (v : ℕ) (m : Exec S Resp) (p : Result (Unit {0}) × W)
        → services.allow c.perms a n ≡ true
        → p ≡ written c a n v s.log
        → Guarded
            (continue {A = Unit {0}} (λ u. on_store m) (handle (λ werr. lift werr) (logged s p)))
    unfolding logged on_store
    allowed-Guarded v m (ok tt, w) h e =
        Guarded.audited v h (sym (ap (λ q. q.0) e)) (ap (λ q. q.1) e)
    allowed-Guarded v m (err f, w) h e = Guarded.refused _ refl refl

    denied-Guarded :
        {Resp : Type 0} (m : Exec S Resp) (p : Result (Unit {0}) × W)
        → Guarded (
            continue {A = Unit {0}}
              (λ u. on_store m)
              (handle (λ werr. throw Sentinel.access_denied) (logged s p)))
    unfolding logged
    denied-Guarded m (ok u, w) = Guarded.refused _ refl refl
    denied-Guarded m (err f, w) = Guarded.refused _ refl refl

    -- Authorisation and its audit entry, and then a method of the store.
    pub checked-Guarded :
        {Resp : Type 0} (v : ℕ) (m : Exec S Resp)
        → Guarded ((check_and_log b modulus services c a n v >> on_store m) s)
    unfolding check_and_log log_access
    checked-Guarded v m = elim (Bool-cases (services.allow c.perms a n)) [
      | inl h ↦ rw h (allowed-Guarded v m (written c a n v s.log) h refl)
      | inr h ↦ rw h (denied-Guarded m _)
    ]

    logged-Guarded :
        (sv : SecretValue) (t : Server S W) (p : Result (Unit {0}) × W)
        → services.allow c.perms a n ≡ true
        → a ≡ action_get
        → p ≡ written c a n 0 s.log
        → Guarded (continue {A = Unit {0}} (λ u. pure sv) (logged t p))
    unfolding logged
    logged-Guarded sv t (ok tt, w) h i e =
        Guarded.audited 0 h (sym (ap (λ q. q.0) e)) (ap (λ q. q.1) e)
    logged-Guarded sv t (err f, w) h i e = Guarded.withheld _ h i refl

    -- A conditional get, once it is allowed: the store reads, and then the entry is written.
    conditional-Guarded :
        (x : Result SecretValue × Server S W)
        → a ≡ action_get
        → x.1.log ≡ s.log
        → services.allow c.perms a n ≡ true
        → Guarded (continue (λ sv. log_access b modulus services c a n 0 true >> pure sv) x)
    unfolding log_access logged
    conditional-Guarded (err e, t) i l h = Guarded.withheld e h i refl
    conditional-Guarded (ok sv, t) i l h =
        logged-Guarded sv t (written c a n 0 t.log) h i (ap (written c a n 0) l)

    denied-read :
        (p : Result (Unit {0}) × W)
        → Guarded {Resp = SecretValue} (handle (λ werr. throw Sentinel.access_denied) (logged s p))
    unfolding logged
    denied-read (ok u, w) = Guarded.refused _ refl refl
    denied-read (err f, w) = Guarded.refused _ refl refl

  get_conditionally-Guarded :
      (ctx : Context) (req : GetRequest) (c : Caller R) (s : Server S W)
      → Guarded c action_get req.name s (get_conditionally b modulus services ctx req c s)
  unfolding get_conditionally on_store log_access
  get_conditionally-Guarded ctx req c s =
      elim (Bool-cases (services.allow c.perms action_get req.name)) [
        | inl h ↦ rw h (
            conditional-Guarded c action_get req.name s
              (on_store (Store.get_conditional b ctx req.name req.version) s) refl refl h)
        | inr h ↦ rw h (denied-read c action_get req.name s _)
      ]

  pub get-Guarded :
      (ctx : Context) (req : GetRequest) (c : Caller R) (s : Server S W)
      → Guarded c action_get req.name s (get_body b modulus services ctx req c s)
  unfolding get_body
  get-Guarded ctx req c s = elim (Bool-cases (eqb req.version 0)) [
    | inl z ↦ rw z (checked-Guarded c action_get req.name s 0 _)
    | inr z ↦ rw z (elim (Bool-cases req.update_if_changed) [
      | inl u ↦ simp u (get_conditionally-Guarded ctx req c s)
      | inr u ↦ rw u (checked-Guarded c action_get req.name s req.version _)
    ])
  ]

  pub put-Guarded :
      (ctx : Context) (req : PutRequest) (c : Caller R) (s : Server S W)
      → Guarded c action_put req.name s (put_body b modulus services ctx req c s)
  unfolding put_body
  put-Guarded ctx req c s = elim (Bool-cases (bytes_eq req.name [])) [
    | inl z ↦ rw z (Guarded.refused _ refl refl)
    | inr z ↦ rw z (checked-Guarded c action_put req.name s 0 _)
  ]

  pub create_version-Guarded :
      (ctx : Context) (req : CreateVersionRequest) (c : Caller R) (s : Server S W)
      → Guarded c action_create_version req.name s
          (create_version_body b modulus services ctx req c s)
  unfolding create_version_body
  create_version-Guarded ctx req c s = elim (Bool-cases (bytes_eq req.name [])) [
    | inl z ↦ rw z (Guarded.refused _ refl refl)
    | inr z ↦ rw z (elim (Bool-cases (eqb req.version 0)) [
      | inl o ↦ rw o (Guarded.refused _ refl refl)
      | inr o ↦ rw o (checked-Guarded c action_create_version req.name s req.version _)
    ])
  ]

  pub activate-Guarded :
      (ctx : Context) (req : VersionRequest) (c : Caller R) (s : Server S W)
      → Guarded c action_activate req.name s (activate_body b modulus services ctx req c s)
  unfolding activate_body
  activate-Guarded ctx req c s = elim (Bool-cases (bytes_eq req.name [])) [
    | inl z ↦ rw z (Guarded.refused _ refl refl)
    | inr z ↦ rw z (checked-Guarded c action_activate req.name s req.version _)
  ]
