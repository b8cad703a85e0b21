-- ===== src/Server.antt =====
-- server/server.go: the HTTP API over the store. The ACL rules, WhoIs, the audit writer and JSON are
-- arguments. The audit mutex makes each write of an entry one step; the error log is left out.
pub mod Wire
pub mod Identity
pub mod Access
pub mod Requests
pub mod Replies
pub mod Gate
pub mod Routes
pub mod Debug
mod Examples
use ts1p.Prelude.{
  has_infix, ℕ, ◌*◌, Bool, true, false, not, Option, none, some, List, [], if◌then◌else◌, eqb,
  Bytes, bytes_eq, text,
}
use ts1p.Errors.{Error, Sentinel, sentinel, wrap, is, Result, ok, err, fail}
use ts1p.Exec.{Exec, pure, raise, throw, lift, attempt, ◌>>=◌, ◌>>◌}
use ts1p.Backend.{Context, with_force_refresh, Backend}
use ts1p.Store
use ts1p.Store.{SecretInfo, SecretValue}
use Wire.{
  Action, action_get, action_info, action_put, action_create_version, action_activate,
  action_delete, AuditEntry, GetRequest, NameRequest, PutRequest, CreateVersionRequest,
  VersionRequest, Request, Reply, silent, http_error, json, Codec,
}
use Identity.{Caller, get_identity}

-- 1 << 20
abbrev pub max_request_bytes : ℕ
max_request_bytes = 1048576

-- The parts of Server that change: the storage, and where the audit entries go.
pub record Server (S W : Type 0) : Type 0 where
  pub db : S
  pub log : W

-- What the server calls: acl.Rules.Allow, audit.Writer.WriteEntries, tailcfg.UnmarshalCapJSON.
pub record Services (W K R : Type 0) : Type 0 where
  pub allow : List R → Action → Bytes → Bool
  pub write_entries : AuditEntry → W → Result (Unit {0}) × W
  pub unmarshal : Bytes → K → Result (List R)

-- The status that each class of errors is answered with, in the order of the switch.
unfoldable pub error_reply : Bool → Error → Reply
error_reply gone e =
    if is e Sentinel.access_denied
    then http_error (text "access denied") 403
    else if is e Sentinel.api_not_found
    then http_error (text "not found") 404
    else if is e Sentinel.value_not_changed
    then json 304 []
    else if is e Sentinel.invalid_version
    then http_error (text "invalid version, please specify a version > 0") 400
    else if is e Sentinel.version_claimed
    then http_error (text "version already set") 412
    else if gone
    then silent
    else if is e Sentinel.canceled
    then http_error (text "storage backend unavailable") 503
    else if is e Sentinel.unavailable
    then http_error (text "storage backend unavailable") 503
    else http_error (text "internal error") 500

pub encoded : Result Bytes → Reply
encoded (ok bs) = json 200 bs
encoded (err e) = http_error (text "failed to encode response") 500

pub respond : {Resp : Type 0} → (Resp → Result Bytes) → Bool → Result Resp → Reply
respond marshal gone (err e) = error_reply gone e
respond marshal gone (ok resp) = if gone then silent else encoded (marshal resp)

pub identity_error : Bool → Error → Reply
identity_error gone e =
    if gone
    then silent
    else if is e Sentinel.identity_unavailable
    then http_error (text "identity unavailable") 503
    else http_error (text "unable to identify caller") 500

module _ {S W : Type 0} where
  logged : Server S W → Result (Unit {0}) × W → Result (Unit {0}) × Server S W
  logged s (ok u, w) = (ok tt, record s { log = w })
  logged s (err e, w) = (err (wrap (text "writing audit log") e), record s { log = w })

  -- A method of the store.
  pub on_store : {A : Type 0} → Exec S A → Exec (Server S W) A
  on_store m s = let x = m s.db in (x.0, record s { db = x.1 })

module _ {S W K R : Type 0} (b : Backend S) (modulus : ℕ) (services : Services W K R) where
  abbrev pub audit_entry : Caller R → Action → Bytes → ℕ → Bool → AuditEntry
  audit_entry c action secret version authorized = record {
    principal = c.principal;
    action = action;
    secret = secret;
    secret_version = version;
    authorized = authorized;
  }

  pub log_access : Caller R → Action → Bytes → ℕ → Bool → Exec (Server S W) (Unit {0})
  log_access c action secret version authorized s =
      logged s (services.write_entries (audit_entry c action secret version authorized) s.log)

  pub check_and_log : Caller R → Action → Bytes → ℕ → Exec (Server S W) (Unit {0})
  check_and_log c action secret version =
      let authorized = services.allow c.perms action secret in
      attempt (log_access c action secret version authorized)
        (λ werr. if not authorized then throw Sentinel.access_denied else lift werr)

  -- The functions that the handlers hand to serveJSON.
  pub list_body : Context → Unit {0} → Caller R → Exec (Server S W) (List SecretInfo)
  list_body ctx req c = do
    log_access c action_info [] 0 true
    on_store (Store.list b ctx (λ name. services.allow c.perms action_info name))

  pub get_conditionally : Context → GetRequest → Caller R → Exec (Server S W) SecretValue
  get_conditionally ctx req c =
      if not (services.allow c.perms action_get req.name)
      then attempt (log_access c action_get req.name 0 false) (λ werr. throw Sentinel.access_denied)
      else (do
        sv ← on_store (Store.get_conditional b ctx req.name req.version)
        log_access c action_get req.name 0 true
        pure sv)

  pub get_body : Context → GetRequest → Caller R → Exec (Server S W) SecretValue
  get_body ctx req c =
      if not (eqb req.version 0)
      then (if req.update_if_changed then get_conditionally ctx req c else (do
        check_and_log c action_get req.name req.version
        on_store (Store.get_version b ctx req.name req.version)))
      else (do check_and_log c action_get req.name 0; on_store (Store.get b ctx req.name))

  pub info_body : Context → NameRequest → Caller R → Exec (Server S W) SecretInfo
  info_body ctx req c = do
    check_and_log c action_info req.name 0
    on_store (Store.get_info b ctx req.name)

  pub put_body : Context → PutRequest → Caller R → Exec (Server S W) ℕ
  put_body ctx req c = if bytes_eq req.name [] then throw Sentinel.server_empty_name else (do
    check_and_log c action_put req.name 0
    on_store (Store.put_value b modulus ctx req.name req.value))

  pub create_version_body : Context → CreateVersionRequest → Caller R → Exec (Server S W) (Unit {0})
  create_version_body ctx req c =
      if bytes_eq req.name []
      then throw Sentinel.server_empty_name
      else if eqb req.version 0
      then throw Sentinel.invalid_version
      else (do
        check_and_log c action_create_version req.name req.version
        on_store (Store.create_version b ctx req.name req.version req.value))

  pub activate_body : Context → VersionRequest → Caller R → Exec (Server S W) (Unit {0})
  activate_body ctx req c = if bytes_eq req.name [] then throw Sentinel.server_empty_name else (do
    check_and_log c action_activate req.name req.version
    on_store (Store.activate b ctx req.name req.version))

  pub delete_body : Context → NameRequest → Caller R → Exec (Server S W) (Unit {0})
  delete_body ctx req c = do
    check_and_log c action_delete req.name 0
    on_store (Store.delete_secret b ctx req.name)

  pub delete_version_body : Context → VersionRequest → Caller R → Exec (Server S W) (Unit {0})
  delete_version_body ctx req c = do
    check_and_log c action_delete req.name req.version
    on_store (Store.delete_version b ctx req.name req.version)

  -- The context of the call: forced if the caller asks for no cache.
  abbrev pub call_context : Request K → Context
  call_context r =
      let ctx : Context = record { force = false; gone = r.gone_during } in
      if has_infix (text "no-cache") r.cache_control then with_force_refresh ctx else ctx

  pub finish :
      {Resp : Type 0}
      → (Resp → Result Bytes)
      → Request K
      → Result Resp × Server S W
      → Reply × Server S W
  finish marshal r (x, s) = (respond marshal r.gone_at_end x, s)

  module _ {Req Resp : Type 0} where
    pub run_decoded :
        Codec Req Resp
        → (Context → Req → Caller R → Exec (Server S W) Resp)
        → Request K
        → Caller R
        → Option Req
        → Server S W
        → Reply × Server S W
    run_decoded codec fn r id none s = (http_error (text "bad request") 400, s)
    run_decoded codec fn r id (some req) s = finish codec.marshal r (fn (call_context r) req id s)

    pub run_identified :
        Codec Req Resp
        → (Context → Req → Caller R → Exec (Server S W) Resp)
        → Request K
        → Result (Caller R)
        → Server S W
        → Reply × Server S W
    run_identified codec fn r (err e) s = (identity_error r.gone_after_whois e, s)
    run_identified codec fn r (ok id) s =
        run_decoded codec fn r id (codec.decode max_request_bytes r.body) s

    unfoldable pub serve_json :
        Codec Req Resp
        → (Context → Req → Caller R → Exec (Server S W) Resp)
        → Request K
        → Server S W
        → Reply × Server S W
    serve_json codec fn r s =
        if not (bytes_eq r.method (text "POST"))
        then (http_error (text "only POST requests allowed") 400, s)
        else if not (bytes_eq r.content_type (text "application/json"))
        then (http_error (text "request body must be json") 400, s)
        else if not (bytes_eq r.no_browsers (text "setec"))
        then (http_error (text "access denied") 403, s)
        else run_identified codec fn r (get_identity services.unmarshal r) s

  -- The handlers that New registers.
  unfoldable pub list :
      Codec (Unit {0}) (List SecretInfo) → Request K → Server S W → Reply × Server S W
  list codec = serve_json codec list_body

  unfoldable pub get : Codec GetRequest SecretValue → Request K → Server S W → Reply × Server S W
  get codec = serve_json codec get_body

  unfoldable pub info : Codec NameRequest SecretInfo → Request K → Server S W → Reply × Server S W
  info codec = serve_json codec info_body

  unfoldable pub put : Codec PutRequest ℕ → Request K → Server S W → Reply × Server S W
  put codec = serve_json codec put_body

  unfoldable pub create_version :
      Codec CreateVersionRequest (Unit {0}) → Request K → Server S W → Reply × Server S W
  create_version codec = serve_json codec create_version_body

  unfoldable pub activate :
      Codec VersionRequest (Unit {0}) → Request K → Server S W → Reply × Server S W
  activate codec = serve_json codec activate_body

  unfoldable pub delete_secret :
      Codec NameRequest (Unit {0}) → Request K → Server S W → Reply × Server S W
  delete_secret codec = serve_json codec delete_body

  unfoldable pub delete_version :
      Codec VersionRequest (Unit {0}) → Request K → Server S W → Reply × Server S W
  delete_version codec = serve_json codec delete_version_body

  -- AdminGate. `next` is the debug handler behind it.
  pub gate_logged :
      Bool
      → (Request K → Server S W → Reply × Server S W)
      → Request K
      → Result (Unit {0}) × Server S W
      → Reply × Server S W
  gate_logged allowed next r (err e, s) =
      if allowed
      then (http_error (text "internal error") 500, s)
      else (http_error (text "access denied") 403, s)
  gate_logged allowed next r (ok u, s) =
      if not allowed then (http_error (text "access denied") 403, s) else next r s

  pub gate_identified :
      (Request K → Server S W → Reply × Server S W)
      → Request K
      → Result (Caller R)
      → Server S W
      → Reply × Server S W
  gate_identified next r (err e) s =
      if r.gone_after_whois then (silent, s) else (http_error (text "identity unavailable") 503, s)
  gate_identified next r (ok c) s =
      let allowed = services.allow c.perms action_delete (text "*") in
      gate_logged allowed next r (log_access c action_delete r.path 0 allowed s)

  unfoldable pub admin_gate :
      (Request K → Server S W → Reply × Server S W) → Request K → Server S W → Reply × Server S W
  admin_gate next r s =
      if not (bytes_eq r.no_browsers (text "setec"))
      then (http_error (text "access denied") 403, s)
      else gate_identified next r (get_identity services.unmarshal r) s
