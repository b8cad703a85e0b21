-- ===== src/Server/Requests.antt =====
-- server/server.go: the seven handlers that name a secret, from the request to the reply.
use ts1p.Prelude.{
  ℕ, ◌≡◌, refl, inl, inr, Bool, true, false, Bool-cases, Option, none, some, Bytes, bytes_eq, text,
}
use ts1p.Errors.{Error, Result, ok, err}
use ts1p.Exec.{Exec}
use ts1p.Backend.{Backend, Context}
use ts1p.Store.{SecretValue, SecretInfo}
use ts1p.Server
use ts1p.Server.{
  Server, Services, serve_json, run_identified, run_decoded, finish, respond, encoded, error_reply,
  identity_error, max_request_bytes, call_context, get_body, info_body, put_body,
  create_version_body, activate_body, delete_body, delete_version_body,
}
use ts1p.Server.Wire.{
  Action, action_get, action_info, action_put, action_create_version, action_activate,
  action_delete, GetRequest, NameRequest, PutRequest, CreateVersionRequest, VersionRequest, Request,
  Reply, Codec,
}
use ts1p.Server.Identity.{Caller, get_identity}
use ts1p.Server.Access.{
  succeeded, written, Guarded, get-Guarded, put-Guarded, create_version-Guarded, activate-Guarded,
  checked-Guarded, error_reply-fails, identity_error-fails,
}

pub record Codecs : Type 0 where
  pub get : Codec GetRequest SecretValue
  pub info : Codec NameRequest SecretInfo
  pub put : Codec PutRequest ℕ
  pub create_version : Codec CreateVersionRequest (Unit {0})
  pub activate : Codec VersionRequest (Unit {0})
  pub delete_secret : Codec NameRequest (Unit {0})
  pub delete_version : Codec VersionRequest (Unit {0})

-- The paths of the API at which a request names a secret.
pub data Route : Type 0 where
  get info put create_version activate delete_secret delete_version : Route

abbrev pub action_of : Route → Action
action_of get = action_get
action_of info = action_info
action_of put = action_put
action_of create_version = action_create_version
action_of activate = action_activate
action_of delete_secret = action_delete
action_of delete_version = action_delete

named : {Req : Type 0} → (Req → Bytes) → Option Req → Option Bytes
named f none = none
named f (some req) = some (f req)

-- The secret that the body of a request names.
abbrev in_body : {Req Resp : Type 0} → Codec Req Resp → (Req → Bytes) → Bytes → Option Bytes
in_body codec f body = named f (codec.decode max_request_bytes body)

unfoldable pub subject : Codecs → Route → Bytes → Option Bytes
unfolding named
subject cs get body = in_body cs.get (λ req. req.name) body
subject cs info body = in_body cs.info (λ req. req.name) body
subject cs put body = in_body cs.put (λ req. req.name) body
subject cs create_version body = in_body cs.create_version (λ req. req.name) body
subject cs activate body = in_body cs.activate (λ req. req.name) body
subject cs delete_secret body = in_body cs.delete_secret (λ req. req.name) body
subject cs delete_version body = in_body cs.delete_version (λ req. req.name) body

module _ {S W K R : Type 0} (b : Backend S) (modulus : ℕ) (services : Services W K R) where
  unfoldable pub serve : Codecs → Route → Request K → Server S W → Reply × Server S W
  serve cs get = Server.get b modulus services cs.get
  serve cs info = Server.info b modulus services cs.info
  serve cs put = Server.put b modulus services cs.put
  serve cs create_version = Server.create_version b modulus services cs.create_version
  serve cs activate = Server.activate b modulus services cs.activate
  serve cs delete_secret = Server.delete_secret b modulus services cs.delete_secret
  serve cs delete_version = Server.delete_version b modulus services cs.delete_version

  -- What a request to do `a` to the secret `subject` ends in.
  pub data Access (a : Action) (subject : Option Bytes) (r : Request K) (s : Server S W)
      (x : Reply × Server S W) : Type 0 where
    -- nothing of the storage is touched, and nothing is answered
    refused : x.1.db ≡ s.db → succeeded x.0 ≡ false → Access a subject r s x
    -- the caller is known and allowed, and the writer took the entry that says so
    audited :
        (c : Caller R) (n : Bytes) (v : ℕ)
        → get_identity services.unmarshal r ≡ ok c
        → subject ≡ some n
        → services.allow c.perms a n ≡ true
        → (written b modulus services c a n v s.log).0 ≡ ok tt
        → x.1.log ≡ (written b modulus services c a n v s.log).1
        → Access a subject r s x
    -- an allowed read, which is not answered with a value
    withheld :
        (c : Caller R) (n : Bytes)
        → get_identity services.unmarshal r ≡ ok c
        → subject ≡ some n
        → services.allow c.perms a n ≡ true
        → a ≡ action_get
        → succeeded x.0 ≡ false
        → Access a subject r s x

  respond-fails :
      {Resp : Type 0} (marshal : Resp → Result Bytes) (gone : Bool) (x : Result Resp) (e : Error)
      → x ≡ err e
      → succeeded (respond marshal gone x) ≡ false
  unfolding respond
  respond-fails marshal gone (err f) e h = error_reply-fails gone f
  respond-fails marshal gone (ok y) e h = absurd (cc)

  module _ {Req Resp : Type 0} (a : Action) (f : Req → Bytes) (r : Request K) (s : Server S W) where
    finish-Access :
        (marshal : Resp → Result Bytes) (c : Caller R) (req : Req) (x : Result Resp × Server S W)
        → get_identity services.unmarshal r ≡ ok c
        → Guarded b modulus services c a (f req) s x
        → Access a (some (f req)) r s (finish b modulus services marshal r x)
    unfolding finish
    finish-Access marshal c req x i (Guarded.refused e d q) =
        Access.refused d (respond-fails marshal r.gone_at_end x.0 e q)
    finish-Access marshal c req x i (Guarded.audited v h w l) =
        Access.audited c (f req) v i refl h w l
    finish-Access marshal c req x i (Guarded.withheld e h g q) =
        Access.withheld c (f req) i refl h g (respond-fails marshal r.gone_at_end x.0 e q)

    module _ (codec : Codec Req Resp) (fn : Context → Req → Caller R → Exec (Server S W) Resp)
        (guarded : (ctx : Context) (req : Req) (c : Caller R)
          → Guarded b modulus services c a (f req) s (fn ctx req c s)) where
      decoded-Access :
          (c : Caller R) (o : Option Req)
          → get_identity services.unmarshal r ≡ ok c
          → Access a (named f o) r s (run_decoded b modulus services codec fn r c o s)
      unfolding run_decoded named succeeded
      decoded-Access c none i = Access.refused refl refl
      decoded-Access c (some req) i =
          finish-Access codec.marshal c req _ i (guarded (call_context b modulus services r) req c)

      identified-Access :
          (x : Result (Caller R))
          → get_identity services.unmarshal r ≡ x
          → Access a (in_body codec f r.body) r s (run_identified b modulus services codec fn r x s)
      unfolding run_identified
      identified-Access (err e) i = Access.refused refl (identity_error-fails r.gone_after_whois e)
      identified-Access (ok c) i = decoded-Access c (codec.decode max_request_bytes r.body) i

      serve_json-Access :
          Access a (in_body codec f r.body) r s (serve_json b modulus services codec fn r s)
      unfolding serve_json succeeded
      serve_json-Access = elim (Bool-cases (bytes_eq r.method (text "POST"))) [
        | inr m ↦ simp m (Access.refused refl refl)
        | inl m ↦ simp m (elim (Bool-cases (bytes_eq r.content_type (text "application/json"))) [
          | inr t ↦ simp t (Access.refused refl refl)
          | inl t ↦ simp t (elim (Bool-cases (bytes_eq r.no_browsers (text "setec"))) [
            | inr h ↦ simp h (Access.refused refl refl)
            | inl h ↦ simp h (identified-Access _ refl)
          ])
        ])
      ]

  -- A request that names a secret leaves the storage alone and is not answered with success; or its
  -- caller is identified and the rules allow the action on that secret, and the audit writer has
  -- taken the entry that records it, once; or it is an allowed get that is not answered with a value.
  pub serve-Access :
      (cs : Codecs) (route : Route) (r : Request K) (s : Server S W)
      → Access (action_of route) (subject cs route r.body) r s (serve cs route r s)
  unfolding serve subject Server.get Server.info Server.put Server.create_version Server.activate
      Server.delete_secret Server.delete_version info_body delete_body delete_version_body
  serve-Access cs get r s =
      serve_json-Access action_get (λ req. req.name) r s cs.get _
        (λ ctx req c. get-Guarded b modulus services ctx req c s)
  serve-Access cs info r s =
      serve_json-Access action_info (λ req. req.name) r s cs.info _
        (λ ctx req c. checked-Guarded b modulus services c action_info req.name s 0 _)
  serve-Access cs put r s =
      serve_json-Access action_put (λ req. req.name) r s cs.put _
        (λ ctx req c. put-Guarded b modulus services ctx req c s)
  serve-Access cs create_version r s =
      serve_json-Access action_create_version (λ req. req.name) r s cs.create_version _
        (λ ctx req c. create_version-Guarded b modulus services ctx req c s)
  serve-Access cs activate r s =
      serve_json-Access action_activate (λ req. req.name) r s cs.activate _
        (λ ctx req c. activate-Guarded b modulus services ctx req c s)
  serve-Access cs delete_secret r s =
      serve_json-Access action_delete (λ req. req.name) r s cs.delete_secret _
        (λ ctx req c. checked-Guarded b modulus services c action_delete req.name s 0 _)
  serve-Access cs delete_version r s =
      serve_json-Access action_delete (λ req. req.name) r s cs.delete_version _
        (λ ctx req c. checked-Guarded b modulus services c action_delete req.name s req.version _)
