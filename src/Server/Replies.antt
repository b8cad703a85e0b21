-- ===== src/Server/Replies.antt =====
-- server/server.go: which requests get a reply.
use ts1p.Prelude.{
  ℕ, ◌≡◌, refl, inl, inr, Bool, true, false, Bool-cases, Option, none, some, Bytes, bytes_eq, text,
  arith,
}
use ts1p.Errors.{Error, Result, ok, err}
use ts1p.Exec.{Exec}
use ts1p.Backend.{Backend, Context}
use ts1p.Server
use ts1p.Server.{
  Server, Services, serve_json, run_identified, run_decoded, finish, respond, encoded, error_reply,
  identity_error, max_request_bytes,
}
use ts1p.Server.Wire.{Request, Reply, silent, http_error, json, no_body, Codec}
use ts1p.Server.Identity.{Caller, get_identity}
use ts1p.Server.Requests.{Codecs, Route, serve}

-- The handler has written a reply.
unfoldable pub spoke : Reply → Bool
spoke silent = false
spoke (http_error m status) = true
spoke (json status bs) = true
spoke (no_body status) = true

error_reply-spoke : (e : Error) → spoke (error_reply false e) ≡ true
unfolding error_reply spoke
error_reply-spoke e = ground arith

identity_error-spoke : (e : Error) → spoke (identity_error false e) ≡ true
unfolding identity_error spoke
identity_error-spoke e = ground arith

encoded-spoke : (x : Result Bytes) → spoke (encoded x) ≡ true
unfolding encoded spoke
encoded-spoke (ok bs) = refl
encoded-spoke (err e) = refl

respond-spoke :
    {Resp : Type 0} (marshal : Resp → Result Bytes) (x : Result Resp)
    → spoke (respond marshal false x) ≡ true
unfolding respond
respond-spoke marshal (ok y) = encoded-spoke (marshal y)
respond-spoke marshal (err e) = error_reply-spoke e

module _ {S W K R : Type 0} (b : Backend S) (modulus : ℕ) (services : Services W K R)
    (r : Request K) (stays : r.gone_after_whois ≡ false) (remains : r.gone_at_end ≡ false) where
  module _ {Req Resp : Type 0} (codec : Codec Req Resp)
      (fn : Context → Req → Caller R → Exec (Server S W) Resp) (s : Server S W) where
    finish-spoke :
        (x : Result Resp × Server S W)
        → spoke (finish b modulus services codec.marshal r x).0 ≡ true
    unfolding finish
    finish-spoke (x, t) = rw remains (respond-spoke codec.marshal x)

    decoded-spoke :
        (c : Caller R) (o : Option Req)
        → spoke (run_decoded b modulus services codec fn r c o s).0 ≡ true
    unfolding run_decoded spoke
    decoded-spoke c none = refl
    decoded-spoke c (some req) = finish-spoke _

    identified-spoke :
        (x : Result (Caller R)) → spoke (run_identified b modulus services codec fn r x s).0 ≡ true
    unfolding run_identified
    identified-spoke (err e) = rw stays (identity_error-spoke e)
    identified-spoke (ok c) = decoded-spoke c (codec.decode max_request_bytes r.body)

    serve_json-spoke : spoke (serve_json b modulus services codec fn r s).0 ≡ true
    unfolding serve_json spoke
    serve_json-spoke = elim (Bool-cases (bytes_eq r.method (text "POST"))) [
      | inr m ↦ simp m
      | inl m ↦ simp m (elim (Bool-cases (bytes_eq r.content_type (text "application/json"))) [
        | inr t ↦ simp t
        | inl t ↦ simp t (elim (Bool-cases (bytes_eq r.no_browsers (text "setec"))) [
          | inr h ↦ simp h
          | inl h ↦ simp h (identified-spoke (get_identity services.unmarshal r))
        ])
      ])
    ]

  -- Every request that names a secret is answered, on every path, if its caller is still there after
  -- WhoIs and at the end.
  pub serve-spoke :
      (cs : Codecs) (route : Route) (s : Server S W)
      → spoke (serve b modulus services cs route r s).0 ≡ true
  unfolding serve Server.get Server.info Server.put Server.create_version Server.activate
      Server.delete_secret Server.delete_version
  serve-spoke cs Route.get s = serve_json-spoke cs.get _ s
  serve-spoke cs Route.info s = serve_json-spoke cs.info _ s
  serve-spoke cs Route.put s = serve_json-spoke cs.put _ s
  serve-spoke cs Route.create_version s = serve_json-spoke cs.create_version _ s
  serve-spoke cs Route.activate s = serve_json-spoke cs.activate _ s
  serve-spoke cs Route.delete_secret s = serve_json-spoke cs.delete_secret _ s
  serve-spoke cs Route.delete_version s = serve_json-spoke cs.delete_version _ s
