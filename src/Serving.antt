-- ===== src/Serving.antt =====
-- cmd/ts1p/main.go: what the process opens and closes, in which order, as a list of events with the
-- latest first. What the outside answers (1Password, tsnet, files, listeners) is an argument.
mod Teardown
mod Examples
use ts1p.Prelude.{
  ℕ, ◌*◌, Bool, true, false, not, ◌&&◌, ◌||◌, Option, none, some, List, [], ◌∷◌, ◌++◌,
  if◌then◌else◌, eqb, ltb, Bytes, bytes_eq, text, has_prefix,
}
use ts1p.Errors.{Error, Sentinel, sentinel, wrap, Result, ok, err}
use ts1p.Exec.{Exec, pure, raise, throw, lift, ◌>>=◌, ◌>>◌}

pub data Part : Type 0 where
  backend tsnet audit_log debug_listener warmer : Part

pub data Listener : Type 0 where
  http https service_listener : Listener

pub data Event : Type 0 where
  opened closed : Part → Event
  -- the context of the warmer
  canceled_warmer : Event
  listening : Listener → Event
  -- sdReady
  ready : Event
  -- shutdownOnDone is through
  drained : Event

abbrev pub Trace : Type 0
Trace = List Event

-- The flags that steer `serve`; durations are nanoseconds, and one that is not positive is 0.
pub record Flags : Type 0 where
  pub state_dir : Bytes
  pub vault : Bytes
  pub op_max_age : ℕ
  pub cache_expiry : ℕ
  pub cache_warm : Bool
  pub service : Bytes
  pub debug_addr : Bytes
  pub dev : Bool

pub record Outside : Type 0 where
  -- OP_SERVICE_ACCOUNT_TOKEN
  pub token : Bytes
  -- tailcfg.ServiceName.Validate
  pub validate : Bytes → Result (Unit {0})
  -- onepassword.New
  pub connect : Result (Unit {0})
  pub local_client : Result (Unit {0})
  pub up : Result (Unit {0})
  pub open_audit : Result (Unit {0})
  pub new_server : Result (Unit {0})
  pub listen_debug : Result (Unit {0})
  pub cert_domains : List Bytes
  pub listen : Listener → Result (Unit {0})
  -- how http.Server.Serve ends; ErrServerClosed is no error here
  pub serve_end : Result (Unit {0})

pub data ServeMode : Type 0 where
  mode_dev mode_service mode_tls : ServeMode

-- 10 * time.Minute
abbrev shortest_age : ℕ
shortest_age = 10 * 60000000000

unfoldable choose_serve_mode : Bool → Bytes → ServeMode
choose_serve_mode dev service =
    if dev then mode_dev else if not (bytes_eq service []) then mode_service else mode_tls

emit : Event → Exec Trace (Unit {0})
emit e t = (ok tt, e ∷ t)

-- defer
deferred : Event → Exec Trace (Unit {0}) → Exec Trace (Unit {0})
deferred e m t = let x = m t in (x.0, e ∷ x.1)

module _ (out : Outside) (flags : Flags) where
  with_service_prefix : Bytes → Bytes
  with_service_prefix s = if not (has_prefix (text "svc:") s) then text "svc:" ++ s else s

  unfoldable normalize_service : Bytes → Result Bytes
  unfolding with_service_prefix
  normalize_service s =
      let name = with_service_prefix s in
      elim (out.validate name) [ ok u ↦ ok name | err e ↦ err (wrap name e) ]

  -- Whether there is a cache.
  unfoldable build_backend : Result Bool
  build_backend =
      if flags.dev
      then ok false
      else if bytes_eq flags.vault []
      then err (sentinel Sentinel.vault_required)
      else if bytes_eq out.token []
      then err (sentinel Sentinel.token_required)
      else elim out.connect [
        | ok u ↦ ok true
        | err e ↦ err (wrap (text "connecting to 1Password") e)
      ]

  -- The end of serveDev, serveService and serveTLS.
  unfoldable served : Exec Trace (Unit {0})
  unfolding emit
  served = emit ready >> lift out.serve_end >> emit drained

  unfoldable open_listener : Listener → Exec Trace (Unit {0})
  unfolding emit
  open_listener l = lift (out.listen l) >> emit (listening l)

  unfoldable serve_mode : ServeMode → Exec Trace (Unit {0})
  unfolding served open_listener
  serve_mode mode_dev = open_listener http >> served
  serve_mode mode_service = open_listener service_listener >> served
  serve_mode mode_tls = elim out.cert_domains [
    | [] ↦ throw Sentinel.no_tls_domains
    | d ∷ ds ↦ open_listener http >> (open_listener https >> served)
  ]

  unfoldable with_warmer : Bool → Bytes → Exec Trace (Unit {0})
  unfolding emit deferred serve_mode choose_serve_mode
  with_warmer warm svc =
      if warm
      then emit (opened warmer)
        >> deferred (closed warmer)
            (deferred canceled_warmer (serve_mode (choose_serve_mode flags.dev svc)))
      else serve_mode (choose_serve_mode flags.dev svc)

  unfoldable with_debug : Bool → Bytes → Exec Trace (Unit {0})
  unfolding emit deferred with_warmer
  with_debug warm svc =
      if not flags.dev && not (bytes_eq flags.debug_addr [])
      then lift out.listen_debug
        >> (emit (opened debug_listener) >> deferred (closed debug_listener) (with_warmer warm svc))
      else with_warmer warm svc

  unfoldable with_audit : Bool → Bytes → Exec Trace (Unit {0})
  unfolding emit deferred with_debug
  with_audit warm svc =
      lift out.open_audit
      >> (emit (opened audit_log)
          >> deferred (closed audit_log) (lift out.new_server >> with_debug warm svc))

  -- The tsnet server is closed whether or not it came up.
  unfoldable with_tsnet : Bool → Bytes → Exec Trace (Unit {0})
  unfolding emit deferred with_audit
  with_tsnet warm svc =
      emit (opened tsnet)
      >> deferred (closed tsnet) (lift out.local_client >> (lift out.up >> with_audit warm svc))

  unfoldable with_backend : Bytes → Bool → Exec Trace (Unit {0})
  unfolding emit deferred with_tsnet
  with_backend svc cached =
      emit (opened backend)
      >> deferred (closed backend)
          (with_tsnet (cached && (flags.cache_warm && ltb 0 flags.cache_expiry)) svc)

  unfoldable service_name : Result Bytes
  unfolding normalize_service
  service_name =
      if not flags.dev && not (bytes_eq flags.service [])
      then normalize_service flags.service
      else ok []

  -- What is refused or fails before anything is opened, and what is then known.
  unfoldable validated : Result (Bytes × Bool)
  unfolding service_name build_backend
  validated =
      if bytes_eq flags.state_dir []
      then err (sentinel Sentinel.state_dir_required)
      else if ltb 0 flags.op_max_age && ltb flags.op_max_age shortest_age
      then err (sentinel Sentinel.op_max_age_too_short)
      else elim service_name [
        | err e ↦ err e
        | ok svc ↦ elim build_backend [ err e ↦ err e | ok cached ↦ ok (svc, cached) ]
      ]

  unfoldable serve : Exec Trace (Unit {0})
  unfolding validated with_backend
  serve = lift validated >>= λ x. with_backend x.0 x.1
