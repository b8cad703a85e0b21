-- ===== src/Serving/Examples.antt =====
-- cmd/ts1p/main.go: a production instance that is stopped.
use ts1p.Prelude.{◌≡◌, refl, true, false, [], ◌∷◌, text, bytes_eq}
use ts1p.Errors.{ok}
use ts1p.Serving.{
  Flags, Outside, backend, tsnet, audit_log, debug_listener, warmer, http, https, opened, closed,
  canceled_warmer, listening, ready, drained, serve, validated, service_name, build_backend,
  with_backend, with_tsnet, with_audit, with_debug, with_warmer, serve_mode, choose_serve_mode,
  served, open_listener, emit, deferred,
}
use ts1p.Serving.Teardown.{TornDown, serve-TornDown}

abbrev production : Flags
production = record {
  state_dir = text "/var/lib/ts1p";
  vault = text "ts1p";
  op_max_age = 0;
  cache_expiry = 3600000000000;
  cache_warm = true;
  service = [];
  debug_addr = text "127.0.0.1:9090";
  dev = false;
}

abbrev healthy : Outside
healthy = record {
  token = text "ops";
  validate = λ s. ok tt;
  connect = ok tt;
  local_client = ok tt;
  up = ok tt;
  open_audit = ok tt;
  new_server = ok tt;
  listen_debug = ok tt;
  cert_domains = text "ts1p.example.ts.net" ∷ [];
  listen = λ l. ok tt;
  serve_end = ok tt;
}

-- The latest event first.
whole_run : serve healthy production [] ≡ (
  ok tt,
  closed backend
      ∷ closed tsnet
      ∷ closed audit_log
      ∷ closed debug_listener
      ∷ closed warmer
      ∷ canceled_warmer
      ∷ drained
      ∷ ready
      ∷ listening https
      ∷ listening http
      ∷ opened warmer
      ∷ opened debug_listener
      ∷ opened audit_log
      ∷ opened tsnet
      ∷ opened backend
      ∷ [],
)
unfolding serve validated service_name build_backend with_backend with_tsnet with_audit with_debug
    with_warmer serve_mode choose_serve_mode served open_listener emit deferred bytes_eq
whole_run = refl

serve-TornDown_example : TornDown healthy production (serve healthy production [])
serve-TornDown_example = serve-TornDown healthy production
