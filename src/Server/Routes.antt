-- ===== src/Server/Routes.antt =====
-- cmd/ts1p/main.go: registerDebug, the routes of the debug handlers, which are arguments, and a mux that
-- takes the first route of a request's path and method.
use ts1p.Prelude.{
  ℕ, ◌≡◌, Bool, true, false, ◌||◌, ◌&&◌, List, [], ◌∷◌, if◌then◌else◌, Bytes, bytes_eq, text,
}
use ts1p.Backend.{Backend}
use ts1p.Server.{Server, Services, admin_gate}
use ts1p.Server.Wire.{Request, Reply, http_error}
use ts1p.Server.Gate.{Gated}

abbrev pub Handler : Type 0 → Type 0 → Type 0 → Type 0
Handler S W K = Request K → Server S W → Reply × Server S W

-- A pattern of the mux; no method is every method, and GET is HEAD too.
pub record DebugRoute (S W K : Type 0) : Type 0 where
  pub method : Bytes
  pub path : Bytes
  pub handler : Handler S W K

-- What registerDebug registers: expvar's, Prometheus's, the cache's and tsweb's.
pub record Handlers (S W K : Type 0) : Type 0 where
  pub vars : Handler S W K
  pub metrics : Handler S W K
  pub flush_cache : Handler S W K
  pub full : List (DebugRoute S W K)

module _ {S W K R : Type 0} (b : Backend S) (modulus : ℕ) (services : Services W K R)
    (h : Handlers S W K) where
  abbrev vars_route : DebugRoute S W K
  vars_route = record {
    method = [];
    path = text "/debug/vars";
    handler = admin_gate b modulus services h.vars;
  }

  abbrev metrics_route : DebugRoute S W K
  metrics_route = record { method = text "GET"; path = text "/metrics"; handler = h.metrics }

  abbrev flush_route : DebugRoute S W K
  flush_route = record {
    method = [];
    path = text "/debug/flush-cache";
    handler = admin_gate b modulus services h.flush_cache;
  }

  flush_routes : Bool → List (DebugRoute S W K)
  flush_routes true = flush_route ∷ []
  flush_routes false = []

  unfoldable pub register_debug : Bool → Bool → List (DebugRoute S W K)
  unfolding flush_routes
  register_debug true has_cache = h.full
  register_debug false has_cache = vars_route ∷ metrics_route ∷ flush_routes has_cache

  unfoldable pub is_for : Request K → DebugRoute S W K → Bool
  is_for r route =
      bytes_eq route.path r.path
      && (bytes_eq route.method []
          || bytes_eq route.method r.method
          || (bytes_eq route.method (text "GET") && bytes_eq r.method (text "HEAD")))

  unfoldable pub dispatch : List (DebugRoute S W K) → Handler S W K
  dispatch [] r s = (http_error (text "404 page not found") 404, s)
  dispatch (route ∷ routes) r s =
      let rest = dispatch routes r s in if is_for r route then route.handler r s else rest

  module _ (r : Request K) (s : Server S W) where
    -- How a request ends on the mux of the production listener, whose other routes answer `rest`.
    pub data Guarded (has_cache : Bool) (rest x : Reply × Server S W) : Type 0 where
      by_vars :
          r.path ≡ text "/debug/vars"
          → Gated b modulus services h.vars r s x
          → Guarded has_cache rest x
      by_flush :
          has_cache ≡ true
          → r.path ≡ text "/debug/flush-cache"
          → Gated b modulus services h.flush_cache r s x
          → Guarded has_cache rest x
      by_metrics : r.path ≡ text "/metrics" → x ≡ h.metrics r s → Guarded has_cache rest x
      elsewhere :
          bytes_eq (text "/debug/vars") r.path ≡ false
          → (has_cache && bytes_eq (text "/debug/flush-cache") r.path) ≡ false
          → x ≡ rest
          → Guarded has_cache rest x
