-- ===== src/Server/Identity.antt =====
-- server/server.go: who calls, from the peer's address, WhoIs and the capabilities in its answer.
use ts1p.Prelude.{
  Bool, Option, none, some, List, [], ◌∷◌, ◌++◌, if◌then◌else◌, Bytes, bytes_eq, text,
}
use ts1p.Errors.{Sentinel, sentinel, wrap, join, Result, ok, err, fail}
use ts1p.Server.Wire.{Principal, Node, Who, Request}

abbrev pub acl_cap : Bytes
acl_cap = text "tailscale.com/cap/secrets"

abbrev pub acl_cap_http : Bytes
acl_cap_http = text "https://" ++ acl_cap

-- type caller; `R` is the type of acl.Rule.
pub record Caller (R : Type 0) : Type 0 where
  pub principal : Principal
  pub perms : List R

-- The user of a profile whose login name is not empty.
login_name : Option Bytes → Result (Bytes × List Bytes)
login_name none = fail Sentinel.no_caller_identity
login_name (some login) =
    if bytes_eq login [] then fail Sentinel.no_caller_identity else ok (login, [])

module _ {K R : Type 0} (unmarshal : Bytes → K → Result (List R)) where
  -- The switch on tags and login name: the principal's user and its tags.
  named : Node → Option Bytes → Result (Bytes × List Bytes)
  named node profile = if node.is_tagged then ok ([], node.tags) else login_name profile

  -- The rules under the capability's name, or under its other spelling if there are none.
  either_cap : K → Result (List R) → Result (List R)
  either_cap caps (ok []) = unmarshal acl_cap_http caps
  either_cap caps (ok (rule ∷ rules)) = ok (rule ∷ rules)
  either_cap caps (err e) = err e

  with_perms : Principal → Result (List R) → Result (Caller R)
  with_perms p (ok rules) = ok (record { principal = p; perms = rules })
  with_perms p (err e) = err (wrap (text "unmarshaling peer capabilities") e)

  from_names : Bytes → Node → K → Result (Bytes × List Bytes) → Result (Caller R)
  from_names ip node caps (err e) = err e
  from_names ip node caps (ok (user, tags)) =
      with_perms (record { user = user; tags = tags; ip = ip; hostname = node.name })
        (either_cap caps (unmarshal acl_cap caps))

  from_node : Bytes → Who K → Option Node → Result (Caller R)
  from_node ip who none =
      err (wrap (text "WhoIs returned no node") (sentinel Sentinel.identity_unavailable))
  from_node ip who (some node) = from_names ip node who.cap_map (named node who.user_profile)

  from_who : Bool → Bytes → Result (Option (Who K)) → Result (Caller R)
  from_who gone ip (err e) =
      if gone
      then err (wrap (text "calling WhoIs") e)
      else err (join (sentinel Sentinel.identity_unavailable) (wrap (text "calling WhoIs") e))
  from_who gone ip (ok none) =
      err (wrap (text "WhoIs returned no node") (sentinel Sentinel.identity_unavailable))
  from_who gone ip (ok (some who)) = from_node ip who who.node

  from_remote : Request K → Result Bytes → Result (Caller R)
  from_remote r (err e) = err (wrap (text "parsing RemoteAddr") e)
  from_remote r (ok ip) = from_who r.gone_at_whois ip r.whois

  unfoldable pub get_identity : Request K → Result (Caller R)
  unfolding from_remote from_who from_node from_names named either_cap with_perms login_name
  get_identity r = from_remote r r.remote
