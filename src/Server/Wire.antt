-- ===== src/Server/Wire.antt =====
-- server/server.go: what comes in and goes out. The request and response types are those of setec's
-- types/api, with the fields that the handlers read; how JSON writes them is a codec, an argument.
use ts1p.Prelude.{ℕ, Bool, Option, List, Bytes}
use ts1p.Errors.{Result}

-- acl.Action
pub data Action : Type 0 where
  action_get action_info action_put action_create_version action_activate action_delete : Action

-- audit.Principal
pub record Principal : Type 0 where
  pub user : Bytes
  pub tags : List Bytes
  pub ip : Bytes
  pub hostname : Bytes

-- audit.Entry
pub record AuditEntry : Type 0 where
  pub principal : Principal
  pub action : Action
  pub secret : Bytes
  pub secret_version : ℕ
  pub authorized : Bool

pub record GetRequest : Type 0 where
  pub name : Bytes
  pub version : ℕ
  pub update_if_changed : Bool

-- InfoRequest and DeleteRequest
pub record NameRequest : Type 0 where
  pub name : Bytes

pub record PutRequest : Type 0 where
  pub name : Bytes
  pub value : Bytes

pub record CreateVersionRequest : Type 0 where
  pub name : Bytes
  pub version : ℕ
  pub value : Bytes

-- ActivateRequest and DeleteVersionRequest
pub record VersionRequest : Type 0 where
  pub name : Bytes
  pub version : ℕ

-- apitype.WhoIsResponse. `K` is the type of capability maps.
pub record Node : Type 0 where
  pub is_tagged : Bool
  pub tags : List Bytes
  pub name : Bytes

pub record Who (K : Type 0) : Type 0 where
  pub node : Option Node
  -- the login name of a user profile
  pub user_profile : Option Bytes
  pub cap_map : K

-- An HTTP request, with what is known of it from outside: the parsed address of the peer, the answer
-- of WhoIs, and whether the caller has gone at each moment when the code looks.
pub record Request (K : Type 0) : Type 0 where
  pub method : Bytes
  pub content_type : Bytes
  pub no_browsers : Bytes
  pub cache_control : Bytes
  pub path : Bytes
  pub body : Bytes
  pub remote : Result Bytes
  pub whois : Result (Option (Who K))
  pub gone_at_whois : Bool
  pub gone_after_whois : Bool
  pub gone_during : Bool
  pub gone_at_end : Bool

-- `silent`: the handler returns without writing. `http_error`: http.Error. `json`: a reply of the
-- content type application/json. `no_body`: a status and nothing else.
pub data Reply : Type 0 where
  silent : Reply
  http_error : Bytes → ℕ → Reply
  json : ℕ → Bytes → Reply
  no_body : ℕ → Reply

-- json.NewDecoder on a body of which at most so many bytes are read, and json.Marshal
pub record Codec (Req Resp : Type 0) : Type 0 where
  pub decode : ℕ → Bytes → Option Req
  pub marshal : Resp → Result Bytes
