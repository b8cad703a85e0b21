-- ===== src/Server/Examples.antt =====
-- server/server.go over backend/mem/mem.go, for one caller that may do what its rules name.
use ts1p.Prelude.{false, ◌≡◌, refl, true, some, List, [], ◌∷◌, Bytes, text, nat_eq}
use ts1p.Errors.{ok}
use ts1p.Mem
use ts1p.Mem.{Records}
use ts1p.Server.{Server, Services}
use ts1p.Server.Wire.{Reply, json, action_put, AuditEntry, Request}
use ts1p.Server.Requests.{Codecs, Route, Access, serve, serve-Access, subject}
use ts1p.Server.Routes.{DebugRoute, Handlers}
use ts1p.Server.Replies.{spoke, serve-spoke}

abbrev db : Bytes
db = text "db"

abbrev tester : Services (List AuditEntry) (Unit {0}) (Unit {0})
tester = record {
  allow = λ rules action secret. true;
  write_entries = λ entry log. (ok tt, entry ∷ log);
  unmarshal = λ cap caps. ok (tt ∷ []);
}

-- Bodies that all ask for the same.
abbrev codecs : Codecs
codecs = record {
  get = record {
    decode = λ n body. some (record { name = body; version = 0; update_if_changed = false });
    marshal = λ sv. ok sv.value;
  };
  info = record { decode = λ n body. some (record { name = body }); marshal = λ i. ok i.name };
  put = record {
    decode = λ n body. some (record { name = body; value = text "v" });
    marshal = λ v. ok (v ∷ []);
  };
  create_version = record {
    decode = λ n body. some (record { name = body; version = 2; value = text "w" });
    marshal = λ u. ok [];
  };
  activate = record {
    decode = λ n body. some (record { name = body; version = 2 });
    marshal = λ u. ok [];
  };
  delete_secret = record { decode = λ n body. some (record { name = body }); marshal = λ u. ok [] };
  delete_version = record {
    decode = λ n body. some (record { name = body; version = 1 });
    marshal = λ u. ok [];
  };
}

abbrev pub request : Request (Unit {0})
request = record {
  method = text "POST";
  content_type = text "application/json";
  no_browsers = text "setec";
  cache_control = [];
  path = text "/api/put";
  body = db;
  remote = ok (text "100.64.0.1");
  whois = ok (
      some (record {
        node = some (record { is_tagged = false; tags = []; name = text "laptop" });
        user_profile = some (text "alice");
        cap_map = tt;
      }));
  gone_at_whois = false;
  gone_after_whois = false;
  gone_during = false;
  gone_at_end = false;
}

abbrev fresh : Server Records (List AuditEntry)
fresh = record { db = []; log = [] }

serve-Access_example :
    Access Mem.backend 4294967296 tester action_put
      (subject codecs Route.put db)
      request
      fresh
      (serve Mem.backend 4294967296 tester codecs Route.put request fresh)
serve-Access_example = serve-Access Mem.backend 4294967296 tester codecs Route.put request fresh

serve-spoke_example :
    spoke (serve Mem.backend 4294967296 tester codecs Route.put request fresh).0 ≡ true
serve-spoke_example =
    serve-spoke Mem.backend 4294967296 tester request refl refl codecs Route.put fresh

-- A debug handler that empties the storage.
abbrev wipe :
    Request (Unit {0}) → Server Records (List AuditEntry) → Reply × Server Records (List AuditEntry)
wipe r s = (json 200 [], record s { db = [] })

abbrev handlers : Handlers Records (List AuditEntry) (Unit {0})
handlers = record { vars = wipe; metrics = wipe; flush_cache = wipe; full = [] }

abbrev debug_request : Request (Unit {0})
debug_request = record request { path = text "/debug/vars" }

-- Another route of the mux.
abbrev healthz : DebugRoute Records (List AuditEntry) (Unit {0})
healthz = record { method = []; path = text "/healthz"; handler = λ r s. (json 200 [], s) }
