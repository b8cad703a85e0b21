-- ===== src/Cache/Examples.antt =====
-- backend/cache/cache.go over backend/mem/mem.go, with an LRU that evicts nothing.
use ts1p.Prelude.{
  ◌<◌, arith, refl, false, none, some, [], ◌∷◌, inl, Bytes, bytes_eq_eq, nat_eq, text, Map, lookup,
  put, delete as erase, lookup-put, lookup-delete, lookup-put_self,
}
use ts1p.Backend.{Record, Context, clone-id}
use ts1p.Mem
use ts1p.Mem.{Records, backend-IsLawful}
use ts1p.Cache.Eviction.{Lru, IsLru, Entry}
use ts1p.Cache.Timing.{Config, expires_at}
use ts1p.Cache.Expiry.{Lasting, expires_at-Lasting}
use ts1p.Cache.{Cache, save, delete, load, list}
use ts1p.Cache.Coherence.{IsExclusive, IsCoherent, Answered, Listed, load-Answered, list-Listed}
use ts1p.Cache.Lawful.{Transparent, cache-Transparent}
use ts1p.Cache.Writes.{Wrote, save-Wrote, delete-Wrote}

abbrev pub Entries : Type 0
Entries = Map Bytes Entry

abbrev pub assoc : Lru Entries
assoc = record {
  get = λ k l. (lookup k l, l);
  peek = λ k l. lookup k l;
  add = λ k e l. put k e l;
  remove = λ k l. erase k l;
  purge = λ l. [];
}

pub assoc-IsLru : IsLru assoc
unfolding lookup
assoc-IsLru = record {
  get_value = λ k l. refl;
  peek_get = λ j k l. refl;
  peek_add_self = λ k e l. lookup-put_self k e l;
  peek_add_ne = λ j k e l h. inl (rw (lookup-put, h));
  peek_remove = λ j k l. lookup-delete k j l;
  peek_purge = λ j l. refl;
}

pub mem-IsExclusive : IsExclusive backend-IsLawful
unfolding Mem.backend-IsLawful Mem.save Mem.remove
mem-IsExclusive = record {
  always = λ ctx. refl;
  save_exact = λ ctx n r s i h k. rw (lookup-put, clone-id);
  save_failed = λ ctx n r s e h. absurd (cc);
  delete_failed = λ ctx n s e h. absurd (cc);
}

abbrev pub plain : Context
plain = record { force = false; gone = false }

-- An hour, with a clock that stands still.
abbrev pub hourly : Config
hourly = record { ttl = 3600000000000; clock = λ k. 7; draw = λ k. 5 }

abbrev pub db : Bytes
db = text "db"

abbrev pub db_record : Record
db_record = record {
  name = db;
  versions = (1, text "one") ∷ [];
  active = 1;
  latest = 1;
  deleted = none;
}

hourly_expires : 0 < hourly.ttl
hourly_expires = omega arith

-- A secret that is held, and nothing cached.
abbrev pub cold : Cache Records Entries
cold = record {
  inner = (db, db_record) ∷ [];
  recs = [];
  seq = 0;
  names = none;
  oracle = record { reads = 0; draws = 0 };
  stale_served = 0;
}

pub cold-IsCoherent :
    IsCoherent Mem.backend assoc hourly assoc-IsLru backend-IsLawful mem-IsExclusive cold
unfolding Mem.backend-IsLawful lookup
cold-IsCoherent = record {
  inv = tt;
  agrees = record { at = λ k e p. absurd (cc); listed = λ n p. absurd (cc) };
}

load-Answered_example :
    Answered Mem.backend assoc hourly assoc-IsLru backend-IsLawful mem-IsExclusive plain db cold
      (load Mem.backend assoc hourly plain db cold)
load-Answered_example =
    load-Answered Mem.backend assoc hourly assoc-IsLru backend-IsLawful mem-IsExclusive plain db
      cold cold-IsCoherent

list-Listed_example :
    Listed Mem.backend assoc hourly assoc-IsLru backend-IsLawful mem-IsExclusive cold
      (list Mem.backend assoc hourly plain cold)
list-Listed_example =
    list-Listed Mem.backend assoc hourly assoc-IsLru backend-IsLawful mem-IsExclusive plain cold
      cold-IsCoherent

save-Wrote_example :
    Wrote Mem.backend assoc hourly assoc-IsLru backend-IsLawful mem-IsExclusive db
      (some db_record)
      cold
      (save Mem.backend assoc hourly plain db db_record cold)
save-Wrote_example =
    save-Wrote Mem.backend assoc hourly assoc-IsLru backend-IsLawful mem-IsExclusive db cold
      cold-IsCoherent plain db_record

delete-Wrote_example :
    Wrote Mem.backend assoc hourly assoc-IsLru backend-IsLawful mem-IsExclusive db none cold
      (delete Mem.backend assoc hourly plain db cold)
delete-Wrote_example =
    delete-Wrote Mem.backend assoc hourly assoc-IsLru backend-IsLawful mem-IsExclusive db cold
      cold-IsCoherent plain

expires_at-Lasting_example :
    Lasting hourly cold.oracle hourly_expires (expires_at hourly cold.oracle)
expires_at-Lasting_example = expires_at-Lasting hourly cold.oracle hourly_expires

cache-Transparent_example :
    Transparent Mem.backend assoc hourly assoc-IsLru backend-IsLawful mem-IsExclusive
cache-Transparent_example =
    cache-Transparent Mem.backend assoc hourly assoc-IsLru backend-IsLawful mem-IsExclusive
