-- ===== src/Cache/Interleaving/Examples.antt =====
-- backend/cache/cache.go: a write between the answer of a fetch and its landing.
use ts1p.Prelude.{true, none, some, [], ◌∷◌, ◌≡◌, eqb, bytes_eq_eq, text}
use ts1p.Errors.{ok}
use ts1p.Backend.{Record}
use ts1p.Mem
use ts1p.Mem.{Records}
use ts1p.Cache.{saved, fill}
use ts1p.Cache.Examples.{Entries, assoc, plain, hourly, db, db_record, cold}
use ts1p.Cache.Interleaving.{System, idle, saving, update, with_inner}

abbrev S : Type 0
S = System Records Entries

abbrev new_record : Record
new_record = record db_record {
  versions = (1, text "one") ∷ (2, text "two") ∷ [];
  active = 2;
  latest = 2;
}

abbrev start : S
start = record { cache = cold; flights = λ i. none; list_flights = λ i. none; writer = idle }

abbrev asked : S
asked = record start {
  flights = update start.flights 0 (some (record { name = db; seq = 0; answer = none }));
}

abbrev told : S
told = record asked {
  flights =
      update asked.flights 0 (some (record { name = db; seq = 0; answer = some (ok db_record) }));
}

abbrev written : S
written = record told {
  cache =
      with_inner Mem.backend assoc hourly told.cache
        (Mem.backend.save plain db new_record told.cache.inner).1;
  writer = saving db new_record;
}

abbrev cached : S
cached = record written {
  cache =
      (saved Mem.backend assoc hourly db new_record written.cache (ok tt, written.cache.inner)).1;
  writer = idle;
}

abbrev landed : S
landed = record cached {
  cache = (fill Mem.backend assoc hourly db 0 cached.cache (ok db_record, cached.cache.inner)).1;
  flights = update cached.flights 0 none;
}
