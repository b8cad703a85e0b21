-- ===== src/Cache/Warmer/Examples.antt =====
-- backend/cache/warmer.go over backend/mem/mem.go.
use ts1p.Prelude.{refl, true, false, [], ◌∷◌, bytes_eq, bytes_eq_eq, text, lookup, arith}
use ts1p.Backend.{clone}
use ts1p.Mem
use ts1p.Mem.{Records, backend-IsLawful}
use ts1p.Cache.Examples.{
  Entries, assoc, assoc-IsLru, mem-IsExclusive, hourly, db, db_record, cold, cold-IsCoherent,
}
use ts1p.Cache.Warmer.{Loop, Pass, timed_out, reconcile, pass, loop, visit}
use ts1p.Cache.Warmer.Reconcile.{IsOrder, Reconciled, reconcile-Reconciled}
use ts1p.Cache.Warmer.Passes.{Passed, pass-Passed, Sweeps, none_left, one_more, Ran, loop-Ran}
use ts1p.Cache.Warmer.Asking.{Warming, noting}
use ts1p.Cache.Warmer.Sweeping.{Warms, pass-Warms}
use ts1p.Cache.Warmer.Timing.{Covered, visit-Covered}

abbrev calm : Pass
calm = record {
  done_first = false;
  waited = true;
  sweep = λ ns. ns;
  order = λ ns. ns;
  done_before = λ n. false;
  done_at_warm = λ n. false;
  wake = timed_out;
}

calm-IsOrder : IsOrder calm.sweep
calm-IsOrder = record { visits = λ k ns. refl }

-- A name that is gone, and one that is held.
abbrev behind : Loop Records Entries
behind = record {
  cache = cold;
  next = (text "old", 3) ∷ (db, 5) ∷ [];
  relist_at = 0;
  reprime_asked = false;
}

reconcile-Reconciled_example :
    Reconciled Mem.backend assoc hourly assoc-IsLru
      (db ∷ [])
      7
      behind
      (reconcile Mem.backend assoc hourly calm.sweep (db ∷ []) behind)
reconcile-Reconciled_example =
    reconcile-Reconciled Mem.backend assoc hourly assoc-IsLru calm.sweep calm-IsOrder (db ∷ [])
      behind

pass-Passed_example :
    Passed Mem.backend assoc hourly assoc-IsLru backend-IsLawful mem-IsExclusive calm behind
      (pass Mem.backend assoc hourly calm behind)
pass-Passed_example =
    pass-Passed Mem.backend assoc hourly assoc-IsLru backend-IsLawful mem-IsExclusive calm
      calm-IsOrder behind cold-IsCoherent

calm-Sweeps : Sweeps (calm ∷ calm ∷ [])
calm-Sweeps = one_more calm (calm ∷ []) calm-IsOrder (one_more calm [] calm-IsOrder none_left)

loop-Ran_example :
    Ran Mem.backend assoc hourly assoc-IsLru backend-IsLawful mem-IsExclusive calm false cold
      (loop Mem.backend assoc hourly (calm ∷ calm ∷ []) false cold)
loop-Ran_example =
    loop-Ran Mem.backend assoc hourly assoc-IsLru backend-IsLawful mem-IsExclusive calm (calm ∷ [])
      false cold calm-Sweeps cold-IsCoherent

-- The same names, over a backend that notes what it is asked for.
abbrev noted : Warming Records Entries
noted = record {
  cache = record {
    inner = ([], cold.inner);
    recs = cold.recs;
    seq = cold.seq;
    names = cold.names;
    oracle = cold.oracle;
    stale_served = cold.stale_served;
  };
  next = behind.next;
  relist_at = 0;
  reprime_asked = false;
}

pass-Warms_example :
    Warms Mem.backend assoc hourly assoc-IsLru
      (omega arith)
      (λ i j h. omega arith)
      calm
      (λ n. refl)
      (λ n. refl)
      calm-IsOrder
      refl
      noted
      (pass (noting Mem.backend) assoc hourly calm noted)
pass-Warms_example =
    pass-Warms Mem.backend assoc hourly assoc-IsLru (omega arith) (λ i j h. omega arith) calm
      (λ n. refl) (λ n. refl) calm-IsOrder refl refl noted

visit-Covered_example :
    Covered Mem.backend assoc hourly assoc-IsLru db db_record
      (visit Mem.backend assoc hourly false db behind)
unfolding lookup bytes_eq Mem.load clone
visit-Covered_example =
    visit-Covered Mem.backend assoc hourly assoc-IsLru db behind 5 db_record cold.inner
      (omega arith) refl (omega arith) refl (omega arith)
