-- ===== src/Telemetry/Examples.antt =====
-- Tests of the counters, on two lookups, a log, a prefetch miss and a second log.
use qwen3_8_flash_dgx_auto_r.Common.{◌+◌, ◌≤◌, ◌≡◌, refl, true, false, List, [], ◌∷◌, replicate}
use qwen3_8_flash_dgx_auto_r.Telemetry.{calls, pf_miss, Event, run, fresh_counters}
use qwen3_8_flash_dgx_auto_r.Telemetry.Windows.{total, reported, is_windowed, run-balanced}
use qwen3_8_flash_dgx_auto_r.Telemetry.Exported.{refreshed, run-exported}

abbrev events : List Event
events =
    Event.add ((calls, 2) ∷ (pf_miss, 1) ∷ [])
    ∷ Event.log 40
    ∷ Event.add ((pf_miss, 1) ∷ [])
    ∷ Event.refresh
    ∷ Event.add ((calls, 1) ∷ [])
    ∷ Event.log 80
    ∷ []

calls_windowed : is_windowed calls ≡ true
calls_windowed = refl

misses_stay : is_windowed pf_miss ≡ false
misses_stay = refl

run-balanced_example :
    ((run 9000 30 fresh_counters events).stats_life calls
      ≡ fresh_counters.stats_life calls + total calls events)
    × (reported 9000 30 calls fresh_counters events
          + (run 9000 30 fresh_counters events).stats calls
        ≡ fresh_counters.stats calls + total calls events)
run-balanced_example = run-balanced 9000 30 calls events fresh_counters calls_windowed

-- A lookup adds a call after the refresher has read the calls, and before the snapshot: it is never
-- exported.
abbrev late : List Event
late =
    Event.add ((calls, 2) ∷ [])
    ∷ Event.refresh
    ∷ Event.add ((calls, 1) ∷ [])
    ∷ replicate 8 Event.refresh

late_is_lost :
    let t = refreshed 9000 30 (run 9000 30 fresh_counters late) in
    (t.counters calls ≡ 2) × (t.stats_life calls ≡ 3)
unfolding run fresh_counters
late_is_lost = (refl, refl)

run-exported_example :
    let t = run 9000 30 fresh_counters late in
    let t' = refreshed 9000 30 t in
    (t.counters calls ≤ t.stats_life calls)
    × (t'.counters calls + t.last_life calls ≡ t.counters calls + t.stats_life calls)
    × (t'.last_life calls ≡ t.stats_life calls)
    × (t'.counters calls ≤ t'.stats_life calls)
unfolding run fresh_counters
run-exported_example = run-exported 9000 30 late calls refl refl
