-- ===== src/Telemetry.antt =====
-- The counters of the PLE lookup and their two readers: _stats_add and _stats_log of
-- src/vllm_ple_mmap.py, and _refresh_once, set_guard_hits and start of src/vllm_custom_metrics.py.
-- The refresher's steps come between those of the other threads. Times are whole units, of which the
-- code's floats are a finer division; a dict is the function that `get(key, 0)` reads from it.
mod Windows
mod Exported
mod Examples
use qwen3_8_flash_dgx_auto_r.Common.{
  ℕ, ◌+◌, ◌-◌, Bool, true, false, ◌||◌, ◌&&◌, List, [], ◌∷◌, Option, none, some, ltb, ◌==◌,
  if◌then◌else◌,
}
use qwen3_8_flash_dgx_auto_r.Scheduler.{pinned_bytes}

pub data Key : Type 0 where
  calls op_ms gather_ms rows bytes pf_hit pf_miss : Key

pub code : Key → ℕ
code calls = 0
code op_ms = 1
code gather_ms = 2
code rows = 3
code bytes = 4
code pf_hit = 5
code pf_miss = 6

abbrev pub Dict : Type 0
Dict = Key → ℕ

-- `d[k] = d.get(k, 0) + v`
pub bump : Key → ℕ → Dict → Dict
unfolding code
bump k v d j = if code k == code j then d j + v else d j

pub record Telemetry : Type 0 where
  -- _STATS, _STATS_LIFE and _STATS_LAST
  pub stats : Dict
  pub stats_life : Dict
  pub stats_last : ℕ
  -- _last_life and the counters of _m
  pub last_life : Dict
  pub counters : Dict
  -- _guard_hits, _last_guard and the counter "guard"
  pub guard_hits : ℕ
  pub last_guard : ℕ
  pub guard : ℕ
  -- how far the refresher is in _refresh_once: the key that it reads next, then 7 for the snapshot,
  -- and 8, 9 and 10 for the three reads of _guard_hits
  pub refreshing : ℕ
  -- _started, and how many refresher threads there are
  pub started : Bool
  pub refreshers : ℕ

-- What _stats_log prints.
pub record Report : Type 0 where
  pub elapsed : ℕ
  pub figures : Dict

-- start of vllm_custom_metrics, where a server that cannot be bound changes nothing here.
pub start : ℕ → Telemetry → Telemetry
start port t =
    if t.started || (port == 0)
    then t
    else record t { started = true; refreshers = t.refreshers + 1 }

-- The loop of _stats_add over its keyword arguments.
add_all : List (Key × ℕ) → Telemetry → Telemetry
unfolding bump
add_all [] t = t
add_all ((k, v) ∷ kw) t =
    add_all kw (record t { stats = bump k v t.stats; stats_life = bump k v t.stats_life })

-- _stats_add
pub stats_add : ℕ → List (Key × ℕ) → Telemetry → Telemetry
unfolding add_all start
stats_add port kw t = start port (add_all kw t)

-- `s.update(calls=0, op_ms=0.0, gather_ms=0.0, rows=0, bytes=0)`
pub reset : Dict → Dict
reset d calls = 0
reset d op_ms = 0
reset d gather_ms = 0
reset d rows = 0
reset d bytes = 0
reset d pf_hit = d pf_hit
reset d pf_miss = d pf_miss

-- _stats_log, at the time `now`.
pub stats_log : ℕ → ℕ → Telemetry → Telemetry × Option Report
unfolding reset
stats_log sec now t =
    let elapsed = if t.stats_last == 0 then sec else now - t.stats_last in
    if (sec == 0) || ltb (now - t.stats_last) sec
    then (t, none)
    else if t.stats calls == 0
    then (record t { stats_last = now }, none)
    else (
      record t { stats_last = now; stats = reset t.stats },
      some (record { elapsed = elapsed; figures = t.stats }),
    )

-- set_guard_hits
pub set_guard_hits : ℕ → ℕ → Telemetry → Telemetry
unfolding start
set_guard_hits port hits t = start port (record t { guard_hits = hits })

-- `_m[metric].inc(delta)` for a delta above 0.
pub inc_delta : ℕ → ℕ → ℕ → ℕ
inc_delta last now counter = if ltb last now then counter + (now - last) else counter

-- A step of _refresh_once in its own thread: the keys are read one by one, then the lifetime counters
-- are copied as they are by then, then the guard. The gauges of the pin are below.
pub refresh_step : Telemetry → Telemetry
unfolding inc_delta code
refresh_step t =
    let at = t.refreshing in
    record t {
      counters = λ k.
          if code k == at
          then inc_delta (t.last_life k) (t.stats_life k) (t.counters k)
          else t.counters k;
      last_life = λ k. if at == 7 then t.stats_life k else t.last_life k;
      guard = if at == 9 then t.guard + (t.guard_hits - t.last_guard) else t.guard;
      last_guard = if at == 10 then t.guard_hits else t.last_guard;
      refreshing =
          if at == 8
          then if ltb t.last_guard t.guard_hits then 9 else 0
          else if at == 10
          then 0
          else at + 1;
    }

-- pin_reserved, pin_queue and pin_bytes, from what get_pin_stats returns.
pub pin_gauges : Option (ℕ → ℕ) → ℕ × ℕ × List (ℕ × ℕ) → ℕ × ℕ × ℕ
pin_gauges none (reserved, held, per_group) = (reserved, held, 0)
pin_gauges (some page_sizes) (reserved, held, per_group) =
    (reserved, held, pinned_bytes page_sizes per_group)

pub data Event : Type 0 where
  add : List (Key × ℕ) → Event
  log : ℕ → Event
  push_guard : ℕ → Event
  refresh : Event

-- One event, and the report that it prints.
module _ (port sec : ℕ) where
  pub step : Telemetry → Event → Telemetry × Option Report
  unfolding stats_add stats_log set_guard_hits refresh_step
  step t (add kw) = (stats_add port kw t, none)
  step t (log now) = stats_log sec now t
  step t (push_guard hits) = (set_guard_hits port hits t, none)
  step t refresh = (refresh_step t, none)

  pub run : Telemetry → List Event → Telemetry
  unfolding step
  run t [] = t
  run t (e ∷ es) = run (step t e).0 es

-- When the modules are loaded.
pub fresh_counters : Telemetry
fresh_counters = record {
  stats = λ k. 0;
  stats_life = λ k. 0;
  stats_last = 0;
  last_life = λ k. 0;
  counters = λ k. 0;
  guard_hits = 0;
  last_guard = 0;
  guard = 0;
  refreshing = 0;
  started = false;
  refreshers = 0;
}
