-- ===== src/Telemetry/Exported.antt =====
-- What the Prometheus counters of src/vllm_custom_metrics.py show.
use qwen3_8_flash_dgx_auto_r.Common.{
  ℕ, ◌+◌, ◌<◌, ◌&&◌, replicate, ◌-◌, ◌≤◌, ◌≡◌, refl, ap, Bool, true, false, ◌||◌, inl, inr, List,
  [], ◌∷◌, ltb, ◌==◌, if◌then◌else◌, arith, Bool-cases,
}
use qwen3_8_flash_dgx_auto_r.Telemetry.{
  Key, code, Dict, Telemetry, start, add_all, bump, stats_add, stats_log, set_guard_hits,
  refresh_step, inc_delta, calls, Event, step, run, fresh_counters,
}

abbrev pub count : Bool → ℕ
count true = 1
count false = 0

-- What a counter does not exceed: the last snapshot, or the lifetime counter where the refresher has
-- read the key since.
abbrev pub bound : Telemetry → Key → ℕ
bound t k =
    if ltb (code k) t.refreshing && ltb t.refreshing 8 then t.stats_life k else t.last_life k

-- No counter runs ahead of the lifetime counter; and there is one refresher thread once the module has
-- started, and none before.
pub record IsTracked (t : Telemetry) : Type 0 where
  pub counters_of : (k : Key) → t.counters k ≤ bound t k
  pub life_of : (k : Key) → t.last_life k ≤ t.stats_life k
  pub refreshers_of : t.refreshers ≡ count t.started

code-lt : (k : Key) → code k < 7
unfolding code
code-lt Key.calls = omega arith
code-lt Key.op_ms = omega arith
code-lt Key.gather_ms = omega arith
code-lt Key.rows = omega arith
code-lt Key.bytes = omega arith
code-lt Key.pf_hit = omega arith
code-lt Key.pf_miss = omega arith

start-IsTracked : (port : ℕ) (t : Telemetry) → IsTracked t → IsTracked (start port t)
unfolding start
start-IsTracked port t v = elim (Bool-cases (t.started || (port == 0))) [
  | inl e ↦ rw e v
  | inr e ↦
      let idle : t.started ≡ false = ground arith in
      rw e (record {
        counters_of = v.counters_of;
        life_of = v.life_of;
        refreshers_of = omega (arith, v.refreshers_of, ap count idle);
      })
]

bump_grows : (j k : Key) (v : ℕ) (d : Dict) → d k ≤ bump j v d k
unfolding bump
bump_grows j k v d = ground arith

add_all-IsTracked : (kw : List (Key × ℕ)) (t : Telemetry) → IsTracked t → IsTracked (add_all kw t)
unfolding add_all
add_all-IsTracked [] t v = v
add_all-IsTracked ((j, n) ∷ kw) t v = add_all-IsTracked kw _ (record {
  counters_of = λ k. ground (arith, v.counters_of k, bump_grows j k n t.stats_life);
  life_of = λ k. omega (arith, v.life_of k, bump_grows j k n t.stats_life);
  refreshers_of = v.refreshers_of;
})

log-IsTracked : (sec now : ℕ) (t : Telemetry) → IsTracked t → IsTracked (stats_log sec now t).0
unfolding stats_log
log-IsTracked sec now t v = elim (Bool-cases ((sec == 0) || ltb (now - t.stats_last) sec)) [
  | inl quiet ↦ rw quiet v
  | inr loud ↦ elim (Bool-cases (t.stats calls == 0)) [
    | inl none_yet ↦
        rw (loud, none_yet)
          (record {
            counters_of = v.counters_of;
            life_of = v.life_of;
            refreshers_of = v.refreshers_of;
          })
    | inr some_calls ↦
        rw (loud, some_calls)
          (record {
            counters_of = v.counters_of;
            life_of = v.life_of;
            refreshers_of = v.refreshers_of;
          })
  ]
]

refresh_step-IsTracked : (t : Telemetry) → IsTracked t → IsTracked (refresh_step t)
unfolding refresh_step inc_delta
refresh_step-IsTracked t v = record {
  counters_of = λ k. ground (arith, v.counters_of k, v.life_of k, code-lt k);
  life_of = λ k. ground (arith, v.life_of k);
  refreshers_of = v.refreshers_of;
}

pub fresh_counters-IsTracked : IsTracked fresh_counters
unfolding fresh_counters
fresh_counters-IsTracked = record {
  counters_of = λ k. ground arith;
  life_of = λ k. omega arith;
  refreshers_of = refl;
}

module _ (port sec : ℕ) where
  step-IsTracked : (t : Telemetry) (e : Event) → IsTracked t → IsTracked (step port sec t e).0
  unfolding step stats_add set_guard_hits
  step-IsTracked t (Event.add kw) v = start-IsTracked port (add_all kw t) (add_all-IsTracked kw t v)
  step-IsTracked t (Event.log now) v = log-IsTracked sec now t v
  step-IsTracked t (Event.push_guard hits) v =
      start-IsTracked port _ (record {
        counters_of = v.counters_of;
        life_of = v.life_of;
        refreshers_of = v.refreshers_of;
      })
  step-IsTracked t Event.refresh v = refresh_step-IsTracked t v

  -- Whatever is added, logged, pushed and refreshed, and in whatever order, from a state where this
  -- holds: no exported counter runs ahead of the lifetime counter, and there is at most one refresher
  -- thread.
  pub run-IsTracked :
      (es : List Event) (t : Telemetry) → IsTracked t → IsTracked (run port sec t es)
  unfolding run
  run-IsTracked [] t v = v
  run-IsTracked (e ∷ es) t v = run-IsTracked es (step port sec t e).0 (step-IsTracked t e v)

  -- The refresher's steps up to the snapshot, with nothing in between.
  abbrev pub refreshed : Telemetry → Telemetry
  refreshed t = run port sec t (replicate 8 Event.refresh)

  refreshed-life :
      (t : Telemetry) (k : Key)
      → t.refreshing ≡ 0
      → ((refreshed t).counters k ≡ inc_delta (t.last_life k) (t.stats_life k) (t.counters k))
        × ((refreshed t).last_life k ≡ t.stats_life k)
  unfolding run step refresh_step code
  refreshed-life t Key.calls idle = rw idle (refl, refl)
  refreshed-life t Key.op_ms idle = rw idle (refl, refl)
  refreshed-life t Key.gather_ms idle = rw idle (refl, refl)
  refreshed-life t Key.rows idle = rw idle (refl, refl)
  refreshed-life t Key.bytes idle = rw idle (refl, refl)
  refreshed-life t Key.pf_hit idle = rw idle (refl, refl)
  refreshed-life t Key.pf_miss idle = rw idle (refl, refl)

  -- The counters that the code keeps as whole numbers, not as float times.
  abbrev pub is_whole : Key → Bool
  is_whole Key.op_ms = false
  is_whole Key.gather_ms = false
  is_whole k = true

  -- For the counters of calls, rows, bytes, and prefetch hits and misses, over any events from the
  -- start, the refresher's steps among them in any order: between two refreshes an exported counter is
  -- at most the lifetime counter. When the next refresh then runs up to its snapshot with nothing in
  -- between, the exported counter grows by exactly what the lifetime counter has grown by since the
  -- last snapshot, and the snapshot is the lifetime counter. What other threads add during a refresh
  -- may be lost for the exported counter.
  pub run-exported :
      (es : List Event) (k : Key)
      → is_whole k ≡ true
      → (run port sec fresh_counters es).refreshing ≡ 0
      → let t = run port sec fresh_counters es in
        let t' = refreshed t in
        (t.counters k ≤ t.stats_life k)
        × (t'.counters k + t.last_life k ≡ t.counters k + t.stats_life k)
        × (t'.last_life k ≡ t.stats_life k)
        × (t'.counters k ≤ t'.stats_life k)
  unfolding inc_delta
  run-exported es k whole idle =
      let t = run port sec fresh_counters es in
      let v = run-IsTracked es fresh_counters fresh_counters-IsTracked in
      let v' = run-IsTracked (replicate 8 Event.refresh) t v in
      let (grown, snapshot) = refreshed-life t k idle in
      (
        ground (arith, v.counters_of k, v.life_of k),
        ground (arith, grown, v.life_of k),
        snapshot,
        ground (arith, v'.counters_of k, v'.life_of k),
      )
