-- ===== src/Telemetry/Windows.antt =====
-- What _stats_log of src/vllm_ple_mmap.py reports over a run of the engine.
use qwen3_8_flash_dgx_auto_r.Common.{
  ℕ, ◌+◌, ◌-◌, ◌≡◌, refl, ap, Bool, true, false, ◌||◌, inl, inr, List, [], ◌∷◌, Option, none, some,
  ltb, ◌==◌, if◌then◌else◌, arith, Bool-cases,
}
use qwen3_8_flash_dgx_auto_r.Telemetry.{
  Key, calls, op_ms, gather_ms, rows, bytes, pf_hit, pf_miss, code, Dict, bump, Telemetry, Report,
  start, add_all, stats_add, reset, stats_log, set_guard_hits, refresh_step, Event, step, run,
}

-- What one call of _stats_add adds to a key, and what all events of a run add.
pub amount : Key → List (Key × ℕ) → ℕ
unfolding code
amount k [] = 0
amount k ((j, v) ∷ kw) = (if code j == code k then v else 0) + amount k kw

event_amount : Key → Event → ℕ
unfolding amount
event_amount k (Event.add kw) = amount k kw
event_amount k (Event.log now) = 0
event_amount k (Event.push_guard hits) = 0
event_amount k Event.refresh = 0

pub total : Key → List Event → ℕ
unfolding event_amount
total k [] = 0
total k (e ∷ es) = event_amount k e + total k es

-- A figure of the report, if there is one.
figure : Key → Option Report → ℕ
figure k none = 0
figure k (some r) = r.figures k

-- The figures for a key of all reports of a run together.
pub reported : ℕ → ℕ → Key → Telemetry → List Event → ℕ
unfolding figure
reported port sec k t [] = 0
reported port sec k t (e ∷ es) =
    figure k (step port sec t e).1 + reported port sec k (step port sec t e).0 es

start-stats : (port : ℕ) (t : Telemetry) → (start port t).stats ≡ t.stats
unfolding start
start-stats port t = elim (Bool-cases (t.started || (port == 0))) [
  | inl e ↦ rw e refl
  | inr e ↦ rw e refl
]

start-life : (port : ℕ) (t : Telemetry) → (start port t).stats_life ≡ t.stats_life
unfolding start
start-life port t = elim (Bool-cases (t.started || (port == 0))) [
  | inl e ↦ rw e refl
  | inr e ↦ rw e refl
]

bump-at : (j k : Key) (v : ℕ) (d : Dict) → bump j v d k ≡ d k + (if code j == code k then v else 0)
unfolding bump
bump-at j k v d = ground arith

add_all-stats :
    (k : Key) (kw : List (Key × ℕ)) (t : Telemetry)
    → (add_all kw t).stats k ≡ t.stats k + amount k kw
unfolding add_all amount
add_all-stats k [] t = omega arith
add_all-stats k ((j, v) ∷ kw) t = omega (arith, add_all-stats k kw _, bump-at j k v t.stats)

add_all-life :
    (k : Key) (kw : List (Key × ℕ)) (t : Telemetry)
    → (add_all kw t).stats_life k ≡ t.stats_life k + amount k kw
unfolding add_all amount
add_all-life k [] t = omega arith
add_all-life k ((j, v) ∷ kw) t = omega (arith, add_all-life k kw _, bump-at j k v t.stats_life)

-- The keys that _stats_log sets back.
abbrev pub is_windowed : Key → Bool
is_windowed pf_hit = false
is_windowed pf_miss = false
is_windowed k = true

reset-windowed : (k : Key) (d : Dict) → is_windowed k ≡ true → reset d k ≡ 0
unfolding reset
reset-windowed calls d h = refl
reset-windowed op_ms d h = refl
reset-windowed gather_ms d h = refl
reset-windowed rows d h = refl
reset-windowed bytes d h = refl
reset-windowed pf_hit d h = cc
reset-windowed pf_miss d h = cc

reset-other : (k : Key) (d : Dict) → is_windowed k ≡ false → reset d k ≡ d k
unfolding reset
reset-other calls d h = cc
reset-other op_ms d h = cc
reset-other gather_ms d h = cc
reset-other rows d h = cc
reset-other bytes d h = cc
reset-other pf_hit d h = refl
reset-other pf_miss d h = refl

is_quiet : ℕ → ℕ → Telemetry → Bool
is_quiet sec now t = (sec == 0) || ltb (now - t.stats_last) sec

module _ (port sec : ℕ) (k : Key) where
  log-stats :
      (now : ℕ) (t : Telemetry)
      → is_windowed k ≡ true
      → figure k (stats_log sec now t).1 + (stats_log sec now t).0.stats k ≡ t.stats k
  unfolding stats_log figure is_quiet
  log-stats now t w = elim (Bool-cases (is_quiet sec now t)) [
    | inl quiet ↦ rw quiet (omega arith)
    | inr loud ↦ elim (Bool-cases (t.stats calls == 0)) [
      | inl none_yet ↦ rw (loud, none_yet) (omega arith)
      | inr some_calls ↦ rw (loud, some_calls) (omega (arith, reset-windowed k t.stats w))
    ]
  ]

  log-life : (now : ℕ) (t : Telemetry) → (stats_log sec now t).0.stats_life k ≡ t.stats_life k
  unfolding stats_log is_quiet
  log-life now t = elim (Bool-cases (is_quiet sec now t)) [
    | inl quiet ↦ rw quiet refl
    | inr loud ↦ elim (Bool-cases (t.stats calls == 0)) [
      | inl none_yet ↦ rw (loud, none_yet) refl
      | inr some_calls ↦ rw (loud, some_calls) refl
    ]
  ]

  log-other :
      (now : ℕ) (t : Telemetry)
      → is_windowed k ≡ false
      → (stats_log sec now t).0.stats k ≡ t.stats k
  unfolding stats_log is_quiet
  log-other now t w = elim (Bool-cases (is_quiet sec now t)) [
    | inl quiet ↦ rw quiet refl
    | inr loud ↦ elim (Bool-cases (t.stats calls == 0)) [
      | inl none_yet ↦ rw (loud, none_yet) refl
      | inr some_calls ↦ rw (loud, some_calls) (reset-other k t.stats w)
    ]
  ]

  step-stats :
      (t : Telemetry) (e : Event)
      → is_windowed k ≡ true
      → figure k (step port sec t e).1 + (step port sec t e).0.stats k
        ≡ t.stats k + event_amount k e
  unfolding step figure event_amount stats_add set_guard_hits refresh_step
  step-stats t (Event.add kw) w =
      omega (arith, ap (λ d. d k) (start-stats port (add_all kw t)), add_all-stats k kw t)
  step-stats t (Event.log now) w = omega (arith, log-stats now t w)
  step-stats t (Event.push_guard hits) w = omega (arith, ap (λ d. d k) (start-stats port _))
  step-stats t Event.refresh w = omega arith

  step-life :
      (t : Telemetry) (e : Event)
      → (step port sec t e).0.stats_life k ≡ t.stats_life k + event_amount k e
  unfolding step event_amount stats_add set_guard_hits refresh_step
  step-life t (Event.add kw) =
      omega (arith, ap (λ d. d k) (start-life port (add_all kw t)), add_all-life k kw t)
  step-life t (Event.log now) = omega (arith, log-life now t)
  step-life t (Event.push_guard hits) = omega (arith, ap (λ d. d k) (start-life port _))
  step-life t Event.refresh = omega arith

  step-other :
      (t : Telemetry) (e : Event)
      → is_windowed k ≡ false
      → (step port sec t e).0.stats k ≡ t.stats k + event_amount k e
  unfolding step event_amount stats_add set_guard_hits refresh_step
  step-other t (Event.add kw) w =
      omega (arith, ap (λ d. d k) (start-stats port (add_all kw t)), add_all-stats k kw t)
  step-other t (Event.log now) w = omega (arith, log-other now t w)
  step-other t (Event.push_guard hits) w = omega (arith, ap (λ d. d k) (start-stats port _))
  step-other t Event.refresh w = omega arith

  -- Over any run, the lifetime counter grows by what was added, and for a key that the log sets
  -- back every amount is in exactly one report or still in the open window.
  pub run-balanced :
      (es : List Event) (t : Telemetry)
      → is_windowed k ≡ true
      → ((run port sec t es).stats_life k ≡ t.stats_life k + total k es)
        × (reported port sec k t es + (run port sec t es).stats k ≡ t.stats k + total k es)
  unfolding run total reported
  run-balanced [] t w = (omega arith, omega arith)
  run-balanced (e ∷ es) t w =
      let (life, stats) = run-balanced es (step port sec t e).0 w in
      (omega (arith, life, step-life t e), omega (arith, stats, step-stats t e w))

  -- The prefetch hits and misses are not set back: whatever was logged, the window that the next
  -- report prints holds all of them since the start.
  pub run-unwindowed :
      (es : List Event) (t : Telemetry)
      → is_windowed k ≡ false
      → (run port sec t es).stats k ≡ t.stats k + total k es
  unfolding run total
  run-unwindowed [] t w = omega arith
  run-unwindowed (e ∷ es) t w =
      omega (arith, run-unwindowed es (step port sec t e).0 w, step-other t e w)
