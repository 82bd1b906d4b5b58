-- ===== src/Mamba/Launch/Watch.antt =====
-- What the guard telemetry of run_fused_precopy in src/mamba_utils_guarded.py reports, and when.
use qwen3_8_flash_dgx_auto_r.Common.{
  ℕ, ◌+◌, ◌/◌, ◌%◌, ◌≤◌, ◌<◌, ◌≡◌, refl, sym, ap, ◌∙◌, subst, List, [], ◌∷◌, ltb, ◌==◌, inl, inr,
  Bool-cases, arith,
}
use qwen3_8_flash_dgx_auto_r.Mamba.Launch.{Runner, count_step, report_hits}
use qwen3_8_flash_dgx_auto_r.Mamba.Launch.Guard.{Launches, IsQuiet, Launches-Holds}

-- The hits that are mirrored, and those that are logged, have happened; the logged numbers grow.
abbrev pub newest : List ℕ → ℕ
newest [] = 0
newest (n ∷ ns) = n

unfoldable pub Falls : List ℕ → Type 0
Falls [] = Unit
Falls (n ∷ ns) = (newest ns < n) × Falls ns

pub record IsWatched (r : Runner) : Type 0 where
  pub mirror_of : r.guard_hits_cpu ≤ r.device.guard_hits
  pub reported_of : r.guard_reported ≤ r.guard_hits_cpu
  pub newest_of : newest r.logged ≡ r.guard_reported
  pub falls_of : Falls r.logged

-- Of `hits` guard hits at step `since`: the mirror has them from the next refresh on, and the log
-- from the one after.
record IsSeen (hits since : ℕ) (r : Runner) : Type 0 where
  counted : hits ≤ r.device.guard_hits
  later : since ≤ r.guard_step
  mirrored : since / 512 < r.guard_step / 512 → hits ≤ r.guard_hits_cpu
  reported : since / 512 + 1 < r.guard_step / 512 → hits ≤ r.guard_reported

grows-IsWatched : (r r' : Runner) → IsQuiet r r' → IsWatched r → IsWatched r'
grows-IsWatched r r' q w = record {
  mirror_of = omega arith;
  reported_of = omega arith;
  newest_of = ap newest q.logged_of ∙ w.newest_of ∙ sym q.reported_of;
  falls_of = subst Falls (sym q.logged_of) w.falls_of;
}

counts-IsWatched : (port : ℕ) (r : Runner) → IsWatched r → IsWatched (count_step port r)
unfolding count_step report_hits Falls
counts-IsWatched port r w = elim (Bool-cases (((r.guard_step + 1) % 512) == 0)) [
  | inl e ↦ elim (Bool-cases (ltb r.guard_reported r.guard_hits_cpu)) [
    | inl more ↦
        rw (e, more)
          (record {
            mirror_of = omega arith;
            reported_of = omega arith;
            newest_of = refl;
            falls_of = (ground (arith, more), w.falls_of);
          })
    | inr same ↦
        rw (e, same)
          (record {
            mirror_of = omega arith;
            reported_of = omega arith;
            newest_of = w.newest_of;
            falls_of = w.falls_of;
          })
  ]
  | inr e ↦ rw e (record {
    mirror_of = w.mirror_of;
    reported_of = w.reported_of;
    newest_of = w.newest_of;
    falls_of = w.falls_of;
  })
]

module _ (hits since : ℕ) where
  grows-IsSeen : (r r' : Runner) → IsQuiet r r' → IsSeen hits since r → IsSeen hits since r'
  grows-IsSeen r r' q v = record {
    counted = omega arith;
    later = omega arith;
    mirrored = λ lt. omega (arith, v.mirrored (subst (λ n. since / 512 < n / 512) q.step_of lt));
    reported =
        λ lt. omega (arith, v.reported (subst (λ n. since / 512 + 1 < n / 512) q.step_of lt));
  }

  counts-IsSeen :
      (port : ℕ) (r : Runner) → IsSeen hits since r → IsSeen hits since (count_step port r)
  unfolding count_step report_hits
  counts-IsSeen port r v = elim (Bool-cases (((r.guard_step + 1) % 512) == 0)) [
    | inl e ↦
        let last : r.guard_step / 512 + 1 ≡ (r.guard_step + 1) / 512 = ground (arith, e) in
        let begun : since / 512 ≤ r.guard_step / 512 = omega (arith, v.later) in
        rw e (record {
          counted = v.counted;
          later = omega (arith, v.later);
          mirrored = λ lt. v.counted;
          reported = λ lt. ground (arith, v.mirrored (omega (arith, lt, last)));
        })
    | inr e ↦
        let same : r.guard_step / 512 ≡ (r.guard_step + 1) / 512 = ground (arith, e) in
        rw e (record {
          counted = v.counted;
          later = omega (arith, v.later);
          mirrored = λ lt. v.mirrored (omega (arith, same, lt));
          reported = λ lt. v.reported (omega (arith, same, lt));
        })
  ]

module _ (port : ℕ) (r r' : Runner) (run : Launches port r r') where
  -- Through all launches on a context, the mirror of the guard counter is no more than the counter,
  -- the reported number is no more than the mirror and is the last one logged, and the logged
  -- numbers grow.
  pub Launches-IsWatched : IsWatched r → IsWatched r'
  Launches-IsWatched w =
      Launches-Holds port IsWatched grows-IsWatched (counts-IsWatched port) r r' run w

  -- When launches on a context have counted 1024 steps more, the reported number of guard hits is
  -- at least the number that the counter had before them.
  pub Launches-reported :
      r.guard_step + 1024 ≤ r'.guard_step → r.device.guard_hits ≤ r'.guard_reported
  Launches-reported steps =
      let hits = r.device.guard_hits in
      let since = r.guard_step in
      let v : IsSeen hits since r' =
        Launches-Holds port (IsSeen hits since) (grows-IsSeen hits since)
          (counts-IsSeen hits since port) r r' run
          (record {
            counted = omega arith;
            later = omega arith;
            mirrored = λ lt. absurd (omega (arith, lt));
            reported = λ lt. absurd (omega (arith, lt));
          }) in
      v.reported (omega (arith, steps))
