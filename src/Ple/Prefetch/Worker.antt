-- ===== src/Ple/Prefetch/Worker.antt =====
-- The worker of src/vllm_ple_mmap.py, beside the promise.
use qwen3_8_flash_dgx_auto_r.Common.{
  ℕ, ◌≡◌, refl, sym, ap, ◌∙◌, subst, true, false, List, [], ◌∷◌, Option, none, some, ◌==◌, has, inl,
  inr, Bool-cases, Option-cases, some_injective, arith,
}
use qwen3_8_flash_dgx_auto_r.Ple.Prefetch.{
  Pipe, same, take_from, take_job, finish_with, finish_from, finish_job,
}
use qwen3_8_flash_dgx_auto_r.Ple.Prefetch.Promise.{
  held, Once, later, first_in, same_sound, same_refl, Refines,
}

module _ {Row : Type 0} (gather : List ℕ → Option (List Row)) (a : Option (List ℕ)) where
  take_from-Refines :
      (s : Pipe Row) (o : Option (ℕ × List ℕ)) (q : List ℕ)
      → s.busy ≡ o
      → s.queue ≡ q
      → Refines gather s a
      → Refines gather (take_from s o q) a
  unfolding take_from
  take_from-Refines s (some b) q e f v = v
  take_from-Refines s none [] e f v = v
  take_from-Refines s none (j ∷ q) e f v =
      let list : held s.busy s.queue ≡ j ∷ q = rw (e, f) refl in
      record {
        kept_of = v.kept_of;
        waits_of = λ k h. v.waits_of k (ap (has k) list ∙ h);
        once_of = subst Once list v.once_of;
        read_of = λ k ids g.
            ap (λ p. p.1) (sym (some_injective g))
            ∙ ap (λ p. s.ids_t (s.store p.0).base) (some_injective g);
        pending_of = v.pending_of;
      }

  pub take_job-Refines : (s : Pipe Row) → Refines gather s a → Refines gather (take_job s) a
  unfolding take_job
  take_job-Refines s v = take_from-Refines s s.busy s.queue refl refl v

  -- Which slot a job is of.
  finish_with-Refines :
      (s : Pipe Row) (j : ℕ) (ids : List ℕ) (o : Option (List Row))
      → s.busy ≡ some (j, ids)
      → gather ids ≡ o
      → Refines gather s a
      → Refines gather (finish_with s j o) a
  unfolding finish_with
  finish_with-Refines s j ids none e g v =
      let list : held s.busy s.queue ≡ j ∷ s.queue = rw e refl in
      let once : Once (j ∷ s.queue) = subst Once list v.once_of in
      record {
        kept_of = λ b k f. ground (arith, v.kept_of b k f);
        waits_of =
            λ k h. ground (arith, v.waits_of k (ap (has k) list ∙ later j k s.queue h), h, once.0);
        once_of = once.1;
        read_of = λ k is f. cc;
        pending_of = λ k f. ground (arith, v.pending_of k f);
      }
  finish_with-Refines s j ids (some rows) e g v =
      let list : held s.busy s.queue ≡ j ∷ s.queue = rw e refl in
      let mine : s.jobs (s.store j).base ≡ some j =
        (v.waits_of j (ap (has j) list ∙ first_in j s.queue)).1 in
      let once : Once (j ∷ s.queue) = subst Once list v.once_of in
      record {
        kept_of = λ b k f. elim (Bool-cases (same (s.store j).base b)) [
          | inl e1 ↦
              let at_b : (s.store j).base ≡ b = same_sound (s.store j).base b e1 in
              let one : k ≡ j = some_injective (sym f ∙ ap s.jobs (sym at_b) ∙ mine) in
              let right : gather (s.ids_t b) ≡ some rows =
                ap (λ c. gather (s.ids_t c)) (sym at_b) ∙ ap gather (sym (v.read_of j ids e)) ∙ g in
              rw e1 (ground (arith, v.kept_of b k f, right, one))
          | inr e2 ↦
              let two : (k == j) ≡ false = elim (Bool-cases (k == j)) [
                | inl hit ↦
                    let back : (s.store j).base ≡ b =
                      ap (λ i. (s.store i).base) (ground (arith, hit)) ∙ (v.kept_of b k f).1 in
                    let yes_same : same (s.store j).base b ≡ true =
                      ap (λ c. same c b) back ∙ same_refl b in
                    cc
                | inr miss ↦ miss
              ] in
              rw (e2, two) (v.kept_of b k f)
        ];
        waits_of =
            λ k h. ground (arith, v.waits_of k (ap (has k) list ∙ later j k s.queue h), h, once.0);
        once_of = once.1;
        read_of = λ k is f. cc;
        pending_of = λ k f. ground (arith, v.pending_of k f);
      }

  pub finish_job-Refines :
      (s : Pipe Row) → Refines gather s a → Refines gather (finish_job gather s) a
  unfolding finish_job finish_from
  finish_job-Refines s v = elim (Option-cases s.busy) [
    | inl e ↦ rw (finish_from, e) v
    | inr ((j, ids), e) ↦ rw (finish_from, e) (finish_with-Refines s j ids (gather ids) e refl v)
  ]
