-- ===== src/ExpertTree/Linked.antt =====
-- The loop of link_tree of tools/quantize_mtp_experts_int4.py over the files of the source.
use qwen3_8_flash_dgx_auto_r.Common.{
  ℕ, ◌≤◌, ◌<◌, ◌≡◌, ◌≢◌, refl, sym, ap, ◌∙◌, subst, Bool, true, false, List, [], ◌∷◌, some,
  if◌then◌else◌, elem, arith, lookup, keys, distinct, inl, inr, Bool-cases, distinct-cons,
  not_elem-cons, All,
}
use qwen3_8_flash_dgx_auto_r.ExpertTree.{Files, up_to_date, refresh, link_files}
use qwen3_8_flash_dgx_auto_r.ExpertTree.Links.{
  IsBelow, Keeps, Keeps-refl, Keeps-trans, refresh-IsRefreshed,
}

-- A name leads to an inode that is up to date with one of the source.
abbrev pub IsCurrent : {Name Content : Type 0} → Files Name Content → Name → ℕ → Type 0
IsCurrent fs n i = (j : ℕ) × (fs.dst n ≡ some j) × (up_to_date fs i j ≡ true)

-- The inodes of the source are there.
abbrev pub AreThere : {Name : Type 0} → List (Name × ℕ) → ℕ → Type 0
AreThere src top = All (λ e. e.1 < top) src

AreThere-mono :
    {Name : Type 0} (src : List (Name × ℕ)) (a b : ℕ) → a ≤ b → AreThere src a → AreThere src b
AreThere-mono [] a b h t = tt
AreThere-mono (e ∷ src) a b h t = (omega (arith, t.0), AreThere-mono src a b h t.1)

up_to_date-Keeps :
    {Name Content : Type 0} (fs fs' : Files Name Content) (i j : ℕ)
    → Keeps fs fs'
    → i < fs.next
    → j < fs.next
    → up_to_date fs' i j ≡ up_to_date fs i j
unfolding up_to_date
up_to_date-Keeps fs fs' i j k h l = rw (k.same i h, k.same j l) refl

module _ {Name Content : Type 0} (dec : Discrete Name) (can_link : Name → Bool)
    (regen : List Name) where
  abbrev linked : List (Name × ℕ) → Files Name Content → Files Name Content
  linked = link_files dec can_link regen

  abbrev turn : Name → ℕ → Files Name Content → Files Name Content
  turn n i fs = if elem dec n regen then fs else refresh dec (can_link n) n i (fs.dst n) fs

  -- What the loop makes of a list of files.
  pub record AreLinked (src : List (Name × ℕ)) (fs fs' : Files Name Content) : Type 0 where
    pub keeps : Keeps fs fs'
    pub others : (m : Name) → elem dec m (keys src) ≡ false → fs'.dst m ≡ fs.dst m
    pub current :
        (m : Name) (i : ℕ)
        → lookup dec m src ≡ some i
        → elem dec m regen ≡ false
        → IsCurrent fs' m i

  turn-Keeps : (n : Name) (i : ℕ) (fs : Files Name Content) → i < fs.next → Keeps fs (turn n i fs)
  turn-Keeps n i fs h = elim (Bool-cases (elem dec n regen)) [
    | inl e ↦ rw e (Keeps-refl fs)
    | inr e ↦ rw e (refresh-IsRefreshed dec (can_link n) n i (fs.dst n) fs refl h).keeps
  ]

  turn-others :
      (n : Name) (i : ℕ) (fs : Files Name Content) (m : Name)
      → i < fs.next
      → m ≢ n
      → (turn n i fs).dst m ≡ fs.dst m
  turn-others n i fs m h o = elim (Bool-cases (elem dec n regen)) [
    | inl e ↦ rw e refl
    | inr e ↦ rw e ((refresh-IsRefreshed dec (can_link n) n i (fs.dst n) fs refl h).others m o)
  ]

  turn-IsCurrent :
      (n : Name) (i : ℕ) (fs : Files Name Content)
      → i < fs.next
      → elem dec n regen ≡ false
      → IsCurrent (turn n i fs) n i
  turn-IsCurrent n i fs h e =
      let r = refresh-IsRefreshed dec (can_link n) n i (fs.dst n) fs refl h in
      rw e (r.inode, r.named, r.fresh)

  -- What is current stays so.
  IsCurrent-Keeps :
      (fs fs' : Files Name Content) (n : Name) (i : ℕ)
      → Keeps fs fs'
      → fs'.dst n ≡ fs.dst n
      → i < fs.next
      → IsBelow fs.dst fs.next
      → IsCurrent fs n i
      → IsCurrent fs' n i
  IsCurrent-Keeps fs fs' n i k same h b (j, at, up) =
      (j, same ∙ at, up_to_date-Keeps fs fs' i j k h (b n j at) ∙ up)

  pub link_files-AreLinked :
      (src : List (Name × ℕ)) (fs : Files Name Content)
      → distinct dec (keys src) ≡ true
      → AreThere src fs.next
      → IsBelow fs.dst fs.next
      → AreLinked src fs (linked src fs)
  unfolding link_files lookup elem
  link_files-AreLinked [] fs d t b = record {
    keeps = Keeps-refl fs;
    others = λ m o. refl;
    current = λ m i at r. cc;
  }
  link_files-AreLinked ((n, i) ∷ src) fs d t b =
      let (new, d') = distinct-cons dec n (keys src) d in
      let fs₁ = turn n i fs in
      let k = turn-Keeps n i fs t.0 in
      let rest =
        link_files-AreLinked src fs₁ d' (AreThere-mono src fs.next fs₁.next k.grows t.1)
          (k.below b) in
      record {
        keeps = Keeps-trans fs fs₁ (linked src fs₁) k rest.keeps;
        others = λ m o.
            let (other, o') = not_elem-cons dec m n (keys src) o in
            rest.others m o' ∙ turn-others n i fs m t.0 other;
        current = λ m h at r. elim (dec m n) [
          | yes e ↦
              let now = turn-IsCurrent n i fs t.0 (ap (λ l. elem dec l regen) (sym e) ∙ r) in
              let then_too =
                IsCurrent-Keeps fs₁ (linked src fs₁) n i rest.keeps (rest.others n new)
                  (omega (arith, k.grows, t.0)) (k.below b) now in
              let q : i ≡ h = ground arith in
              subst (λ l. IsCurrent (linked src fs₁) m l) q
                (subst (λ l. IsCurrent (linked src fs₁) l i) (sym e) then_too)
          | no e ↦ rest.current m h (ground arith) r
        ];
      }
