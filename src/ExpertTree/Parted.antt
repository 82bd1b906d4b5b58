-- ===== src/ExpertTree/Parted.antt =====
-- What link_tree of tools/quantize_mtp_experts_int4.py leaves, its second loop included.
use qwen3_8_flash_dgx_auto_r.Common.{
  ℕ, ◌<◌, ◌≡◌, ◌≢◌, refl, sym, ap, ◌∙◌, subst, Bool, true, false, List, [], ◌∷◌, Option, none, some,
  ltb, if◌then◌else◌, elem, arith, lookup, keys, distinct, inl, inr, Bool-cases, not_elem-cons,
  elem-cons, some_injective,
}
use qwen3_8_flash_dgx_auto_r.ExpertTree.{
  Files, set_name, unlink, up_to_date, part, part_files, link_files, link_tree,
}
use qwen3_8_flash_dgx_auto_r.ExpertTree.Links.{IsBelow, unlink-other}
use qwen3_8_flash_dgx_auto_r.ExpertTree.Linked.{AreThere, IsCurrent, link_files-AreLinked}

pub lookup-AreThere :
    {Name : Type 0} (dec : Discrete Name) (src : List (Name × ℕ)) (top : ℕ) (n : Name) (i : ℕ)
    → lookup dec n src ≡ some i
    → AreThere src top
    → i < top
unfolding lookup
lookup-AreThere dec [] top n i at t = cc
lookup-AreThere dec ((m, j) ∷ src) top n i at t =
    ground (arith, lookup-AreThere dec src top n i, t.0, t.1)

up_to_date-inodes :
    {Name Content : Type 0} (fs fs' : Files Name Content) (i j : ℕ)
    → fs'.inodes ≡ fs.inodes
    → up_to_date fs' i j ≡ up_to_date fs i j
unfolding up_to_date
up_to_date-inodes fs fs' i j e = rw e refl

module _ {Name Content : Type 0} (dec : Discrete Name) (st_nlink : Files Name Content → ℕ → ℕ)
    (src : List (Name × ℕ)) where
  -- An inode of the source is not under this name.
  abbrev pub IsPrivate : Files Name Content → Name → Type 0
  IsPrivate fs n = (m : Name) (j : ℕ) → fs.dst n ≡ some j → lookup dec m src ≡ some j → ⊥

  -- What the second loop leaves: the inodes, and each name or none.
  pub record IsParted (regen : List Name) (fs fs' : Files Name Content) : Type 0 where
    pub inodes : fs'.inodes ≡ fs.inodes
    pub next : fs'.next ≡ fs.next
    pub fewer : (m : Name) (j : ℕ) → fs'.dst m ≡ some j → fs.dst m ≡ some j
    pub others : (m : Name) → elem dec m regen ≡ false → fs'.dst m ≡ fs.dst m
    pub private : (m : Name) → elem dec m regen ≡ true → IsPrivate fs' m

  module _
      (counts : (fs : Files Name Content) (n m : Name) (j : ℕ)
        → fs.dst n ≡ some j
        → lookup dec m src ≡ some j
        → 1 < st_nlink fs j) where
    abbrev parted : Name → Files Name Content → Files Name Content
    parted n fs = part dec st_nlink n (fs.dst n) fs

    pub unlink-fewer :
        (n m : Name) (j : ℕ) (fs : Files Name Content)
        → (unlink dec n fs).dst m ≡ some j
        → fs.dst m ≡ some j
    unfolding unlink set_name
    unlink-fewer n m j fs h = ground arith

    unlink-gone : (n : Name) (fs : Files Name Content) → (unlink dec n fs).dst n ≡ none
    unfolding unlink set_name
    unlink-gone n fs = ground arith

    part-IsPrivate :
        (n : Name) (fs : Files Name Content) (v : Option ℕ)
        → fs.dst n ≡ v
        → IsPrivate (part dec st_nlink n v fs) n
    unfolding part
    part-IsPrivate n fs none at m j = λ h l. cc (sym at ∙ h)
    part-IsPrivate n fs (some i) at m j = elim (Bool-cases (ltb 1 (st_nlink fs i))) [
      | inl e ↦ rw e (λ h l. cc (sym (unlink-gone n fs) ∙ h))
      | inr e ↦ rw e (λ h l.
          let same : i ≡ j = some_injective (sym at ∙ h) in
          let many = counts fs n m j h l in ground (arith, ap (st_nlink fs) same))
    ]

    part-fewer :
        (n m : Name) (j : ℕ) (fs : Files Name Content) (v : Option ℕ)
        → (part dec st_nlink n v fs).dst m ≡ some j
        → fs.dst m ≡ some j
    unfolding part
    part-fewer n m j fs none = λ h. h
    part-fewer n m j fs (some i) = elim (Bool-cases (ltb 1 (st_nlink fs i))) [
      | inl e ↦ rw e (unlink-fewer n m j fs)
      | inr e ↦ rw e (λ h. h)
    ]

    part-same :
        (n : Name) (fs : Files Name Content) (v : Option ℕ)
        → let fs' = part dec st_nlink n v fs in
          (fs'.inodes ≡ fs.inodes)
          × (fs'.next ≡ fs.next)
          × ((m : Name) → m ≢ n → fs'.dst m ≡ fs.dst m)
    unfolding part unlink
    part-same n fs none = (refl, refl, λ m o. refl)
    part-same n fs (some i) = elim (Bool-cases (ltb 1 (st_nlink fs i))) [
      | inl e ↦ rw e (refl, refl, λ m o. unlink-other dec n m fs o)
      | inr e ↦ rw e (refl, refl, λ m o. refl)
    ]

    pub part_files-IsParted :
        (regen : List Name) (fs : Files Name Content)
        → IsParted regen fs (part_files dec st_nlink regen fs)
    unfolding part_files elem
    part_files-IsParted [] fs = record {
      inodes = refl;
      next = refl;
      fewer = λ m j h. h;
      others = λ m o. refl;
      private = λ m e. cc;
    }
    part_files-IsParted (n ∷ regen) fs =
        let fs₁ = parted n fs in
        let (inodes, next, others) = part-same n fs (fs.dst n) in
        let rest = part_files-IsParted regen fs₁ in
        record {
          inodes = rest.inodes ∙ inodes;
          next = rest.next ∙ next;
          fewer = λ m j h. part-fewer n m j fs (fs.dst n) (rest.fewer m j h);
          others = λ m o.
              let (other, o') = not_elem-cons dec m n regen o in rest.others m o' ∙ others m other;
          private = λ m e. elim (elem-cons dec m n regen e) [
            | inl same ↦
                let at_n : IsPrivate (part_files dec st_nlink regen fs₁) n =
                  λ k j h. part-IsPrivate n fs (fs.dst n) refl k j (rest.fewer n j h) in
                subst (IsPrivate (part_files dec st_nlink regen fs₁)) (sym same) at_n
            | inr there ↦ rest.private m there
          ];
        }

    -- When st_nlink counts the names of an inode, the names of the source are distinct, and every name
    -- of both trees leads to an inode that there is: after link_tree no file of the source has changed;
    -- one that is not regenerated has a file of the new tree under its name, which is the same inode or
    -- has its size and time; and under a name that is regenerated there is no inode of the source.
    pub link_tree-IsCurrent :
        (can_link : Name → Bool) (regen : List Name) (fs : Files Name Content)
        → distinct dec (keys src) ≡ true
        → AreThere src fs.next
        → IsBelow fs.dst fs.next
        → (n : Name) (i : ℕ) → lookup dec n src ≡ some i
        → let fs' = link_tree dec can_link st_nlink regen src fs in
          (fs'.inodes i ≡ fs.inodes i)
          × (if elem dec n regen then IsPrivate fs' n else IsCurrent fs' n i)
    unfolding link_tree
    link_tree-IsCurrent can_link regen fs d t b n i at =
        let linked = link_files dec can_link regen src fs in
        let l = link_files-AreLinked dec can_link regen src fs d t b in
        let p = part_files-IsParted regen linked in
        (
          ap (λ f. f i) p.inodes ∙ l.keeps.same i (lookup-AreThere dec src fs.next n i at t),
          elim (Bool-cases (elem dec n regen)) [
            | inl e ↦ rw e (p.private n e)
            | inr e ↦
                let (j, named, up) = l.current n i at e in
                rw e (
                  j,
                  p.others n e ∙ named,
                  up_to_date-inodes linked (part_files dec st_nlink regen linked) i j p.inodes ∙ up,
                )
          ],
        )
