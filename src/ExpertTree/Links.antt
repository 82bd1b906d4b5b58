-- ===== src/ExpertTree/Links.antt =====
-- What link_tree of tools/quantize_mtp_experts_int4.py leaves in the new tree.
use qwen3_8_flash_dgx_auto_r.Common.{
  ℕ, ◌+◌, ◌≤◌, ◌<◌, ◌≡◌, ◌≢◌, refl, ◌∙◌, Bool, true, false, Option, none, some, arith, inl, inr,
  Bool-cases,
}
use qwen3_8_flash_dgx_auto_r.ExpertTree.{
  Files, set_name, unlink, create, place, up_to_date, refresh,
}

-- Every name leads to an inode that there is.
abbrev pub IsBelow : {Name : Type 0} → (Name → Option ℕ) → ℕ → Type 0
IsBelow {Name} dst n = (m : Name) (j : ℕ) → dst m ≡ some j → j < n

module _ {Name Content : Type 0} where
  -- What the steps of the first loop keep: the inodes that there are, and the names of other files.
  pub record Keeps (fs fs' : Files Name Content) : Type 0 where
    pub grows : fs.next ≤ fs'.next
    pub same : (i : ℕ) → i < fs.next → fs'.inodes i ≡ fs.inodes i
    pub below : IsBelow fs.dst fs.next → IsBelow fs'.dst fs'.next

  pub Keeps-refl : (fs : Files Name Content) → Keeps fs fs
  Keeps-refl fs = record { grows = omega arith; same = λ i h. refl; below = λ b. b }

  pub Keeps-trans : (a b c : Files Name Content) → Keeps a b → Keeps b c → Keeps a c
  Keeps-trans a b c k l = record {
    grows = omega (arith, k.grows, l.grows);
    same = λ i h. l.same i (omega (arith, k.grows)) ∙ k.same i h;
    below = λ d. l.below (k.below d);
  }

set_name-IsBelow :
    {Name : Type 0} (dec : Discrete Name) (n : Name) (v : Option ℕ) (dst : Name → Option ℕ)
    (top : ℕ)
    → IsBelow dst top
    → ((j : ℕ) → v ≡ some j → j < top)
    → IsBelow (set_name dec n v dst) top
unfolding set_name
set_name-IsBelow dec n v dst top b h m j e = ground (arith, b m j, h j)

module _ {Name Content : Type 0} (dec : Discrete Name) where
  place-Keeps :
      (links : Bool) (n : Name) (i : ℕ) (fs : Files Name Content)
      → i < fs.next
      → Keeps fs (place dec links n i fs)
  unfolding place create
  place-Keeps true n i fs h = record {
    grows = omega arith;
    same = λ k l. refl;
    below = λ b. set_name-IsBelow dec n (some i) fs.dst fs.next b (λ j e. ground arith);
  }
  place-Keeps false n i fs h = record {
    grows = omega arith;
    same = λ k l. ground arith;
    below = λ b.
        set_name-IsBelow dec n (some fs.next) fs.dst (fs.next + 1) (λ m j e. omega (arith, b m j e))
          (λ j e. ground arith);
  }

  -- A file of the source after its turn: its name is up to date, and no other name has moved.
  pub record IsRefreshed (n : Name) (i : ℕ) (fs fs' : Files Name Content) : Type 0 where
    pub keeps : Keeps fs fs'
    pub others : (m : Name) → m ≢ n → fs'.dst m ≡ fs.dst m
    pub inode : ℕ
    pub named : fs'.dst n ≡ some inode
    pub fresh : up_to_date fs' i inode ≡ true

  place-IsRefreshed :
      (links : Bool) (n : Name) (i : ℕ) (fs : Files Name Content)
      → i < fs.next
      → IsRefreshed n i fs (place dec links n i fs)
  unfolding place create set_name up_to_date
  place-IsRefreshed true n i fs h = record {
    keeps = place-Keeps true n i fs h;
    others = λ m o. ground arith;
    inode = i;
    named = ground arith;
    fresh = ground arith;
  }
  place-IsRefreshed false n i fs h = record {
    keeps = place-Keeps false n i fs h;
    others = λ m o. ground arith;
    inode = fs.next;
    named = ground arith;
    fresh = ground arith;
  }

  abbrev pub unlinked : Name → Files Name Content → Files Name Content
  unlinked = unlink dec

  pub unlink-Keeps : (n : Name) (fs : Files Name Content) → Keeps fs (unlinked n fs)
  unfolding unlink
  unlink-Keeps n fs = record {
    grows = omega arith;
    same = λ i h. refl;
    below = λ b. set_name-IsBelow dec n none fs.dst fs.next b (λ j e. cc);
  }

  pub unlink-other :
      (n m : Name) (fs : Files Name Content) → m ≢ n → (unlinked n fs).dst m ≡ fs.dst m
  unfolding unlink set_name
  unlink-other n m fs o = ground arith

  pub refresh-IsRefreshed :
      (links : Bool) (n : Name) (i : ℕ) (v : Option ℕ) (fs : Files Name Content)
      → fs.dst n ≡ v
      → i < fs.next
      → IsRefreshed n i fs (refresh dec links n i v fs)
  unfolding refresh
  refresh-IsRefreshed links n i none fs at h = place-IsRefreshed links n i fs h
  refresh-IsRefreshed links n i (some j) fs at h = elim (Bool-cases (up_to_date fs i j)) [
    | inl e ↦
        rw e
          (record { keeps = Keeps-refl fs; others = λ m o. refl; inode = j; named = at; fresh = e })
    | inr e ↦
        let gone = unlinked n fs in
        let r = place-IsRefreshed links n i gone h in
        rw e (record {
          keeps = Keeps-trans fs gone (place dec links n i gone) (unlink-Keeps n fs) r.keeps;
          others = λ m o. r.others m o ∙ unlink-other n m fs o;
          inode = r.inode;
          named = r.named;
          fresh = r.fresh;
        })
  ]
