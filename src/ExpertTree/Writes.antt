-- ===== src/ExpertTree/Writes.antt =====
-- What tools/quantize_mtp_experts_int4.py writes: nothing through a name of the source.
use qwen3_8_flash_dgx_auto_r.Common.{
  ℕ, ◌<◌, ◌≡◌, ap, ◌∙◌, Bool, true, List, [], ◌∷◌, Option, none, some, elem, arith, lookup, keys,
  distinct, inl, inr, Option-cases,
}
use qwen3_8_flash_dgx_auto_r.ExpertTree.{
  Inode, Files, set_name, unlink, create, link_files, link_tree, overwrite, write_file,
  unlink_extra, main,
}
use qwen3_8_flash_dgx_auto_r.ExpertTree.Links.{IsBelow}
use qwen3_8_flash_dgx_auto_r.ExpertTree.Linked.{AreThere, link_files-AreLinked}
use qwen3_8_flash_dgx_auto_r.ExpertTree.Parted.{
  IsPrivate, part_files-IsParted, unlink-fewer, lookup-AreThere,
}

module _ {Name Content : Type 0} (dec : Discrete Name) (st_nlink : Files Name Content → ℕ → ℕ)
    (src : List (Name × ℕ))
    (counts : (fs : Files Name Content) (n m : Name) (j : ℕ)
      → fs.dst n ≡ some j
      → lookup dec m src ≡ some j
      → 1 < st_nlink fs j) where
  -- The files of the source are as they were, and none is under a name of the list.
  record IsUntouched (regen : List Name) (base fs : Files Name Content) : Type 0 where
    pub there : (m : Name) (i : ℕ) → lookup dec m src ≡ some i → i < fs.next
    pub same : (m : Name) (i : ℕ) → lookup dec m src ≡ some i → fs.inodes i ≡ base.inodes i
    pub private : (n : Name) → elem dec n regen ≡ true → IsPrivate dec st_nlink src fs n

  module _ (regen : List Name) (base : Files Name Content) where
    create-IsUntouched :
        (n : Name) (node : Inode Content) (fs : Files Name Content)
        → IsUntouched regen base fs
        → IsUntouched regen base (create dec n node fs)
    unfolding create set_name
    create-IsUntouched n node fs v = record {
      there = λ m i at. omega (arith, v.there m i at);
      same = λ m i at. ground (arith, v.there m i at, v.same m i at);
      private = λ k e m j h at. ground (arith, v.private k e m j, v.there m j at);
    }

    write_file-IsUntouched :
        (n : Name) (node : Inode Content) (fs : Files Name Content)
        → elem dec n regen ≡ true
        → IsUntouched regen base fs
        → IsUntouched regen base (write_file dec n node fs)
    unfolding write_file overwrite
    write_file-IsUntouched n node fs e v = elim (Option-cases (fs.dst n)) [
      | inl none_there ↦ rw none_there (create-IsUntouched n node fs v)
      | inr (j, named) ↦ rw named (record {
        there = v.there;
        same = λ m i at. ground (arith, v.private n e m i, v.same m i at);
        private = v.private;
      })
    ]

    unlink_extra-IsUntouched :
        (n : Name) (o : Option ℕ) (fs : Files Name Content)
        → IsUntouched regen base fs
        → IsUntouched regen base (unlink_extra dec n o fs)
    unfolding unlink_extra unlink
    unlink_extra-IsUntouched n none fs v = v
    unlink_extra-IsUntouched n (some i) fs v = record {
      there = v.there;
      same = v.same;
      private = λ k e m j h. v.private k e m j (unlink-fewer dec st_nlink src counts n k j fs h);
    }

  link_tree-IsUntouched :
      (can_link : Name → Bool) (regen : List Name) (fs : Files Name Content)
      → distinct dec (keys src) ≡ true
      → AreThere src fs.next
      → IsBelow fs.dst fs.next
      → IsUntouched regen fs (link_tree dec can_link st_nlink regen src fs)
  unfolding link_tree
  link_tree-IsUntouched can_link regen fs d t b =
      let linked = link_files dec can_link regen src fs in
      let l = link_files-AreLinked dec can_link regen src fs d t b in
      let p = part_files-IsParted dec st_nlink src counts regen linked in
      record {
        there = λ m i at.
            omega (arith, p.next, l.keeps.grows, lookup-AreThere dec src fs.next m i at t);
        same = λ m i at.
            ap (λ f. f i) p.inodes ∙ l.keeps.same i (lookup-AreThere dec src fs.next m i at t);
        private = p.private;
      }

  -- When st_nlink counts the names of an inode, the names of the source are distinct, and every name
  -- of both trees leads to an inode that there is: main writes nothing through a hard link of the
  -- source. Every regular file of the source holds after it what it held before, whatever the new
  -- tree had.
  pub main-source :
      (can_link : Name → Bool) (extra index config : Name)
      (extra_node index_node config_node : Inode Content) (fs : Files Name Content)
      → distinct dec (keys src) ≡ true
      → AreThere src fs.next
      → IsBelow fs.dst fs.next
      → (n : Name) (i : ℕ) → lookup dec n src ≡ some i
      → (main dec can_link st_nlink extra index config extra_node index_node config_node src
            fs).inodes
          i
        ≡ fs.inodes i
  unfolding main elem
  main-source can_link extra index config extra_node index_node config_node fs d t b n i at =
      let regen = extra ∷ index ∷ config ∷ [] in
      let linked = link_tree dec can_link st_nlink regen src fs in
      let v = link_tree-IsUntouched can_link regen fs d t b in
      let u = unlink_extra-IsUntouched regen fs extra (linked.dst extra) linked v in
      let w = write_file-IsUntouched regen fs extra extra_node _ (ground arith) u in
      let x = write_file-IsUntouched regen fs index index_node _ (ground arith) w in
      (write_file-IsUntouched regen fs config config_node _ (ground arith) x).same n i at
