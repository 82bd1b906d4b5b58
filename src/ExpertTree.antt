-- ===== src/ExpertTree.antt =====
-- The files of tools/quantize_mtp_experts_int4.py: link_tree, and the three files that main then writes
-- into the new tree. A name leads to an inode, and an inode holds what is written through any of its
-- names. Whether os.link goes through, and st_nlink, are the file system's: parameters.
mod Links
mod Linked
mod Parted
mod Writes
mod Examples
use qwen3_8_flash_dgx_auto_r.Common.{
  ℕ, ◌+◌, Bool, true, false, ◌&&◌, ◌||◌, List, [], ◌∷◌, Option, none, some, ltb, ◌==◌,
  if◌then◌else◌, elem,
}

pub record Inode (Content : Type 0) : Type 0 where
  pub content : Content
  pub st_size : ℕ
  pub st_mtime : ℕ

-- The names of the new tree, the inodes, and the number of the next one.
pub record Files (Name Content : Type 0) : Type 0 where
  pub dst : Name → Option ℕ
  pub inodes : ℕ → Inode Content
  pub next : ℕ

-- The names after one of them is bound, or removed.
pub set_name :
    {Name : Type 0} → Discrete Name → Name → Option ℕ → (Name → Option ℕ) → Name → Option ℕ
set_name dec n v dst m = elim (dec m n) [ yes _ ↦ v | no _ ↦ dst m ]

module _ {Name Content : Type 0} where
  pub up_to_date : Files Name Content → ℕ → ℕ → Bool
  up_to_date fs i j =
      let s = fs.inodes i in
      let d = fs.inodes j in i == j || (s.st_size == d.st_size && s.st_mtime == d.st_mtime)

module _ {Name Content : Type 0} (dec : Discrete Name) where
  -- `os.unlink(d)`
  pub unlink : Name → Files Name Content → Files Name Content
  unfolding set_name
  unlink n fs = record fs { dst = set_name dec n none fs.dst }

  -- A new inode under a name.
  pub create : Name → Inode Content → Files Name Content → Files Name Content
  unfolding set_name
  create n node fs = record {
    dst = set_name dec n (some fs.next) fs.dst;
    inodes = λ i. if i == fs.next then node else fs.inodes i;
    next = fs.next + 1;
  }

  -- `os.link(s, d)`, or `shutil.copy2(s, d)` where that fails.
  pub place : Bool → Name → ℕ → Files Name Content → Files Name Content
  unfolding create set_name
  place true n i fs = record fs { dst = set_name dec n (some i) fs.dst }
  place false n i fs = create n (fs.inodes i) fs

  -- The body of the first loop, for what is at `d`.
  pub refresh : Bool → Name → ℕ → Option ℕ → Files Name Content → Files Name Content
  unfolding place up_to_date unlink
  refresh links n i none fs = place links n i fs
  refresh links n i (some j) fs = if up_to_date fs i j then fs else place links n i (unlink n fs)

  -- The loop over the regular files of the source, in the order of their names.
  pub link_files :
      (Name → Bool) → List Name → List (Name × ℕ) → Files Name Content → Files Name Content
  unfolding refresh
  link_files can_link regen [] fs = fs
  link_files can_link regen ((n, i) ∷ src) fs =
      link_files can_link regen src
        (if elem dec n regen then fs else refresh (can_link n) n i (fs.dst n) fs)

  -- The body of the second loop.
  pub part :
      (Files Name Content → ℕ → ℕ) → Name → Option ℕ → Files Name Content → Files Name Content
  unfolding unlink
  part st_nlink n none fs = fs
  part st_nlink n (some j) fs = if ltb 1 (st_nlink fs j) then unlink n fs else fs

  -- `for name in REGEN`
  pub part_files :
      (Files Name Content → ℕ → ℕ) → List Name → Files Name Content → Files Name Content
  unfolding part
  part_files st_nlink [] fs = fs
  part_files st_nlink (n ∷ regen) fs = part_files st_nlink regen (part st_nlink n (fs.dst n) fs)

  pub link_tree :
      (Name → Bool)
      → (Files Name Content → ℕ → ℕ)
      → List Name
      → List (Name × ℕ)
      → Files Name Content
      → Files Name Content
  unfolding link_files part_files
  link_tree can_link st_nlink regen src fs =
      part_files st_nlink regen (link_files can_link regen src fs)

  -- A file opened for writing: what it had is overwritten through its inode.
  pub overwrite : Name → Inode Content → Option ℕ → Files Name Content → Files Name Content
  unfolding create
  overwrite n node none fs = create n node fs
  overwrite n node (some j) fs = record fs { inodes = λ i. if i == j then node else fs.inodes i }

  pub write_file : Name → Inode Content → Files Name Content → Files Name Content
  unfolding overwrite
  write_file n node fs = overwrite n node (fs.dst n) fs

  -- `if os.path.lexists(dst_extra): os.unlink(dst_extra)`
  pub unlink_extra : Name → Option ℕ → Files Name Content → Files Name Content
  unfolding unlink
  unlink_extra n none fs = fs
  unlink_extra n (some j) fs = unlink n fs

  -- main: REGEN is the names of the extra tensors, of the index and of the configuration.
  pub main :
      (Name → Bool)
      → (Files Name Content → ℕ → ℕ)
      → (extra index config : Name) → (extra_node index_node config_node : Inode Content)
      → List (Name × ℕ)
      → Files Name Content
      → Files Name Content
  unfolding link_tree unlink_extra write_file
  main can_link st_nlink extra index config extra_node index_node config_node src fs =
      let linked = link_tree can_link st_nlink (extra ∷ index ∷ config ∷ []) src fs in
      let saved = write_file extra extra_node (unlink_extra extra (linked.dst extra) linked) in
      write_file config config_node (write_file index index_node saved)
