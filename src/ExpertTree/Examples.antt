-- ===== src/ExpertTree/Examples.antt =====
-- Tests of tools/quantize_mtp_experts_int4.py: the names 0, 1 and 2 are regenerated.
use qwen3_8_flash_dgx_auto_r.Common.{
  ℕ, ◌+◌, ◌<◌, ◌≡◌, refl, Bool, List, [], ◌∷◌, none, some, ltb, ◌==◌, if◌then◌else◌, elem, arith,
  lookup, ℕ_discrete, distinct,
}
use qwen3_8_flash_dgx_auto_r.ExpertTree.{Inode, Files, link_tree, main}
use qwen3_8_flash_dgx_auto_r.ExpertTree.Links.{IsBelow}
use qwen3_8_flash_dgx_auto_r.ExpertTree.Linked.{AreThere, IsCurrent}
use qwen3_8_flash_dgx_auto_r.ExpertTree.Parted.{lookup-AreThere, link_tree-IsCurrent}
use qwen3_8_flash_dgx_auto_r.ExpertTree.Writes.{main-source}

abbrev source_files : List (ℕ × ℕ)
source_files = (0, 0) ∷ (2, 1) ∷ (3, 2) ∷ (4, 3) ∷ []

-- The tree of a run before: the name 0 is still a link of the source, 3 is stale, and 2 is a file of
-- its own.
abbrev tree : Files ℕ ℕ
tree = record {
  dst = λ n. if n == 0 then some 0 else if n == 2 then some 4 else if n == 3 then some 5 else none;
  inodes = λ i. record { content = i; st_size = 10 + i; st_mtime = 0 };
  next = 6;
}

abbrev st_nlink : Files ℕ ℕ → ℕ → ℕ
st_nlink fs i = if ltb i 4 then 2 else 1

abbrev can_link : ℕ → Bool
can_link n = n == 3

source-AreThere : AreThere source_files 4
source-AreThere = (omega arith, (omega arith, (omega arith, (omega arith, tt))))

source_there : AreThere source_files 6
source_there = (omega arith, (omega arith, (omega arith, (omega arith, tt))))

counts :
    (fs : Files ℕ ℕ) (n m j : ℕ)
    → fs.dst n ≡ some j
    → lookup ℕ_discrete m source_files ≡ some j
    → 1 < st_nlink fs j
counts fs n m j h at =
    ground (arith, lookup-AreThere ℕ_discrete source_files 4 m j at source-AreThere)

tree-IsBelow : IsBelow tree.dst 6
tree-IsBelow m j h = ground arith

link_tree-IsCurrent_example :
    let fs = link_tree ℕ_discrete can_link st_nlink (0 ∷ 1 ∷ 2 ∷ []) source_files tree in
    (fs.inodes 3 ≡ tree.inodes 3) × IsCurrent fs 4 3
unfolding elem distinct ℕ_discrete lookup
link_tree-IsCurrent_example =
    link_tree-IsCurrent ℕ_discrete st_nlink source_files counts can_link (0 ∷ 1 ∷ 2 ∷ []) tree refl
      source_there tree-IsBelow 4 3 refl

main-source_example :
    let node : Inode ℕ = record { content = 7; st_size = 1; st_mtime = 1 } in
    (main ℕ_discrete can_link st_nlink 0 1 2 node node node source_files tree).inodes 0
    ≡ tree.inodes 0
unfolding distinct ℕ_discrete lookup
main-source_example =
    let node : Inode ℕ = record { content = 7; st_size = 1; st_mtime = 1 } in
    main-source ℕ_discrete st_nlink source_files counts can_link 0 1 2 node node node tree refl
      source_there tree-IsBelow 0 0 refl

-- The stale name 3 is a link again, 4 is a copy, 0 is gone, and 2 keeps its own file.
abbrev linked : Files ℕ ℕ
linked = link_tree ℕ_discrete can_link st_nlink (0 ∷ 1 ∷ 2 ∷ []) source_files tree

linked_names :
    (linked.dst 3 ≡ some 2)
    × (linked.dst 4 ≡ some 6)
    × (linked.dst 0 ≡ none)
    × (linked.dst 2 ≡ some 4)
unfolding link_tree elem ℕ_discrete
linked_names = (refl, refl, refl, refl)
