-- ===== src/Fs/Tests.antt =====
-- A disk of 64 blocks: blocks 0 to 4 are used, and the root directory has the blocks 3, 4 and 3.
use raspberry3_mos.Base.{
  ℕ, ◌+◌, ◌*◌, ◌≤◌, ◌<◌, ◌≡◌, refl, ◌⊎◌, true, false, [], ◌∷◌, ◌==◌, if◌then◌else◌, arith,
}
use raspberry3_mos.Fs.{
  Fs, ok, err, panics, e_no_disk, s_nblocks, bit_is_set, alloc_block_num, alloc_from,
  set_bitmap_word, store64, free_block, alloc_block, map_block, block_is_mapped, diskaddr,
}
use raspberry3_mos.Fs.Bitmap.{Allocated, clear_bit, alloc_block_num_lem, free_block-alloc_block_num}
use raspberry3_mos.Pmap.{update}
use raspberry3_mos.Fs.File.{file_block_walk, fill_slot, set_slot, file_map_block, file_truncate}
use raspberry3_mos.Fs.File.Slots.{file_map_block-again}
use raspberry3_mos.Fs.File.Clear.{file_truncate-panics}
use raspberry3_mos.Fs.Dir.{found, walk_path, walk_names, skip_slash}
use raspberry3_mos.Fs.Dir.Paths.{words, walk_words, walk_path-words}

abbrev sb : ℕ
sb = 0x200001000

abbrev root : ℕ
root = 0x200001008

abbrev disk : Fs
disk = record {
  word = λ a.
      if a == sb + 4
      then 64
      else if a == sb + 4096
      then 0xffffffe0
      else if a == sb + 4100
      then 0xffffffff
      else if a == root + 128
      then 12288
      else if a == root + 132
      then 1
      else if a == root + 136
      then 3
      else if a == root + 140
      then 4
      else if a == root + 144
      then 3
      else 0;
  mapped = λ p. true;
  disk = λ a. 0;
  super = sb;
  bitmap = 0x200002000;
  nbitmap = 1;
  grants = λ n. true;
  requests = 0;
}

alloc_runs : alloc_block_num disk ≡ ok 5 (clear_bit 5 disk)
unfolding alloc_block_num alloc_from
alloc_runs = refl

alloc_block_num_lem_example :
    ((b : ℕ) × (t : Fs) × (alloc_block_num disk ≡ ok b t) × Allocated disk b t)
    ⊎ ((alloc_block_num disk ≡ err e_no_disk disk)
        × ((c : ℕ) → 3 ≤ c → c < s_nblocks disk → bit_is_set c disk ≡ false))
alloc_block_num_lem_example = alloc_block_num_lem disk (omega arith)

free_block-alloc_block_num_example :
    (u : Fs) × (free_block 5 (clear_bit 5 disk) ≡ ok tt u)
    × ((c : ℕ) → bit_is_set c u ≡ bit_is_set c disk)
free_block-alloc_block_num_example =
    free_block-alloc_block_num disk (clear_bit 5 disk) 5 (omega arith) alloc_runs

-- The disk with block 5 as the fifth of the root.
abbrev mapped_disk : Fs
mapped_disk = let t = clear_bit 5 disk in record t { word = store64 t.word (root + 136 + 4 * 4) 5 }

map_runs : file_map_block root 4 true disk ≡ ok 5 mapped_disk
unfolding file_map_block file_block_walk fill_slot set_slot alloc_block alloc_block_num alloc_from
    set_bitmap_word store64 map_block block_is_mapped diskaddr
map_runs = refl

file_map_block-again_example : file_map_block root 4 false mapped_disk ≡ ok 5 mapped_disk
file_map_block-again_example =
    file_map_block-again root 4 5 disk mapped_disk (omega arith) (omega arith) (omega arith)
      map_runs

-- The disk whose root has no first block.
abbrev sparse_disk : Fs
sparse_disk = record disk { word = update disk.word (root + 136) 0 }

file_truncate-panics_example : file_truncate root 0 disk ≡ panics
file_truncate-panics_example =
    file_truncate-panics root 3 disk (omega arith) (omega arith) refl (omega arith) refl
      (omega arith) (omega arith) (omega arith)

-- "//" leads to the root.
walk_runs : walk_path (47 ∷ 47 ∷ []) disk ≡ ok (found 0 root) disk
unfolding walk_path walk_names skip_slash
walk_runs = refl

walk_path-words_example :
    walk_path (47 ∷ 97 ∷ 47 ∷ 47 ∷ 98 ∷ []) disk
    ≡ walk_words (words [] (47 ∷ 97 ∷ 47 ∷ 47 ∷ 98 ∷ [])) 0 (disk.super + 8) disk
walk_path-words_example = walk_path-words (47 ∷ 97 ∷ 47 ∷ 47 ∷ 98 ∷ []) disk
