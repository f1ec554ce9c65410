-- ===== src/Fs/File.antt =====
-- Files (fs/fs.c): the blocks of a file, its size, and what is written back. A file is the address
-- of its `struct File`, in a block of its directory or in the superblock.
pub mod Slots
pub mod Clear
use raspberry3_mos.Base.{
  ℕ, zero, suc, ◌+◌, ◌-◌, ◌*◌, ◌/◌, ◌%◌, ◌^◌, Bool, true, false, ltb, leb, ◌==◌, not, if◌then◌else◌,
}
use raspberry3_mos.Pmap.{update}
use raspberry3_mos.Fs.{
  Fs, Outcome, ok, err, panics, faults, M, pure, fail, ◌>>=◌, ◌>>◌, on_err, e_inval, by2blk, load64,
  store64, s_nblocks, free_block, alloc_block, block_is_dirty, read_block, write_block,
}

abbrev pub e_not_found : ℕ
e_not_found = 9

abbrev pub ndirect : ℕ
ndirect = 10

abbrev pub nindirect : ℕ
nindirect = 1024

-- The fields of `struct File` by their offsets
abbrev pub f_size : ℕ
f_size = 128

abbrev pub f_type : ℕ
f_type = 132

abbrev pub f_direct : ℕ
f_direct = 136

abbrev pub f_indirect : ℕ
f_indirect = 176

abbrev pub f_dir : ℕ
f_dir = 184

abbrev pub field : ℕ → ℕ → Fs → ℕ
field f offset s = s.word (f + offset)

unfoldable pub set_field : ℕ → ℕ → ℕ → M (Unit {0})
set_field f offset v s = ok tt (record s { word = update s.word (f + offset) (v % 2 ^ 32) })

-- The indirect block of `f`, made where there is none and `alloc` is set.
unfoldable pub indirect_block : ℕ → Bool → M (Unit {0})
indirect_block f alloc s =
    if field f f_indirect s == 0
    then (if not alloc then fail e_not_found else (do r ← alloc_block; set_field f f_indirect r)) s
    else ok tt s

-- `file_block_walk`: the address that goes to `*ppdiskbno`. It is that of a u32, and the callers read
-- and write a u64 there.
unfoldable pub file_block_walk : ℕ → ℕ → Bool → M ℕ
file_block_walk f filebno alloc =
    if ltb filebno ndirect
    then pure (f + f_direct + 4 * filebno)
    else if ltb filebno nindirect
    then (do
      indirect_block f alloc
      blk ← λ s. read_block (field f f_indirect s) s
      pure (blk + 4 * filebno))
    else fail e_inval

-- `*ptr` and `*ptr = v`
abbrev pub slot : ℕ → Fs → ℕ
slot ptr s = load64 s.word ptr

unfoldable pub set_slot : ℕ → ℕ → M (Unit {0})
set_slot ptr v s = ok tt (record s { word = store64 s.word ptr v })

-- A block for the entry at `ptr`, if it has none.
unfoldable pub fill_slot : ℕ → Bool → M (Unit {0})
fill_slot ptr alloc s =
    if slot ptr s == 0
    then (if not alloc then fail e_not_found else (do r ← alloc_block; set_slot ptr r)) s
    else ok tt s

-- `file_map_block`: the number that goes to `*diskbno`, a u32
unfoldable pub file_map_block : ℕ → ℕ → Bool → M ℕ
file_map_block f filebno alloc = do
  ptr ← file_block_walk f filebno alloc
  fill_slot ptr alloc
  λ s. ok (slot ptr s % 2 ^ 32) s

unfoldable pub clear_slot : ℕ → M (Unit {0})
clear_slot ptr s =
    if slot ptr s == 0 then ok tt s else (do free_block (slot ptr s % 2 ^ 32); set_slot ptr 0) s

unfoldable pub file_clear_block : ℕ → ℕ → M (Unit {0})
file_clear_block f filebno = file_block_walk f filebno false >>= clear_slot

-- `file_get_block`: the address of the block
unfoldable pub file_get_block : ℕ → ℕ → M ℕ
file_get_block f filebno = file_map_block f filebno true >>= read_block

-- `file_dirty` writes a byte to itself.
unfoldable pub file_dirty : ℕ → ℕ → M (Unit {0})
file_dirty f offset = do file_get_block f (offset / by2blk); pure tt

-- `ROUND(size, BY2BLK) / BY2BLK`, as a u32
abbrev pub blocks_of : ℕ → ℕ
blocks_of size = (size + 4095) % 2 ^ 64 / by2blk % 2 ^ 32

-- `for (; bno < old_nblocks; bno++) file_clear_block(f, bno)`, with `n` rounds left
unfoldable pub clear_blocks : ℕ → ℕ → ℕ → M (Unit {0})
clear_blocks zero f bno = pure tt
clear_blocks (suc n) f bno = do
  on_err (file_clear_block f bno) (λ r. pure tt)
  clear_blocks n f (bno + 1)

unfoldable pub free_indirect : ℕ → M (Unit {0})
free_indirect f s =
    if field f f_indirect s == 0
    then ok tt s
    else (do free_block (field f f_indirect s); set_field f f_indirect 0) s

unfoldable pub file_truncate : ℕ → ℕ → M (Unit {0})
file_truncate f newsize s =
    let old_nblocks = blocks_of (field f f_size s) in
    let new_nblocks = if newsize == 0 then 0 else blocks_of newsize in
    (do
      clear_blocks (old_nblocks - new_nblocks) f new_nblocks
      if ltb new_nblocks ndirect then free_indirect f else pure tt
      set_field f f_size newsize)
      s

unfoldable pub flush_blocks : ℕ → ℕ → ℕ → M (Unit {0})
flush_blocks zero f bno = pure tt
flush_blocks (suc n) f bno = do
  on_err
      (do
        diskno ← file_map_block f bno false
        dirty ← block_is_dirty diskno
        if dirty then write_block diskno else pure tt)
      (λ r. pure tt)
  flush_blocks n f (bno + 1)

unfoldable pub file_flush : ℕ → M (Unit {0})
file_flush f s = flush_blocks (blocks_of (field f f_size s)) f 0 s

-- `if (f->f_dir) file_flush(f->f_dir)`
unfoldable pub flush_dir : ℕ → M (Unit {0})
flush_dir f s =
    let dir = load64 s.word (f + f_dir) in if dir == 0 then ok tt s else file_flush dir s

unfoldable pub file_set_size : ℕ → ℕ → M (Unit {0})
file_set_size f newsize = do
  λ s. if ltb newsize (field f f_size s) then file_truncate f newsize s else ok tt s
  set_field f f_size newsize
  flush_dir f

-- The loop of `fs_sync` from block `i` on
unfoldable pub sync_blocks : ℕ → ℕ → M (Unit {0})
sync_blocks zero i = pure tt
sync_blocks (suc n) i = do
  dirty ← block_is_dirty i
  if dirty then write_block i else pure tt
  sync_blocks n (i + 1)

unfoldable pub fs_sync : M (Unit {0})
fs_sync s = sync_blocks (s_nblocks s) 0 s

unfoldable pub file_close : ℕ → M (Unit {0})
file_close f = do file_flush f; flush_dir f
