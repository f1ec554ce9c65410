-- ===== src/Fs.antt =====
-- The file server's blocks (fs/fs.c): the disk, the blocks that are mapped in memory, and the bitmap
-- of free blocks. Memory is a function from addresses to 32-bit words, at multiples of 4; a 64-bit
-- access is one of two words.
pub mod Run
pub mod Init
pub mod File
pub mod Dir
pub mod Bitmap
mod Tests
use raspberry3_mos.Base.{
  ℕ, zero, suc, ◌+◌, ◌-◌, ◌*◌, ◌/◌, ◌%◌, ◌^◌, bit_and, bit_or, Bool, true, false, ◌&&◌, ◌||◌, ltb,
  leb, ◌==◌, not, if◌then◌else◌,
}
use raspberry3_mos.Pmap.{update, all_ones}

-- The memory and the disk by byte address, the pages that are mapped, and the variables of fs/fs.c,
-- where 0 is the null pointer. `grants n` tells if the kernel has a page for request number `n`.
pub record Fs : Type 0 where
  pub word : ℕ → ℕ
  pub mapped : ℕ → Bool
  pub disk : ℕ → ℕ
  pub super : ℕ
  pub bitmap : ℕ
  pub nbitmap : ℕ
  pub grants : ℕ → Bool
  pub requests : ℕ

-- How a function ends: with its result, with the negative of an error code, in `user_panic`, or at an
-- access to a page that the kernel did not give.
pub data Outcome (A : Type 0) : Type 0 where
  ok : A → Fs → Outcome A
  err : ℕ → Fs → Outcome A
  panics : Outcome A
  faults : Outcome A

abbrev pub M : Type 0 → Type 0
M A = Fs → Outcome A

abbrev pub pure : {A : Type 0} → A → M A
pure a s = ok a s

abbrev pub fail : {A : Type 0} → ℕ → M A
fail e s = err e s

infixl 5 ◌>>=◌ ◌>>◌
abbrev pub ◌>>=◌ : {A B : Type 0} → M A → (A → M B) → M B
◌>>=◌ m f s = elim (m s) [ ok a t ↦ f a t | err e t ↦ err e t | panics ↦ panics | faults ↦ faults ]

abbrev pub ◌>>◌ : {A B : Type 0} → M A → M B → M B
m >> k = m >>= λ _. k

-- What the caller does where the result is negative.
abbrev pub on_err : {A : Type 0} → M A → (ℕ → M A) → M A
on_err m f s = elim (m s) [ ok a t ↦ ok a t | err e t ↦ f e t | panics ↦ panics | faults ↦ faults ]

abbrev pub e_unspecified : ℕ
e_unspecified = 1

abbrev pub e_inval : ℕ
e_inval = 3

abbrev pub e_no_disk : ℕ
e_no_disk = 7

abbrev pub by2blk : ℕ
by2blk = 4096

abbrev pub diskmap : ℕ
diskmap = 0x200000000

abbrev pub diskmax : ℕ
diskmax = 0x40000000

abbrev pub fs_magic : ℕ
fs_magic = 0x19260817

-- A u64 in memory
abbrev pub load64 : (ℕ → ℕ) → ℕ → ℕ
load64 word a = word a + 2 ^ 32 * word (a + 4)

unfoldable pub store64 : (ℕ → ℕ) → ℕ → ℕ → ℕ → ℕ
store64 word a v = update (update word a (v % 2 ^ 32)) (a + 4) (v / 2 ^ 32 % 2 ^ 32)

-- `super->s_nblocks`
abbrev pub s_nblocks : Fs → ℕ
s_nblocks s = s.word (s.super + 4)

unfoldable pub diskaddr : ℕ → M ℕ
diskaddr blockno s =
    if not (s.super == 0) && leb (s_nblocks s) blockno
    then panics
    else ok (diskmap + blockno * by2blk) s

abbrev pub va_is_mapped : ℕ → Fs → Bool
va_is_mapped va s = s.mapped (va / by2blk)

-- The address of the block, or 0
unfoldable pub block_is_mapped : ℕ → M ℕ
block_is_mapped blockno = do va ← diskaddr blockno; λ s. ok (if va_is_mapped va s then va else 0) s

-- `va_is_dirty` is always 1.
unfoldable pub block_is_dirty : ℕ → M Bool
block_is_dirty blockno = do va ← diskaddr blockno; λ s. ok (va_is_mapped va s) s

abbrev pub in_block : ℕ → ℕ → Bool
in_block va a = leb va a && ltb a (va + by2blk)

-- `syscall_mem_alloc` of the page at `va`: the kernel clears it.
unfoldable pub mem_alloc : ℕ → M (Unit {0})
mem_alloc va s =
    if s.grants s.requests
    then ok tt (record s {
      word = λ a. if in_block va a then 0 else s.word a;
      mapped = update s.mapped (va / by2blk) true;
      requests = s.requests + 1;
    })
    else err e_unspecified (record s { requests = s.requests + 1 })

unfoldable pub map_block : ℕ → M (Unit {0})
map_block blockno = do
  va ← block_is_mapped blockno
  if not (va == 0) then pure tt else diskaddr blockno >>= mem_alloc

-- `sd_read` and `sd_write` of the eight sectors of a block
unfoldable pub sd_read : ℕ → ℕ → M (Unit {0})
sd_read blockno va s = ok tt (record s {
  word = λ a. if in_block va a then s.disk (blockno * by2blk + (a - va)) else s.word a;
})

unfoldable pub sd_write : ℕ → ℕ → M (Unit {0})
sd_write blockno va s = ok tt (record s {
  disk =
      λ a. if in_block (blockno * by2blk) a then s.word (va + (a - blockno * by2blk)) else s.disk a;
})

-- `write_block`; its `syscall_mem_map` maps the page where it is.
unfoldable pub write_block : ℕ → M (Unit {0})
write_block blockno = do
  mapped ← block_is_mapped blockno
  if mapped == 0 then (λ s. panics) else diskaddr blockno >>= sd_write blockno

-- `bitmap[blockno / 64]` and `1ul << (blockno % 64)`
abbrev pub bitmap_word : ℕ → Fs → ℕ
bitmap_word blockno s = load64 s.word (s.bitmap + 8 * (blockno / 64))

abbrev pub bit_is_set : ℕ → Fs → Bool
bit_is_set blockno s = not (bit_and (bitmap_word blockno s) (2 ^ (blockno % 64)) == 0)

unfoldable pub set_bitmap_word : ℕ → ℕ → Fs → Fs
set_bitmap_word blockno v s = record s { word = store64 s.word (s.bitmap + 8 * (blockno / 64)) v }

unfoldable pub block_is_free : ℕ → Fs → Bool
block_is_free blockno s =
    if (s.super == 0) || leb (s_nblocks s) blockno then false else bit_is_set blockno s

unfoldable pub free_block : ℕ → M (Unit {0})
free_block blockno s =
    if (blockno == 0) || (not (s.super == 0) && leb (s_nblocks s) blockno)
    then panics
    else ok tt (set_bitmap_word blockno (bit_or (bitmap_word blockno s) (2 ^ (blockno % 64))) s)

-- The loop of `alloc_block_num` with `n` rounds left.
unfoldable pub alloc_from : ℕ → ℕ → M ℕ
alloc_from zero blockno s = err e_no_disk s
alloc_from (suc n) blockno s =
    let later = alloc_from n (blockno + 1) s in
    if bit_is_set blockno s
    then ok blockno (
        set_bitmap_word blockno (bit_and (bitmap_word blockno s) (all_ones - 2 ^ (blockno % 64))) s)
    else later

unfoldable pub alloc_block_num : M ℕ
alloc_block_num s = alloc_from (s_nblocks s - 3) 3 s

unfoldable pub alloc_block : M ℕ
alloc_block = do
  bno ← alloc_block_num
  on_err (map_block bno) (λ r. free_block bno >> fail r)
  pure bno

unfoldable pub unmap_block : ℕ → M (Unit {0})
unmap_block blockno = do
  addr ← block_is_mapped blockno
  λ s.
      if addr == 0
      then ok tt s
      else (do
        dirty ← block_is_dirty blockno
        if not (block_is_free blockno s) && dirty then write_block blockno else pure tt
        λ t. ok tt (record t { mapped = update t.mapped (addr / by2blk) false }))
          s

-- The page for a block that is read from the disk; the result of `syscall_mem_alloc` is dropped, and
-- without a page the read has no place to go to.
unfoldable pub load_block : ℕ → ℕ → M (Unit {0})
load_block blockno va = do on_err (mem_alloc va) (λ r s. faults); sd_read blockno va

-- `read_block`: the address of the block
unfoldable pub read_block : ℕ → M ℕ
read_block blockno s =
    if (not (s.super == 0) && leb (s_nblocks s) blockno)
      || (not (s.bitmap == 0) && block_is_free blockno s)
    then panics
    else (do
      va ← diskaddr blockno
      mapped ← block_is_mapped blockno
      if not (mapped == 0) then pure tt else load_block blockno va
      pure va)
        s
