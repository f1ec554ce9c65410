-- ===== src/Fs/Init.antt =====
-- The start of the file server (fs/fs.c): the superblock, the test of the disk and the bitmap.
use raspberry3_mos.Base.{
  ℕ, zero, suc, ◌+◌, ◌-◌, ◌*◌, ◌/◌, ◌%◌, ◌^◌, Bool, true, false, leb, ◌==◌, not, if◌then◌else◌,
  ◌&&◌,
}
use raspberry3_mos.Fs.{
  Fs, ok, panics, M, pure, ◌>>=◌, ◌>>◌, on_err, fs_magic, by2blk, diskmax, s_nblocks, diskaddr,
  block_is_mapped, block_is_free, read_block, write_block, in_block,
}

-- `user_assert`
abbrev pub user_assert : Bool → M (Unit {0})
user_assert true s = ok tt s
user_assert false s = panics

-- `read_super`, less its messages and the loop that only passes time.
unfoldable pub read_super : M (Unit {0})
read_super = do
  blk ← on_err (read_block 1) (λ r s. panics)
  λ s. ok tt (record s { super = blk })
  λ s. user_assert (s.word blk == fs_magic) s
  λ s. user_assert (leb (s.word (blk + 4)) (diskmax / by2blk)) s

-- The loops of `read_bitmap`, over the blocks from `i` on
unfoldable pub read_blocks : ℕ → ℕ → M (Unit {0})
read_blocks zero i = pure tt
read_blocks (suc n) i = do on_err (read_block i) (λ r. pure 0); read_blocks n (i + 1)

unfoldable pub assert_used : ℕ → ℕ → M (Unit {0})
assert_used zero i = pure tt
assert_used (suc n) i = do λ s. user_assert (not (block_is_free i s)) s; assert_used n (i + 1)

-- `ROUND(s_nblocks, BIT2BLK) / BIT2BLK`
unfoldable pub read_bitmap : M (Unit {0})
read_bitmap s =
    let n = (s_nblocks s + 32767) / 32768 in
    (do
      read_blocks n 2
      va ← diskaddr 2
      λ t. ok tt (record t { bitmap = va })
      assert_used 2 0
      assert_used n 2)
      (record s { nbitmap = n })

-- `user_bcopy` of a page from `src` to `dst`
unfoldable pub copy_page : ℕ → ℕ → M (Unit {0})
copy_page src dst s =
    ok tt (record s { word = λ a. if in_block dst a then s.word (src + (a - dst)) else s.word a })

-- The words of "OOPS!\n" with its 0; the last byte of the second stays.
abbrev oops : ℕ
oops = 0x53504f4f

abbrev oops_end : ℕ
oops_end = 0x000a21

-- `strcpy((char *)diskaddr(1), "OOPS!\n")`
unfoldable pub smash : ℕ → M (Unit {0})
smash va s = ok tt (record s {
  word = λ a.
      if a == va
      then oops
      else if a == va + 4
      then s.word a / 2 ^ 24 * 2 ^ 24 + oops_end
      else s.word a;
})

-- `strcmp((char *)diskaddr(1), "OOPS!\n") == 0`
unfoldable pub is_smashed : ℕ → Fs → Bool
is_smashed va s = (s.word va == oops) && (s.word (va + 4) % 2 ^ 24 == oops_end)

unfoldable pub set_super : ℕ → M (Unit {0})
set_super va s = ok tt (record s { super = va })

unfoldable pub unmap_page : ℕ → M (Unit {0})
unmap_page va s = ok tt (record s { mapped = λ p. if p == va / by2blk then false else s.mapped p })

-- `check_write_block`, with the addresses of blocks 0 and 1, for which `diskaddr` does not panic while
-- `super` is null.
unfoldable pub check_write_block : M (Unit {0})
check_write_block = do
  set_super 0
  read_block 0
  boot ← diskaddr 0
  va ← diskaddr 1
  copy_page va boot
  smash va
  write_block 1
  mapped ← block_is_mapped 1
  user_assert (not (mapped == 0))
  unmap_page va
  gone ← block_is_mapped 1
  user_assert (gone == 0)
  read_block 1
  λ s. user_assert (is_smashed va s) s
  copy_page boot va
  write_block 1
  set_super va

unfoldable pub fs_init : M (Unit {0})
fs_init = do read_super; check_write_block; read_bitmap
