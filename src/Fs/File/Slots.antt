-- ===== src/Fs/File/Slots.antt =====
-- The direct block numbers of a file (fs/fs.c): `file_map_block`.
use raspberry3_mos.Base.{
  ℕ, ◌+◌, ◌*◌, ◌%◌, ◌^◌, ◌≤◌, ◌<◌, ◌≡◌, refl, sym, subst, ◌∙◌, ap, inl, inr, Bool, true, false, ltb,
  ◌==◌, Bool-cases, arith,
}
use raspberry3_mos.Fs.{
  Fs, ok, s_nblocks, store64, alloc_block, alloc_block_num, map_block, free_block, on_err, fail,
  ◌>>◌,
}
use raspberry3_mos.Fs.Run.{>>=-ok, >>=-step}
use raspberry3_mos.Fs.Bitmap.{alloc_block_num-Allocated}
use raspberry3_mos.Fs.File.{
  ndirect, f_direct, file_block_walk, slot, set_slot, fill_slot, file_map_block,
}

pub walk_direct :
    (f filebno : ℕ) (alloc : Bool) (s : Fs)
    → filebno < ndirect
    → file_block_walk f filebno alloc s ≡ ok (f + f_direct + 4 * filebno) s
unfolding file_block_walk
walk_direct f filebno alloc s h =
    let direct : ltb filebno ndirect ≡ true = ground arith in rw direct refl

pub slot-set_slot : (ptr v : ℕ) (s t : Fs) → set_slot ptr v s ≡ ok tt t → slot ptr t ≡ v % 2 ^ 64
unfolding set_slot store64
slot-set_slot ptr v s t h =
    let state : record s { word = store64 s.word ptr v } ≡ t = cc in
    ap (λ (u : Fs). slot ptr u) (sym state) ∙ ground arith

-- A new block has a number from 3 on that fits into 32 bits.
pub alloc_block-bounds :
    (s t : Fs) (b : ℕ)
    → s.super + 4 < s.bitmap
    → s_nblocks s < 2 ^ 32
    → alloc_block s ≡ ok b t
    → (3 ≤ b) × (b < 2 ^ 32)
unfolding alloc_block
alloc_block-bounds s t b low small h =
    let (c, u, found, rest) = >>=-ok alloc_block_num _ s h in
    let (x, v, mapped, last) =
      >>=-ok (on_err (map_block c) (λ r. free_block c >> fail r)) _ u rest in
    let same : c ≡ b = cc in
    let made = alloc_block_num-Allocated s u c low found in
    omega (arith, made.low, made.inside, same)

-- An entry that `fill_slot` has filled is not 0.
fill_slot-filled :
    (ptr : ℕ) (s t : Fs)
    → s.super + 4 < s.bitmap
    → s_nblocks s < 2 ^ 32
    → fill_slot ptr true s ≡ ok tt t
    → (slot ptr t == 0) ≡ false
unfolding fill_slot
fill_slot-filled ptr s t low small h = elim (Bool-cases (slot ptr s == 0)) [
  | inl empty ↦
      let (r, u, found, set) =
        >>=-ok alloc_block (λ r. set_slot ptr r) s (rw (fill_slot, empty) at h) in
      let (from_three, word) = alloc_block-bounds s u r low small found in
      let value = slot-set_slot ptr r u t set in ground (arith, value, from_three, word)
  | inr full ↦
      let same : ok tt s ≡ ok tt t = rw (fill_slot, full) at h in
      let state : s ≡ t = cc in rw (← state) full
]

fill_slot-full :
    (ptr : ℕ) (alloc : Bool) (s : Fs) → (slot ptr s == 0) ≡ false → fill_slot ptr alloc s ≡ ok tt s
unfolding fill_slot
fill_slot-full ptr alloc s full = rw (fill_slot, full) refl

-- With an entry that is not 0, `file_map_block` only reads.
pub file_map_block-full :
    (f filebno : ℕ) (alloc : Bool) (s : Fs)
    → filebno < ndirect
    → (slot (f + f_direct + 4 * filebno) s == 0) ≡ false
    → file_map_block f filebno alloc s ≡ ok (slot (f + f_direct + 4 * filebno) s % 2 ^ 32) s
unfolding file_map_block
file_map_block-full f filebno alloc s direct full =
    let ptr = f + f_direct + 4 * filebno in
    >>=-step (file_block_walk f filebno alloc) _ s (walk_direct f filebno alloc s direct)
    ∙ >>=-step (fill_slot ptr alloc) _ s (fill_slot-full ptr alloc s full)

-- A block that `file_map_block` has mapped for a direct entry, new or old, is found again without
-- `alloc`, and nothing changes. The superblock lies below the bitmap, and the number of blocks is a
-- u32.
pub file_map_block-again :
    (f filebno b : ℕ) (s t : Fs)
    → filebno < ndirect
    → s.super + 4 < s.bitmap
    → s_nblocks s < 2 ^ 32
    → file_map_block f filebno true s ≡ ok b t
    → file_map_block f filebno false t ≡ ok b t
unfolding file_map_block
file_map_block-again f filebno b s t direct low small h =
    let ptr = f + f_direct + 4 * filebno in
    let (x, u, filled, last) =
      >>=-ok (fill_slot ptr true) (λ y v. ok (slot ptr v % 2 ^ 32) v) s
        (sym (>>=-step (file_block_walk f filebno true) _ s (walk_direct f filebno true s direct))
          ∙ h) in
    let state : u ≡ t = cc in
    let number : slot ptr u % 2 ^ 32 ≡ b = cc in
    let full = fill_slot-filled ptr s u low small filled in
    subst (λ (v : Fs). file_map_block f filebno false v ≡ ok b v) state
      (file_map_block-full f filebno false u direct full ∙ ap (λ n. ok n u) number)
