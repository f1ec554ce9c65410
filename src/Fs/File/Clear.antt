-- ===== src/Fs/File/Clear.antt =====
-- Removing the blocks of a file (fs/fs.c): what the 64-bit accesses to 32-bit entries do.
use raspberry3_mos.Base.{
  ℕ, suc, ◌+◌, ◌-◌, ◌*◌, ◌/◌, ◌%◌, ◌^◌, ◌<◌, ◌≡◌, ◌≢◌, refl, sym, ◌∙◌, ap, ◌⊎◌, inl, inr, false,
  ◌&&◌, ◌||◌, leb, ◌==◌, not, Bool-cases, arith,
}
use raspberry3_mos.Fs.{
  Fs, Outcome, ok, panics, s_nblocks, store64, free_block, on_err, pure, by2blk,
}
use raspberry3_mos.Fs.Run.{>>=-step, >>=-panics, on_err-run}
use raspberry3_mos.Fs.Bitmap.{set_bit, kept_memory}
use raspberry3_mos.Fs.File.{
  ndirect, f_size, f_direct, field, file_block_walk, slot, set_slot, clear_slot, file_clear_block,
  clear_blocks, blocks_of, file_truncate,
}
use raspberry3_mos.Fs.File.Slots.{walk_direct}

free_block-cases :
    (b : ℕ) (s : Fs) → (free_block b s ≡ panics) ⊎ (free_block b s ≡ ok tt (set_bit b s))
unfolding free_block
free_block-cases b s = elim (Bool-cases ((b == 0) || (not (s.super == 0) && leb (s_nblocks s) b))) [
  | inl bad ↦ inl (rw bad refl)
  | inr fine ↦ inr (rw fine refl)
]

free_block-zero : (s : Fs) → free_block 0 s ≡ panics
unfolding free_block
free_block-zero s = refl

-- The memory behind the 64-bit write of 0
abbrev zeroed : ℕ → Fs → Fs
zeroed ptr s = record s { word = store64 s.word ptr 0 }

clear_slot-full :
    (ptr b : ℕ) (s : Fs)
    → (slot ptr s == 0) ≡ false
    → slot ptr s % 2 ^ 32 ≡ b
    → (free_block b s ≡ panics → clear_slot ptr s ≡ panics)
      × (free_block b s ≡ ok tt (set_bit b s) → clear_slot ptr s ≡ ok tt (zeroed ptr (set_bit b s)))
unfolding clear_slot set_slot
clear_slot-full ptr b s full number =
    rw (clear_slot, full, number)
      (λ bad. >>=-panics (free_block b) _ s bad, λ fine. >>=-step (free_block b) _ s fine)

file_clear_block-direct :
    (f bno : ℕ) (s : Fs)
    → bno < ndirect
    → file_clear_block f bno s ≡ clear_slot (f + f_direct + 4 * bno) s
unfolding file_clear_block
file_clear_block-direct f bno s h =
    >>=-step (file_block_walk f bno false) clear_slot s (walk_direct f bno false s h)

-- Clearing an entry whose lower half is 0 panics.
file_clear_block-zero :
    (f bno : ℕ) (s : Fs)
    → bno < ndirect
    → s.word (f + f_direct + 4 * bno) ≡ 0
    → s.word (f + f_direct + 4 * bno + 4) ≢ 0
    → file_clear_block f bno s ≡ panics
file_clear_block-zero f bno s direct empty next =
    let ptr = f + f_direct + 4 * bno in
    let full : (slot ptr s == 0) ≡ false = ground (arith, empty) in
    let number : slot ptr s % 2 ^ 32 ≡ 0 = omega (arith, empty) in
    file_clear_block-direct f bno s direct
    ∙ (clear_slot-full ptr 0 s full number).0 (free_block-zero s)

clear_blocks-panics :
    (n f bno : ℕ) (s : Fs)
    → file_clear_block f bno s ≡ panics
    → clear_blocks (suc n) f bno s ≡ panics
unfolding clear_blocks
clear_blocks-panics n f bno s h =
    >>=-panics (on_err (file_clear_block f bno) (λ r. pure tt)) _ s
      (on_err-run (file_clear_block f bno) (λ r. pure tt) s h)

clear_blocks-next :
    (n f bno : ℕ) (s t : Fs)
    → file_clear_block f bno s ≡ ok tt t
    → clear_blocks (suc n) f bno s ≡ clear_blocks n f (bno + 1) t
unfolding clear_blocks
clear_blocks-next n f bno s t h =
    >>=-step (on_err (file_clear_block f bno) (λ r. pure tt)) _ s
      (on_err-run (file_clear_block f bno) (λ r. pure tt) s h)

-- The first two entries are read, freed and cleared as one, and then the second entry is 0 in front
-- of the third.
clear_two :
    (n f d : ℕ) (s : Fs)
    → s.word (f + f_direct) ≡ d
    → d < 2 ^ 32
    → (slot (f + f_direct) s == 0) ≡ false
    → s.word (f + f_direct + 8) ≢ 0
    → f + f_direct + 8 ≢ s.bitmap + 8 * (d / 64)
    → f + f_direct + 8 ≢ s.bitmap + 8 * (d / 64) + 4
    → clear_blocks (suc (suc n)) f 0 s ≡ panics
unfolding store64
clear_two n f d s first small full third apart apart4 = by_free (free_block-cases d s)
  where
    start : f + f_direct + 4 * 0 ≡ f + f_direct
    start = omega arith

    number : slot (f + f_direct) s % 2 ^ 32 ≡ d
    number = omega (arith, first)

    cleared :
        (r : Outcome (Unit {0})) → clear_slot (f + f_direct) s ≡ r → file_clear_block f 0 s ≡ r
    cleared r h = file_clear_block-direct f 0 s (omega arith) ∙ ap (λ p. clear_slot p s) start ∙ h

    by_free :
        (free_block d s ≡ panics) ⊎ (free_block d s ≡ ok tt (set_bit d s))
        → clear_blocks (suc (suc n)) f 0 s ≡ panics
    by_free (inl bad) =
        clear_blocks-panics (suc n) f 0 s
          (cleared panics ((clear_slot-full (f + f_direct) d s full number).0 bad))
    by_free (inr fine) =
        let t = zeroed (f + f_direct) (set_bit d s) in
        let kept : (set_bit d s).word (f + f_direct + 8) ≡ s.word (f + f_direct + 8) =
          kept_memory d _ (f + f_direct + 8) s apart apart4 in
        let second : t.word (f + f_direct + 4 * 1) ≡ 0 = ground arith in
        let far : t.word (f + f_direct + 8) ≡ (set_bit d s).word (f + f_direct + 8) =
          ground arith in
        let place : t.word (f + f_direct + 4 * 1 + 4) ≡ t.word (f + f_direct + 8) =
          ap t.word (omega arith) in
        let last : t.word (f + f_direct + 4 * 1 + 4) ≢ 0 =
          λ q. third (sym (place ∙ far ∙ kept) ∙ q) in
        clear_blocks-next (suc n) f 0 s t
          (cleared (ok tt t) ((clear_slot-full (f + f_direct) d s full number).1 fine))
        ∙ clear_blocks-panics n f 1 t (file_clear_block-zero f 1 t (omega arith) second last)

-- `file_truncate` to 0 of a file of more than one block panics where its third block number is not 0
-- and its first two are not both 0, as they are for every file of three blocks. The numbers are u32,
-- and the third does not lie in the word of the bitmap that holds the bit of the first.
pub file_truncate-panics :
    (f d : ℕ) (s : Fs)
    → by2blk < field f f_size s
    → field f f_size s < 2 ^ 32
    → s.word (f + f_direct) ≡ d
    → d < 2 ^ 32
    → (slot (f + f_direct) s == 0) ≡ false
    → s.word (f + f_direct + 8) ≢ 0
    → f + f_direct + 8 ≢ s.bitmap + 8 * (d / 64)
    → f + f_direct + 8 ≢ s.bitmap + 8 * (d / 64) + 4
    → file_truncate f 0 s ≡ panics
unfolding file_truncate
file_truncate-panics f d s long word first small full third apart apart4 =
    let size = field f f_size s in
    let rounds : blocks_of size - 0 ≡ suc (suc (blocks_of size - 2)) = omega arith in
    >>=-panics (clear_blocks (blocks_of size - 0) f 0) _ s (
      ap (λ n. clear_blocks n f 0 s) rounds
      ∙ clear_two (blocks_of size - 2) f d s first small full third apart apart4)
