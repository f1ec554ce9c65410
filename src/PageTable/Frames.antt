-- ===== src/PageTable/Frames.antt =====
-- The addresses of tables: an entry that is valid names the frame of the next table.
use raspberry3_mos.Base.{ℕ, ◌+◌, ◌/◌, ◌%◌, ◌^◌, ◌≤◌, ◌<◌, ◌≡◌, ◌≢◌, refl, ◌∙◌, true, bit_or, arith}
use raspberry3_mos.Base.Bits.{
  bit_and-one, bit_and-frame, bit_or-div, bit_or-mod, bit_or-zero, bit_or-odd, bit_or_step,
}
use raspberry3_mos.Pmap.{page2kva}
use raspberry3_mos.PageTable.{
  is_valid, pte_addr, kaddr, pa2page, level_index, slot, pte_user, valid,
}

-- The frame that an entry names.
abbrev pub frame : ℕ → ℕ
frame entry = entry / 4096 % 2 ^ 18

pub kaddr-pte_addr : (e : ℕ) → kaddr (pte_addr e) ≡ page2kva (frame e)
unfolding kaddr pte_addr page2kva
kaddr-pte_addr e = omega (arith, bit_and-frame e)

pub is_valid-odd : (e : ℕ) → e % 2 ≡ 1 → is_valid e ≡ true
is_valid-odd e h = ground (arith, bit_and-one e)

level_index-lt : (level va : ℕ) → level_index level va < 512
unfolding level_index
level_index-lt level va = ground arith

-- The address `a` lies in the frame `f`.
abbrev pub InFrame : ℕ → ℕ → Type 0
InFrame f a = (page2kva f ≤ a) × (a < page2kva f + 4096) × (a % 8 ≡ 0)

pub slot-InFrame : (f level va : ℕ) → InFrame f (slot (page2kva f) level va)
unfolding slot page2kva
slot-InFrame f level va = omega (arith, level_index-lt level va)

pub InFrame-ne : (f g a b : ℕ) → f ≢ g → InFrame f a → InFrame g b → a ≢ b
unfolding page2kva
InFrame-ne f g a b ne h k = omega arith

-- What `pages[i].pa` is made of: the frame and flags, among them VALID.
pub record IsDescriptor (pp pa : ℕ) : Type 0 where
  pub frame_bits : pa / 4096 % 2 ^ 20 ≡ pp
  pub valid_bit : pa % 2 ≡ 1
  pub small : pp < 2 ^ 18

module _ {pp pa : ℕ} (d : IsDescriptor pp pa) where
  pub frame-pa : frame pa ≡ pp
  frame-pa = omega arith

  pub frame-user : frame (bit_or pa pte_user) ≡ pp
  frame-user =
      let high : bit_or pa pte_user / 4096 ≡ pa / 4096 =
        bit_or-div 12 pa pte_user ∙ bit_or-zero (pa / 4096) in
      omega arith

  pub odd-user : bit_or pa pte_user % 2 ≡ 1
  odd-user = omega (arith, bit_or_step pa pte_user)

  -- The entry that maps the page: its frame, for flags outside the frame bits.
  pub pa2page-entry :
      (perm : ℕ) → perm / 4096 % 2 ^ 20 ≡ 0 → pa2page (bit_or pa (bit_or perm valid)) ≡ pp
  unfolding pa2page
  pa2page-entry perm h =
      let flags : bit_or perm valid / 4096 ≡ perm / 4096 =
        bit_or-div 12 perm valid ∙ bit_or-zero (perm / 4096) in
      let high : bit_or pa (bit_or perm valid) / 4096
          ≡ bit_or (pa / 4096) (bit_or perm valid / 4096) =
        bit_or-div 12 pa (bit_or perm valid) in
      omega
        (arith, high, bit_or-mod 20 (pa / 4096) (bit_or perm valid / 4096) (omega (arith, flags)))

  pub odd-entry : (perm : ℕ) → bit_or pa (bit_or perm valid) % 2 ≡ 1
  odd-entry perm = bit_or-odd pa (bit_or perm valid) (bit_or-odd perm valid refl)
