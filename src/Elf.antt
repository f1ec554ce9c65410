-- ===== src/Elf.antt =====
-- Loading of programs by the kernel: kernel/kernel_elfloader.c `load_elf`, kernel/main.c `bcopy`, and
-- of kernel/env.c `load_icode_mapper`, `load_icode` and the functions that create an environment.
-- Pointers into an image do not wrap around.
pub mod Run
pub mod Headers
pub mod Pages
pub mod Bytes
pub mod Parts
pub mod Tiles
pub mod Create
mod Tests
use raspberry3_mos.Base.{ℕ, zero, suc, ◌+◌, ◌-◌, ◌*◌, ◌/◌, ◌%◌, ◌^◌, Bool, ltb, ◌==◌, if◌then◌else◌}

-- A field of `n` bytes, the lowest one first
unfoldable pub field : ℕ → (ℕ → ℕ) → ℕ → ℕ
field zero bytes a = 0
field (suc n) bytes a = bytes a + 256 * field n bytes (a + 1)

-- The fields of `Ehdr` that are used, for the address of the image
abbrev pub entry_of : (ℕ → ℕ) → ℕ → ℕ
entry_of bytes binary = field 8 bytes (binary + 24)

abbrev pub phoff_of : (ℕ → ℕ) → ℕ → ℕ
phoff_of bytes binary = field 8 bytes (binary + 32)

abbrev pub phentsize_of : (ℕ → ℕ) → ℕ → ℕ
phentsize_of bytes binary = field 2 bytes (binary + 54)

abbrev pub phnum_of : (ℕ → ℕ) → ℕ → ℕ
phnum_of bytes binary = field 2 bytes (binary + 56)

abbrev pub pt_load : ℕ
pt_load = 1

-- What the callback gets of a `Phdr`; the sizes become u32.
pub record Segment : Type 0 where
  pub va : ℕ
  pub sgsize : ℕ
  pub bin : ℕ
  pub bin_size : ℕ

unfoldable pub segment_at : (ℕ → ℕ) → ℕ → ℕ → Segment
segment_at bytes binary phdr = record {
  va = field 8 bytes (phdr + 16);
  sgsize = field 8 bytes (phdr + 40) % 2 ^ 32;
  bin = binary + field 8 bytes (phdr + 8);
  bin_size = field 8 bytes (phdr + 32) % 2 ^ 32;
}

-- How a function over the state `S` ends: with a result, or with the negative of an error.
pub data Loading (S A : Type 0) : Type 0 where
  done : A → S → Loading S A
  failed : ℕ → S → Loading S A

infixl 5 ◌>>=◌
abbrev pub ◌>>=◌ : {S A B : Type 0} → (S → Loading S A) → (A → S → Loading S B) → S → Loading S B
◌>>=◌ m f s = elim (m s) [ done a t ↦ f a t | failed r t ↦ failed r t ]

module _ {S : Type 0} (bytes : S → ℕ → ℕ) (map : Segment → S → Loading S (Unit {0})) where
  -- The loop over the program headers, `n` of them left
  unfoldable pub load_headers : ℕ → ℕ → ℕ → ℕ → S → Loading S (Unit {0})
  load_headers zero binary entry_size phdr s = done tt s
  load_headers (suc n) binary entry_size phdr s =
      let rest = load_headers n binary entry_size (phdr + entry_size) in
      if field 4 (bytes s) phdr == pt_load
      then (do x ← map (segment_at (bytes s) binary phdr); rest) s
      else rest s

  -- `load_elf`, which gives the entry point; `is_elf_format` accepts everything. `size` is an int.
  unfoldable pub load_elf : ℕ → ℕ → S → Loading S ℕ
  load_elf binary size s =
      let header = bytes s in
      let entries =
        (do
          x ←
              load_headers (phnum_of header binary) binary (phentsize_of header binary)
                (binary + phoff_of header binary)
          λ t. done (entry_of (bytes t) binary) t)
          s in
      if ltb size 4 then failed 1 s else if ltb size (2 ^ 31) then entries else failed 1 s
