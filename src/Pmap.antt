-- ===== src/Pmap.antt =====
-- Physical pages (mm/pmap.c): the allocation bitmap `Kern_vis`, the page descriptors `Kern_pages`,
-- and the 64-bit words of kernel memory that hold pages and page tables.
pub mod Zero
pub mod Search
pub mod Alloc
pub mod Free
mod Tests
use raspberry3_mos.Base.{
  ◌≡◌, ◌≢◌, refl, true, false, arith, ℕ, zero, suc, ◌+◌, ◌-◌, ◌*◌, ◌/◌, ◌%◌, ◌^◌, bit_and, bit_or,
  Bool, true, false, ◌&&◌, Option, none, some, ltb, leb, ◌==◌, not, if◌then◌else◌,
}

-- `struct Page`
pub record Page : Type 0 where
  pub pa : ℕ
  pub ref : ℕ

-- `vis` is `Kern_vis[i]`, `pages` is `Kern_pages[i]`, and `cell a` the u64 at kernel address `a`,
-- a multiple of 8.
pub record Kmem : Type 0 where
  pub vis : ℕ → ℕ
  pub pages : ℕ → Page
  pub cell : ℕ → ℕ

module _ {ℓ} {A : Type ℓ} where
  -- `f[i] = v`
  abbrev pub update : (ℕ → A) → ℕ → A → ℕ → A
  update f i v j = if j == i then v else f j

  pub update-same : (f : ℕ → A) (i j : ℕ) (v : A) → j ≡ i → update f i v j ≡ v
  update-same f i j v h = let q : (j == i) ≡ true = ground arith in rw q refl

  pub update-other : (f : ℕ → A) (i j : ℕ) (v : A) → j ≢ i → update f i v j ≡ f j
  update-other f i j v h = let q : (j == i) ≡ false = ground arith in rw q refl

abbrev pub kernbase : ℕ
kernbase = 0xffffff8000000000

abbrev pub by2pg : ℕ
by2pg = 4096

-- `page2kva`; a `struct Page *` is the index of its descriptor in `Kern_pages`.
unfoldable pub page2kva : ℕ → ℕ
page2kva pp = kernbase + pp * 2 ^ 12

-- `*(char *)b++ = 0`: one byte of the word that holds it.
unfoldable pub clear_char : ℕ → (ℕ → ℕ) → ℕ → ℕ
clear_char b cell =
    let word = b - b % 8 in
    let lane = 2 ^ (8 * (b % 8)) in
    update cell word (cell word / (lane * 256) * (lane * 256) + cell word % lane)

-- `*(int *)b = 0`: one half of the word that holds it, or four bytes where `b` is no multiple of 4
unfoldable pub clear_int : ℕ → (ℕ → ℕ) → ℕ → ℕ
clear_int b cell =
    let word = b - b % 8 in
    if b % 8 == 0
    then update cell word (cell word / 2 ^ 32 * 2 ^ 32)
    else if b % 8 == 4
    then update cell word (cell word % 2 ^ 32)
    else clear_char (b + 3) (clear_char (b + 2) (clear_char (b + 1) (clear_char b cell)))

-- `while (b + 3 < max)`, then `while (b < max)`; each round moves `b` on, so `max - b` rounds do.
unfoldable pub zero_ints : ℕ → ℕ → ℕ → (ℕ → ℕ) → ℕ × (ℕ → ℕ)
unfolding clear_int
zero_ints zero b max cell = (b, cell)
zero_ints (suc fuel) b max cell =
    let rest = zero_ints fuel (b + 4) max (clear_int b cell) in
    if ltb (b + 3) max then rest else (b, cell)

unfoldable pub zero_chars : ℕ → ℕ → ℕ → (ℕ → ℕ) → ℕ → ℕ
unfolding clear_char
zero_chars zero b max cell = cell
zero_chars (suc fuel) b max cell =
    let rest = zero_chars fuel (b + 1) max (clear_char b cell) in if ltb b max then rest else cell

unfoldable pub bzero : ℕ → ℕ → (ℕ → ℕ) → ℕ → ℕ
unfolding zero_ints zero_chars
bzero b len cell =
    let max = b + len in let (b', cell') = zero_ints len b max cell in zero_chars len b' max cell'

-- `1 << j` is an `int`: bit 31 is its sign, and it is widened to 64 bits with that sign. From
-- j = 32 on C leaves it open; the AArch64 shift takes `j` modulo 32.
unfoldable pub int_bit : ℕ → ℕ
int_bit j = let k = j % 32 in if k == 31 then 2 ^ 64 - 2 ^ 31 else 2 ^ k

abbrev pub all_ones : ℕ
all_ones = 2 ^ 64 - 1

-- The inner loop of `page_alloc`, with `n` rounds left: the first `j` whose mask is clear.
unfoldable pub find_bit : ℕ → ℕ → ℕ → Option ℕ
unfolding int_bit
find_bit word zero j = none
find_bit word (suc n) j =
    let rest = find_bit word n (j + 1) in if bit_and word (int_bit j) == 0 then some j else rest

unfoldable pub free_bit : ℕ → Option ℕ
free_bit word = find_bit word 64 0

-- What `page_alloc` does with the page that it has found.
unfoldable pub take_page : Kmem → ℕ → ℕ → ℕ × Kmem
take_page s i j =
    let pp = i * 64 + j in
    (
      pp,
      record s {
        vis = update s.vis i (bit_or (s.vis i) (int_bit j));
        cell = bzero (page2kva pp) by2pg s.cell;
      },
    )

-- The outer loop, with `n` rounds left. `none` is the return value -1.
unfoldable pub alloc_from : ℕ → ℕ → Kmem → Option (ℕ × Kmem)
alloc_from zero i s = none
alloc_from (suc n) i s =
    let rest = alloc_from n (i + 1) s in
    if s.vis i == all_ones
    then rest
    else elim (free_bit (s.vis i)) [ none ↦ rest | some j ↦ some (take_page s i j) ]

unfoldable pub page_alloc : Kmem → Option (ℕ × Kmem)
page_alloc s = alloc_from (2 ^ 12) 0 s

-- `Kern_vis[idx >> 6] &= ~(1ul << (idx & 63))` when nobody refers to the page. `ref` is unsigned,
-- so the panic at the end is out of reach.
unfoldable pub page_free : ℕ → Kmem → Kmem
page_free pp s = if ltb 0 (s.pages pp).ref then s else record s {
  vis = update s.vis (pp / 64) (bit_and (s.vis (pp / 64)) (all_ones - 2 ^ (pp % 64)));
}

-- `pp->ref--` on a u32
unfoldable pub drop_ref : ℕ → Kmem → Kmem
drop_ref pp s = record s {
  pages =
      update s.pages pp
        (record { pa = (s.pages pp).pa; ref = ((s.pages pp).ref + 2 ^ 32 - 1) % 2 ^ 32 });
}

-- `pp->ref++`
unfoldable pub add_ref : ℕ → Kmem → Kmem
add_ref pp s = record s {
  pages =
      update s.pages pp (record { pa = (s.pages pp).pa; ref = ((s.pages pp).ref + 1) % 2 ^ 32 });
}

unfoldable pub page_decref : ℕ → Kmem → Kmem
unfolding drop_ref page_free
page_decref pp s = page_free pp (drop_ref pp s)
