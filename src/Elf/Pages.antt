-- ===== src/Elf/Pages.antt =====
-- The pages of a segment (kernel/env.c `load_icode_mapper`) and `bcopy` (kernel/main.c), over the words
-- of kernel memory.
use raspberry3_mos.Base.{ℕ, zero, suc, ◌+◌, ◌-◌, ◌*◌, ◌/◌, ◌%◌, ◌^◌, ltb, if◌then◌else◌, none, some}
use raspberry3_mos.Pmap.{Kmem, update, page2kva, page_alloc, bzero}
use raspberry3_mos.PageTable.{pte_user, page_lookup, page_insert}
use raspberry3_mos.Elf.{Segment, Loading, done, failed, ◌>>=◌}

-- The byte at an address
abbrev pub byte_at : (ℕ → ℕ) → ℕ → ℕ
byte_at cell a = cell (a - a % 8) / 2 ^ (8 * (a % 8)) % 256

-- `*(char *)a = v`: one byte of the word that holds it
unfoldable pub put_byte : ℕ → ℕ → (ℕ → ℕ) → ℕ → ℕ
put_byte a v cell =
    let word = a - a % 8 in
    let lane = 2 ^ (8 * (a % 8)) in
    update cell word (cell word / (lane * 256) * (lane * 256) + v * lane + cell word % lane)

-- `*(int *)dst = *(int *)src`, which reads its four bytes before it writes them
unfoldable pub put_int : ℕ → ℕ → (ℕ → ℕ) → ℕ → ℕ
put_int src dst cell = put_byte (dst + 3) (byte_at cell (src + 3)) (
    put_byte (dst + 2) (byte_at cell (src + 2))
      (put_byte (dst + 1) (byte_at cell (src + 1)) (put_byte dst (byte_at cell src) cell)))

-- The loops of `bcopy`; each round moves `dst` on, so `len` rounds do.
unfoldable pub copy_ints : ℕ → ℕ → ℕ → ℕ → (ℕ → ℕ) → ℕ × ℕ × (ℕ → ℕ)
copy_ints zero src dst max cell = (src, dst, cell)
copy_ints (suc fuel) src dst max cell =
    let rest = copy_ints fuel (src + 4) (dst + 4) max (put_int src dst cell) in
    if ltb (dst + 3) max then rest else (src, dst, cell)

unfoldable pub copy_bytes : ℕ → ℕ → ℕ → ℕ → (ℕ → ℕ) → ℕ → ℕ
copy_bytes zero src dst max cell = cell
copy_bytes (suc fuel) src dst max cell =
    let rest = copy_bytes fuel (src + 1) (dst + 1) max (put_byte dst (byte_at cell src) cell) in
    if ltb dst max then rest else cell

unfoldable pub bcopy : ℕ → ℕ → ℕ → (ℕ → ℕ) → ℕ → ℕ
bcopy src dst len cell =
    let max = dst + len in
    let (s, d, c) = copy_ints len src dst max cell in copy_bytes len s d max c

-- What goes to a page: bytes of the image, from its byte `i` on, or zeros
pub data Fill : Type 0 where
  copies : ℕ → Fill
  zeros : Fill

unfoldable pub fill_page : Fill → ℕ → ℕ → ℕ → Kmem → Kmem
fill_page (copies bin) i a len s = record s { cell = bcopy (bin + i) a len s.cell }
fill_page zeros i a len s = record s { cell = bzero a len s.cell }

abbrev pub sum64 : ℕ → ℕ → ℕ
sum64 va i = (va + i) % 2 ^ 64

abbrev pub page_offset : ℕ → ℕ
page_offset a = a % 4096

abbrev pub min : ℕ → ℕ → ℕ
min a b = if ltb a b then a else b

abbrev pub rounds : ℕ
rounds = 2 ^ 20

module _ (pgdir : ℕ) where
  -- `page_alloc` and `page_insert`, whose result is dropped
  unfoldable pub new_page : ℕ → Kmem → Loading Kmem ℕ
  new_page va s = elim (page_alloc s) [
    | none ↦ failed 1 s
    | some (p, t) ↦ done p (page_insert pgdir p va pte_user t).1
  ]

  -- The page that is mapped there, or a new one
  unfoldable pub own_page : ℕ → Kmem → Loading Kmem ℕ
  own_page va s = elim (page_lookup pgdir va s) [ none ↦ new_page va s | some (p, pte) ↦ done p s ]

  -- The two parts that may share a page with another segment, or with the part before
  unfoldable pub fill_shared : Fill → ℕ → ℕ → ℕ → Kmem → Loading Kmem (Unit {0})
  fill_shared fill va i len = do
    p ← own_page (sum64 va i)
    λ s. done tt (fill_page fill i (page2kva p + page_offset (sum64 va i)) len s)

  unfoldable pub fill_new : Fill → ℕ → ℕ → ℕ → Kmem → Loading Kmem (Unit {0})
  fill_new fill va i len = do
    p ← new_page (sum64 va i)
    λ s. done tt (fill_page fill i (page2kva p) len s)

  -- The first part: its length `r`, which is 0 where the segment begins on a page
  unfoldable pub fill_first : ℕ → ℕ → ℕ → Kmem → Loading Kmem ℕ
  fill_first va bin bin_size =
      let offset = page_offset (sum64 va 0) in
      let r = min bin_size (4096 - offset) in
      if ltb 0 offset then (do x ← fill_shared (copies bin) va 0 r; done r) else done 0

  -- `for (i = ...; i < end; i += r)`: `i` and `r` behind the loop. Each round moves `i` on by a page, or
  -- is the last.
  unfoldable pub fill_rest : ℕ → Fill → ℕ → ℕ → ℕ → ℕ → Kmem → Loading Kmem (ℕ × ℕ)
  fill_rest zero fill va end i r s = done (i, r) s
  fill_rest (suc n) fill va end i r s =
      let len = min 4096 (end - i) in
      let next = (do x ← fill_new fill va i len; fill_rest n fill va end (i + len) len) s in
      if ltb i end then next else done (i, r) s

  -- The part between the end of the image's bytes and the next page; its length, or the `r` that the
  -- loop before has left
  unfoldable pub fill_edge : ℕ → ℕ → ℕ → ℕ → Kmem → Loading Kmem ℕ
  fill_edge va sgsize i r =
      let offset = page_offset (sum64 va i) in
      let len = min ((sgsize + 2 ^ 64 - i) % 2 ^ 64) (4096 - offset) in
      if ltb 0 offset then (do x ← fill_shared zeros va i len; done len) else done r

  unfoldable pub load_icode_mapper : Segment → Kmem → Loading Kmem (Unit {0})
  load_icode_mapper g = do
    r ← fill_first g.va g.bin g.bin_size
    (i, r') ← fill_rest rounds (copies g.bin) g.va g.bin_size r r
    r'' ← fill_edge g.va g.sgsize i r'
    x ← fill_rest rounds zeros g.va g.sgsize (i + r'') r''
    done tt
