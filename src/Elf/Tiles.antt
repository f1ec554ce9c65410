-- ===== src/Elf/Tiles.antt =====
-- `load_icode_mapper` (kernel/env.c) against a loop that goes from page to page.
use raspberry3_mos.Base.{
  ℕ, zero, suc, ◌+◌, ◌-◌, ◌*◌, ◌%◌, ◌^◌, ◌≤◌, ◌<◌, ◌≡◌, ◌≢◌, refl, sym, ◌∙◌, ap, ◌⊎◌, inl, inr,
  true, false, ltb, ◌==◌, if◌then◌else◌, Bool-cases, arith,
}
use raspberry3_mos.Pmap.{Kmem}
use raspberry3_mos.Elf.{Segment, Loading, done, failed, ◌>>=◌}
use raspberry3_mos.Elf.Run.{after, >>=-cong, >>=-assoc}
use raspberry3_mos.Elf.Pages.{
  Fill, copies, zeros, page_offset, min, fill_shared, fill_new, fill_first, fill_rest, fill_edge,
  rounds, load_icode_mapper,
}
use raspberry3_mos.Elf.Parts.{part, part-new, part-shared, FillsBytes, fill_page-bytes}

module _ (pgdir : ℕ) where
  -- The bytes from `i` on and below `end`, each part up to the end of its page
  unfoldable pub tile : ℕ → Fill → ℕ → ℕ → ℕ → Kmem → Loading Kmem (Unit {0})
  tile zero fill va i end s = done tt s
  tile (suc n) fill va i end s =
      let offset = page_offset (va + i) in
      let len = min (end - i) (4096 - offset) in
      let next = (do x ← part pgdir fill va i len; tile n fill va (i + len) end) s in
      if ltb i end then next else done tt s

  -- The length of the last round of `fill_rest`, or what it was before
  abbrev last_len : ℕ → ℕ → ℕ → ℕ
  last_len i r end =
      if ltb i end then (if (end - i) % 4096 == 0 then 4096 else (end - i) % 4096) else r

  abbrev farther : ℕ → ℕ → ℕ
  farther i end = if ltb i end then end else i

  tile-stop :
      (n : ℕ) (fill : Fill) (va i end : ℕ) (s : Kmem)
      → ltb i end ≡ false
      → tile n fill va i end s ≡ done tt s
  unfolding tile
  tile-stop zero fill va i end s stop = refl
  tile-stop (suc n) fill va i end s stop = rw stop refl

  fill_rest-stop :
      (n : ℕ) (fill : Fill) (va i r end : ℕ) (s : Kmem)
      → ltb i end ≡ false
      → fill_rest pgdir n fill va end i r s ≡ done (i, r) s
  unfolding fill_rest
  fill_rest-stop zero fill va i r end s stop = refl
  fill_rest-stop (suc n) fill va i r end s stop = rw stop refl

  -- A round on a page, and one that begins within it
  tile-new :
      (n : ℕ) (fill : Fill) (va i end : ℕ) (s : Kmem)
      → ltb i end ≡ true
      → (va + i) % 4096 ≡ 0
      → tile (suc n) fill va i end s
        ≡ (fill_new pgdir fill va i (min (end - i) 4096) >>= λ x.
              tile n fill va (i + min (end - i) 4096) end)
            s
  unfolding tile
  tile-new n fill va i end s more page =
      let whole : 4096 - page_offset (va + i) ≡ 4096 = omega arith in
      let len = min (end - i) 4096 in
      rw more (
        rw whole
          (ap (after (λ x. tile n fill va (i + len) end)) (part-new pgdir fill va i len s page)))

  tile-shared :
      (n : ℕ) (fill : Fill) (va i end : ℕ) (s : Kmem)
      → ltb i end ≡ true
      → (va + i) % 4096 ≢ 0
      → tile (suc n) fill va i end s
        ≡ (fill_shared pgdir fill va i (min (end - i) (4096 - page_offset (va + i))) >>= λ x.
              tile n fill va (i + min (end - i) (4096 - page_offset (va + i))) end)
            s
  unfolding tile
  tile-shared n fill va i end s more page =
      let len = min (end - i) (4096 - page_offset (va + i)) in
      rw more
        (ap (after (λ x. tile n fill va (i + len) end)) (part-shared pgdir fill va i len s page))

  fill_rest-more :
      (n : ℕ) (fill : Fill) (va i r end : ℕ) (s : Kmem)
      → ltb i end ≡ true
      → fill_rest pgdir (suc n) fill va end i r s
        ≡ (fill_new pgdir fill va i (min (end - i) 4096) >>= λ x.
              fill_rest pgdir n fill va end (i + min (end - i) 4096) (min (end - i) 4096))
            s
  unfolding fill_rest
  fill_rest-more n fill va i r end s more =
      let order : min 4096 (end - i) ≡ min (end - i) 4096 = ground arith in rw more (rw order refl)

  module _ {A : Type 0} (k : ℕ × ℕ → Kmem → Loading Kmem A) where
    -- From the beginning of a page on the loop of the code is that of `tile`.
    fill_rest-tile :
        (n : ℕ) (fill : Fill) (va i r end : ℕ) (s : Kmem)
        → ((va + i) % 4096 ≡ 0) ⊎ (end ≤ i)
        → end ≤ i + 4096 * n
        → (fill_rest pgdir n fill va end i r >>= k) s
          ≡ (tile n fill va i end >>= λ x. k (farther i end, last_len i r end)) s
    fill_rest-tile zero fill va i r end s page enough =
        let stop : ltb i end ≡ false = ground arith in
        ap (after k) (fill_rest-stop 0 fill va i r end s stop)
        ∙ rw stop (sym (ap (after (λ x. k (i, r))) (tile-stop 0 fill va i end s stop)))
    fill_rest-tile (suc n) fill va i r end s page enough = elim (Bool-cases (ltb i end)) [
      | inr stop ↦
          ap (after k) (fill_rest-stop (suc n) fill va i r end s stop)
          ∙ rw stop (sym (ap (after (λ x. k (i, r))) (tile-stop (suc n) fill va i end s stop)))
      | inl more ↦
          let start : (va + i) % 4096 ≡ 0 = ground arith in
          let len = min (end - i) 4096 in
          let next : ((va + (i + len)) % 4096 ≡ 0) ⊎ (end ≤ i + len) = ground arith in
          let far : farther (i + len) end ≡ end = ground arith in
          let last : last_len (i + len) len end
              ≡ (if (end - i) % 4096 == 0 then 4096 else (end - i) % 4096) =
            ground arith in
          let m = fill_new pgdir fill va i len s in
          let lst = if (end - i) % 4096 == 0 then 4096 else (end - i) % 4096 in
          let ends : ◌≡◌ {A = ℕ × ℕ} (farther i end, last_len i r end) (end, lst) = rw more refl in
          let later : ◌≡◌ {A = ℕ × ℕ} (farther (i + len) end, last_len (i + len) len end)
              (end, lst) =
            λ j. (far j, last j) in
          ap (after k) (fill_rest-more n fill va i r end s more)
          ∙ >>=-assoc m (λ x. fill_rest pgdir n fill va end (i + len) len) k
          ∙ >>=-cong m (λ x. fill_rest pgdir n fill va end (i + len) len >>= k)
              (λ x. tile n fill va (i + len) end >>= λ y.
                k (farther (i + len) end, last_len (i + len) len end))
              (λ x t. fill_rest-tile n fill va (i + len) len end t next (ground arith))
          ∙ ap (λ (q : ℕ × ℕ). after (λ x. tile n fill va (i + len) end >>= λ y. k q) m) later
          ∙ sym (>>=-assoc m (λ x. tile n fill va (i + len) end) (λ y. k (end, lst)))
          ∙ ap (after (λ y. k (end, lst))) (sym (tile-new n fill va i end s more start))
          ∙ ap (λ (q : ℕ × ℕ). after (λ x. k q) (tile (suc n) fill va i end s)) (sym ends)
    ]

  fill_rest-tile_only :
      (n : ℕ) (fill : Fill) (va i r end : ℕ) (s : Kmem)
      → ((va + i) % 4096 ≡ 0) ⊎ (end ≤ i)
      → end ≤ i + 4096 * n
      → (fill_rest pgdir n fill va end i r >>= λ q. done tt) s ≡ tile n fill va i end s
  fill_rest-tile_only n fill va i r end s page enough =
      fill_rest-tile (λ q. done tt) n fill va i r end s page enough
      ∙ done-tt (tile n fill va i end s)
    where
      done-tt : (r : Loading Kmem (Unit {0})) → after (λ x. done tt) r ≡ r
      done-tt (done x t) = refl
      done-tt (failed e t) = refl

  -- One round more than is enough
  tile-enough :
      (n : ℕ) (fill : Fill) (va i end : ℕ) (s : Kmem)
      → ((va + i) % 4096 ≡ 0) ⊎ (end ≤ i)
      → end ≤ i + 4096 * n
      → tile (suc n) fill va i end s ≡ tile n fill va i end s
  tile-enough zero fill va i end s page enough =
      let stop : ltb i end ≡ false = ground arith in
      tile-stop 1 fill va i end s stop ∙ sym (tile-stop 0 fill va i end s stop)
  tile-enough (suc n) fill va i end s page enough = elim (Bool-cases (ltb i end)) [
    | inr stop ↦
        tile-stop (suc (suc n)) fill va i end s stop ∙ sym (tile-stop (suc n) fill va i end s stop)
    | inl more ↦
        let start : (va + i) % 4096 ≡ 0 = ground arith in
        let len = min (end - i) 4096 in
        let next : ((va + (i + len)) % 4096 ≡ 0) ⊎ (end ≤ i + len) = ground arith in
        let m = fill_new pgdir fill va i len s in
        tile-new (suc n) fill va i end s more start
        ∙ >>=-cong m (λ x. tile (suc n) fill va (i + len) end) (λ x. tile n fill va (i + len) end)
            (λ x t. tile-enough n fill va (i + len) end t next (ground arith))
        ∙ sym (tile-new n fill va i end s more start)
  ]

  -- The length of the first part, and `r` behind the copies
  abbrev first_len : ℕ → ℕ → ℕ
  first_len va bin_size = if page_offset va == 0 then 0 else min bin_size (4096 - page_offset va)

  abbrev copied_len : ℕ → ℕ → ℕ
  copied_len va bin_size = last_len (first_len va bin_size) (first_len va bin_size) bin_size

  fill_first-within :
      (va bin bin_size : ℕ) (s : Kmem)
      → va < 2 ^ 64
      → (page_offset va == 0) ≡ false
      → fill_first pgdir va bin bin_size s
        ≡ (fill_shared pgdir (copies bin) va 0 (min bin_size (4096 - page_offset va)) >>= λ x.
              done (min bin_size (4096 - page_offset va)))
            s
  unfolding fill_first
  fill_first-within va bin bin_size s low within_page =
      let start : (va + 0) % 2 ^ 64 ≡ va = omega arith in
      let first : ltb 0 (page_offset va) ≡ true = ground arith in rw start (rw first refl)

  tile-within :
      (n va end : ℕ) (fill : Fill) (s : Kmem)
      → (page_offset va == 0) ≡ false
      → 0 < end
      → tile (suc n) fill va 0 end s
        ≡ (fill_shared pgdir fill va 0 (min end (4096 - page_offset va)) >>= λ x.
              tile n fill va (min end (4096 - page_offset va)) end)
            s
  tile-within n va end fill s within_page some_bytes =
      let r = min end (4096 - page_offset va) in
      let more : ltb 0 end ≡ true = ground arith in
      let len : min (end - 0) (4096 - page_offset (va + 0)) ≡ r = ground arith in
      let next : 0 + r ≡ r = omega arith in
      tile-shared n fill va 0 end s more (ground arith)
      ∙ ap (λ (l : ℕ). (fill_shared pgdir fill va 0 l >>= λ x. tile n fill va (0 + l) end) s) len
      ∙ ap (λ (j : ℕ). (fill_shared pgdir fill va 0 r >>= λ x. tile n fill va j end) s) next

  -- The copies: `fill_first` and the loop behind it
  fill_first-tile :
      {A : Type 0} (k : ℕ × ℕ → Kmem → Loading Kmem A) (n va bin bin_size : ℕ) (s : Kmem)
      → va + bin_size + 4096 < 2 ^ 64
      → bin_size ≤ 4096 * n
      → (va % 4096 ≡ 0) ⊎ (0 < bin_size)
      → (fill_first pgdir va bin bin_size >>= λ r.
            (fill_rest pgdir n (copies bin) va bin_size r r >>= k))
          s
        ≡ (tile (suc n) (copies bin) va 0 bin_size >>= λ x. k (bin_size, copied_len va bin_size)) s
  unfolding fill_first
  fill_first-tile k n va bin bin_size s low small some_bytes =
      let start : (va + 0) % 2 ^ 64 ≡ va = omega arith in
      let plain : va + 0 ≡ va = omega arith in
      let fill = copies bin in
      elim (Bool-cases (page_offset va == 0)) [
        | inl page ↦
            let aligned : ((va + 0) % 4096 ≡ 0) ⊎ (bin_size ≤ 0) = inl (ground arith) in
            let far : farther 0 bin_size ≡ bin_size = ground arith in
            let none_first : ltb 0 (page_offset va) ≡ false = ground arith in
            rw start (
              rw none_first (
                rw page (
                  fill_rest-tile k n fill va 0 0 bin_size s aligned (omega arith)
                  ∙ rw far (
                      ap (after (λ x. k (bin_size, last_len 0 0 bin_size)))
                        (sym (tile-enough n fill va 0 bin_size s aligned (omega arith)))))))
        | inr within_page ↦
            let r = min bin_size (4096 - page_offset va) in
            let some_left : 0 < bin_size = ground arith in
            let first : first_len va bin_size ≡ r = rw within_page refl in
            let next : ((va + r) % 4096 ≡ 0) ⊎ (bin_size ≤ r) = ground arith in
            let far : farther r bin_size ≡ bin_size = ground arith in
            let m = fill_shared pgdir fill va 0 r s in
            let rest = λ (l : ℕ). fill_rest pgdir n fill va bin_size l l >>= k in
            let last : copied_len va bin_size ≡ last_len r r bin_size =
              ap (λ (l : ℕ). last_len l l bin_size) first in
            ap (after rest) (fill_first-within va bin bin_size s (omega arith) within_page)
            ∙ >>=-assoc m (λ x. done r) rest
            ∙ >>=-cong m (λ x. rest r)
                (λ x.
                  tile n fill va r bin_size >>= λ y. k (farther r bin_size, last_len r r bin_size))
                (λ x t. fill_rest-tile k n fill va r r bin_size t next (ground arith))
            ∙ ap
                (λ (f : ℕ).
                  after (λ x. tile n fill va r bin_size >>= λ y. k (f, last_len r r bin_size)) m)
                far
            ∙ sym (
                >>=-assoc m (λ x. tile n fill va r bin_size)
                  (λ y. k (bin_size, last_len r r bin_size)))
            ∙ ap (after (λ y. k (bin_size, last_len r r bin_size)))
                (sym (tile-within n va bin_size fill s within_page some_left))
            ∙ ap (λ (l : ℕ). after (λ y. k (bin_size, l)) (tile (suc n) fill va 0 bin_size s))
                (sym last)
      ]

  -- The byte at which the zeros begin
  abbrev pub zeros_from : ℕ → ℕ → ℕ
  zeros_from va bin_size =
      if (va + bin_size) % 4096 == 0 then bin_size + min bin_size 4096 else bin_size

  -- The segments that the two loops handle: the image's bytes end on a page, and are none or a page
  -- at least, or they end within one and zeros follow.
  abbrev pub Regular : ℕ → ℕ → ℕ → Type 0
  Regular va bin_size sgsize =
      (((va + bin_size) % 4096 ≡ 0) × ((bin_size ≡ 0) ⊎ (4096 ≤ bin_size)))
      ⊎ (((va + bin_size) % 4096 ≢ 0) × (bin_size < sgsize))

  fill_edge-within :
      (va sgsize i r : ℕ) (s : Kmem)
      → va + i < 2 ^ 64
      → i ≤ sgsize
      → sgsize < 2 ^ 32
      → (va + i) % 4096 ≢ 0
      → fill_edge pgdir va sgsize i r s
        ≡ (fill_shared pgdir zeros va i (min (sgsize - i) (4096 - page_offset (va + i))) >>= λ x.
              done (min (sgsize - i) (4096 - page_offset (va + i))))
            s
  unfolding fill_edge
  fill_edge-within va sgsize i r s low fits small within_page =
      let start : (va + i) % 2 ^ 64 ≡ va + i = omega arith in
      let left : (sgsize + 2 ^ 64 - i) % 2 ^ 64 ≡ sgsize - i = omega arith in
      let edge : ltb 0 (page_offset (va + i)) ≡ true = ground arith in
      rw (start, left) (rw edge refl)

  fill_edge-none :
      (va sgsize i r : ℕ) (s : Kmem)
      → va + i < 2 ^ 64
      → (va + i) % 4096 ≡ 0
      → fill_edge pgdir va sgsize i r s ≡ done r s
  unfolding fill_edge
  fill_edge-none va sgsize i r s low page =
      let start : (va + i) % 2 ^ 64 ≡ va + i = omega arith in
      let none_left : ltb 0 (page_offset (va + i)) ≡ false = ground arith in
      rw start (rw none_left refl)

  -- The zeros: `fill_edge` and the loop behind it
  fill_edge-tile :
      (n va bin_size sgsize r : ℕ) (s : Kmem)
      → va + sgsize + 8192 < 2 ^ 64
      → sgsize < 2 ^ 32
      → sgsize ≤ 4096 * n
      → bin_size ≤ sgsize
      → Regular va bin_size sgsize
      → (((va + bin_size) % 4096 ≡ 0) → r ≡ min bin_size 4096)
      → (fill_edge pgdir va sgsize bin_size r >>= λ l.
            (fill_rest pgdir n zeros va sgsize (bin_size + l) l >>= λ q. done tt))
          s
        ≡ tile (suc n) zeros va (zeros_from va bin_size) sgsize s
  fill_edge-tile n va bin_size sgsize r s low small enough fits regular last =
      let rest = λ (l : ℕ). fill_rest pgdir n zeros va sgsize (bin_size + l) l >>= λ q. done tt in
      elim regular [
        | inl (page, size) ↦
            let z = bin_size + r in
            let r_is : r ≡ min bin_size 4096 = last page in
            let next : ((va + z) % 4096 ≡ 0) ⊎ (sgsize ≤ z) = inl (ground arith) in
            let from : z ≡ zeros_from va bin_size = ground arith in
            ap (after rest) (fill_edge-none va sgsize bin_size r s (omega arith) page)
            ∙ fill_rest-tile_only n zeros va z r sgsize s next (omega arith)
            ∙ sym (tile-enough n zeros va z sgsize s next (omega arith))
            ∙ ap (λ (i : ℕ). tile (suc n) zeros va i sgsize s) from
        | inr (within_page, more) ↦
            let l = min (sgsize - bin_size) (4096 - page_offset (va + bin_size)) in
            let left : ltb bin_size sgsize ≡ true = ground arith in
            let next : ((va + (bin_size + l)) % 4096 ≡ 0) ⊎ (sgsize ≤ bin_size + l) =
              ground arith in
            let from : bin_size ≡ zeros_from va bin_size = ground arith in
            let m = fill_shared pgdir zeros va bin_size l s in
            ap (after rest)
              (fill_edge-within va sgsize bin_size r s (omega arith) fits small within_page)
            ∙ >>=-assoc m (λ x. done l) rest
            ∙ >>=-cong m (λ x. rest l) (λ x. tile n zeros va (bin_size + l) sgsize)
                (λ x t. fill_rest-tile_only n zeros va (bin_size + l) l sgsize t next (omega arith))
            ∙ sym (tile-shared n zeros va bin_size sgsize s left within_page)
            ∙ ap (λ (i : ℕ). tile (suc n) zeros va i sgsize s) from
      ]

  -- The two loops against those of `tile`
  mapper-tile :
      (g : Segment) (s : Kmem)
      → g.va + g.sgsize + 8192 < 2 ^ 64
      → g.sgsize < 2 ^ 32
      → g.bin_size ≤ g.sgsize
      → Regular g.va g.bin_size g.sgsize
      → (g.va % 4096 ≡ 0) ⊎ (0 < g.bin_size)
      → load_icode_mapper pgdir g s
        ≡ (tile (suc rounds) (copies g.bin) g.va 0 g.bin_size >>= λ x.
              tile (suc rounds) zeros g.va (zeros_from g.va g.bin_size) g.sgsize)
            s
  unfolding load_icode_mapper
  mapper-tile g s low small fits regular some_bytes =
      let va = g.va in
      let bin_size = g.bin_size in
      let sgsize = g.sgsize in
      let r = copied_len va bin_size in
      let last : ((va + bin_size) % 4096 ≡ 0) → r ≡ min bin_size 4096 = λ page. ground arith in
      let k = λ (q : ℕ × ℕ). fill_edge pgdir va sgsize q.0 q.1 >>= λ l.
      (fill_rest pgdir rounds zeros va sgsize (q.0 + l) l >>= λ x. done tt) in
      fill_first-tile k rounds va g.bin bin_size s (omega arith) (omega arith) some_bytes
      ∙ >>=-cong (tile (suc rounds) (copies g.bin) va 0 bin_size s) (λ x. k (bin_size, r))
          (λ x. tile (suc rounds) zeros va (zeros_from va bin_size) sgsize)
          (λ x t.
            fill_edge-tile rounds va bin_size sgsize r t low small (omega arith) fits regular last)

  -- `load_icode_mapper` does what two loops do that go through the segment page by page: the first copies
  -- the `bin_size` bytes of the image to `va`, the second clears from the byte `zeros_from` on up to
  -- `sgsize`. A part that begins on a page goes to a new page, any other part to the page that is mapped
  -- there, or to a new one if none is; where no page is left, both stop with the same failure. Each part
  -- leaves the bytes of the image, where these lie apart from it, or zeros, and changes no other byte. The
  -- zeros begin behind the bytes of the image where these end within a page. Where they end on one, the
  -- zeros begin a page later, so that a page is left out, or at once if there are no bytes.
  -- This holds where `bin_size` is at most `sgsize`, this below 2 ^ 32, the addresses do not wrap around,
  -- `va` is the beginning of a page or there are bytes, and the segment is `Regular`: its bytes end on a
  -- page and are none or at least 4096, or they end within a page and `bin_size` is less than `sgsize`. A
  -- segment with no zeros whose bytes end within a page is not regular.
  pub load_icode_mapper_lem :
      (g : Segment) (s : Kmem)
      → g.va + g.sgsize + 8192 < 2 ^ 64
      → g.sgsize < 2 ^ 32
      → g.bin_size ≤ g.sgsize
      → Regular g.va g.bin_size g.sgsize
      → (g.va % 4096 ≡ 0) ⊎ (0 < g.bin_size)
      → (load_icode_mapper pgdir g s
          ≡ (tile (suc rounds) (copies g.bin) g.va 0 g.bin_size >>= λ x.
                tile (suc rounds) zeros g.va (zeros_from g.va g.bin_size) g.sgsize)
              s)
        × FillsBytes g.bin
  load_icode_mapper_lem g s low small fits regular some_bytes =
      (mapper-tile g s low small fits regular some_bytes, fill_page-bytes g.bin)
