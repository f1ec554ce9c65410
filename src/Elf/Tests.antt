-- ===== src/Elf/Tests.antt =====
-- An image with three program headers, two of them loadable, and a segment over three pages.
use raspberry3_mos.Base.{ℕ, suc, ◌*◌, ◌≡◌, refl, inr, ◌==◌, if◌then◌else◌, List, [], ◌∷◌, arith}
use raspberry3_mos.Pmap.{Kmem}
use raspberry3_mos.Elf.{
  field, Segment, segment_at, Loading, done, ◌>>=◌, entry_of, load_elf, load_headers,
}
use raspberry3_mos.Elf.Headers.{image_segments, map_all, load_elf_lem}
use raspberry3_mos.Elf.Pages.{copies, zeros, rounds, load_icode_mapper}
use raspberry3_mos.Elf.Parts.{FillsBytes}
use raspberry3_mos.Elf.Tiles.{tile, zeros_from, load_icode_mapper_lem}

-- The header with its entry 80, three program headers of 56 bytes from the byte 64 on, the second of
-- which is none to load
abbrev three_headers : ℕ → ℕ
three_headers a =
    if a == 24
    then 80
    else if a == 32
    then 64
    else if a == 54
    then 56
    else if a == 56
    then 3
    else if a == 64
    then 1
    else if a == 80
    then 7
    else if a == 120
    then 4
    else if a == 176
    then 1
    else if a == 192
    then 9
    else 0

abbrev image_of : List ℕ → ℕ → ℕ
image_of s = three_headers

-- The addresses of the segments, the last one first
abbrev collect : Segment → List ℕ → Loading (List ℕ) (Unit {0})
collect g s = done tt (g.va ∷ s)

collected : load_elf image_of collect 0 4096 [] ≡ done 80 (9 ∷ 7 ∷ [])
unfolding load_elf load_headers field segment_at
collected = refl

load_elf_lem_example :
    load_elf image_of collect 0 4096 []
    ≡ (map_all collect (image_segments three_headers 0) >>= λ x. done (entry_of three_headers 0)) []
load_elf_lem_example =
    load_elf_lem image_of collect 0 4096 [] (omega arith) (omega arith) (λ g s t same h. refl)

abbrev memory : Kmem
memory = record { vis = λ i. 0; pages = λ p. record { pa = p * 4096; ref = 0 }; cell = λ a. 0 }

abbrev three_pages : Segment
three_pages = record { va = 65792; sgsize = 12288; bin = 4194304; bin_size = 5000 }

load_icode_mapper_lem_example :
    (load_icode_mapper 0 three_pages memory
      ≡ (tile 0 (suc rounds) (copies 4194304) 65792 0 5000 >>= λ x.
            tile 0 (suc rounds) zeros 65792 (zeros_from 0 65792 5000) 12288)
          memory)
    × FillsBytes 4194304
load_icode_mapper_lem_example =
    load_icode_mapper_lem 0 three_pages memory (omega arith) (omega arith) (omega arith)
      (inr (omega arith, omega arith)) (inr (omega arith))
