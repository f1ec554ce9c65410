-- ===== src/Pmap/Tests.antt =====
-- The page allocator on concrete bitmaps.
use raspberry3_mos.Base.{
  ℕ, ◌+◌, ◌-◌, ◌*◌, ◌/◌, ◌%◌, ◌^◌, ◌≤◌, ◌<◌, ◌≡◌, ◌≢◌, refl, true, false, none, some, ◌==◌,
  if◌then◌else◌, arith,
}
use raspberry3_mos.Pmap.{
  Page, Kmem, all_ones, find_bit, free_bit, take_page, alloc_from, page_alloc, page_free,
}
use raspberry3_mos.Pmap.Alloc.{is_used, Fresh, page_alloc-Fresh, page_alloc-low_half}
use raspberry3_mos.Pmap.Free.{page_free-page_alloc, page_free-leak}

abbrev descriptor : ℕ → Page
descriptor i = record { pa = i * 4096 + 0x703; ref = 0 }

-- The first `n` pages are used.
abbrev first_used : ℕ → Kmem
first_used n = record {
  vis = λ i. if i == 0 then 2 ^ n - 1 else 0;
  pages = descriptor;
  cell = λ a. 7;
}

abbrev full : Kmem
full = record { vis = λ i. all_ones; pages = descriptor; cell = λ a. 7 }

abbrev shared : Kmem
shared = record { vis = λ i. all_ones; pages = λ i. record { pa = 0; ref = 1 }; cell = λ a. 7 }

abbrev after : ℕ → Kmem
after n = (take_page (first_used n) 0 n).1

alloc_five : page_alloc (first_used 5) ≡ some (5, after 5)
unfolding page_alloc alloc_from free_bit find_bit take_page
alloc_five = refl

alloc_last : page_alloc (first_used 31) ≡ some (31, after 31)
unfolding page_alloc alloc_from free_bit find_bit take_page
alloc_last = refl

-- The page after it in the same word is skipped: the next one is 64.
alloc_skips : page_alloc (first_used 32) ≡ some (64, (take_page (first_used 32) 1 0).1)
unfolding page_alloc alloc_from free_bit find_bit take_page
alloc_skips = refl

alloc_fails : page_alloc full ≡ none
unfolding page_alloc alloc_from
alloc_fails = refl

page_alloc-Fresh_example : Fresh (first_used 5) (5, after 5)
page_alloc-Fresh_example = page_alloc-Fresh (first_used 5) alloc_five

page_alloc-low_half_example : ◌<◌ (31 % 64) 32
page_alloc-low_half_example = page_alloc-low_half (first_used 31) alloc_last

page_free-page_alloc_example : is_used (page_free 5 (after 5)) 6 ≡ is_used (first_used 5) 6
page_free-page_alloc_example = page_free-page_alloc (first_used 5) alloc_five refl (omega arith) 6

page_free-leak_example :
    (is_used (page_free 31 (after 31)) 31 ≡ false)
    × ((q : ℕ) → q ≢ 31 → is_used (page_free 31 (after 31)) q ≡ is_used (after 31) q)
    × ((q : ℕ) → q / 64 ≡ 0 → 32 ≤ q % 64 → is_used (page_free 31 (after 31)) q ≡ true)
page_free-leak_example = page_free-leak (first_used 31) alloc_last refl refl
