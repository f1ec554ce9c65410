-- ===== src/Fd/Tests.antt =====
-- A process with one descriptor, number 0, on the page 3, of a device that reads nothing.
use raspberry3_mos.Base.{
  ℕ, zero, suc, ◌+◌, ◌/◌, ◌≤◌, ◌≡◌, refl, ◌∙◌, true, ◌==◌, if◌then◌else◌, none, some, [], ◌∷◌,
  arith,
}
use raspberry3_mos.Pmap.{update}
use raspberry3_mos.Serve.{as_u64}
use raspberry3_mos.Fd.{
  Proc, returns, Dev, filebase, index2fd, fd2data, fd2num, map_mask, fd_at, mem_map, fd_lookup,
  lookup, close, ignore,
}
use raspberry3_mos.Fd.Calls.{data_pages, copy_page, copy_pages, share_fd, dup, seek}
use raspberry3_mos.Fd.Run.{>>=-step}
use raspberry3_mos.Fd.Alias.{seek-dup}

abbrev device : Dev (Unit {0})
device = record {
  dev_id = 102;
  dev_read = λ fd buf n offset s. returns 0 s;
  dev_write = λ fd buf n offset s. returns 0 s;
  dev_close = λ fd s. returns 0 s;
  dev_stat = λ fd st s. returns st s;
}

abbrev process : Proc (Unit {0})
process = record {
  page = λ k. if k == 0x70000 then some (record { frame = 3; perm = map_mask }) else none;
  fds = λ f. record { fd_dev_id = 102; fd_offset = 0; fd_omode = 0 };
  mem = λ a. 0;
  world = tt;
  accepts = λ n. true;
  requests = 0;
}

copy_pages-empty :
    (n ova nva : ℕ) (s : Proc (Unit {0}))
    → filebase ≤ ova
    → ((k : ℕ) → 0x80000 ≤ k → s.page k ≡ none)
    → copy_pages n ova nva s ≡ returns tt s
unfolding copy_pages copy_page
copy_pages-empty zero ova nva s h empty = refl
copy_pages-empty (suc n) ova nva s h empty =
    >>=-step (copy_page ova nva) _ s
      (let gone = empty (ova / 4096) (omega arith) in rw (copy_page, gone) refl)
    ∙ copy_pages-empty n (ova + 4096) (nva + 4096) s (omega arith) empty

abbrev doubled : Proc (Unit {0})
doubled = record process {
  page = update process.page 0x70001 (some (record { frame = 3; perm = map_mask }));
  requests = 1;
}

lookup_run : fd_lookup 0 process ≡ returns 0x70000000 process
unfolding fd_lookup as_u64
lookup_run = refl

close_run : ignore (close (device ∷ []) 1) process ≡ returns tt process
unfolding close lookup fd_lookup as_u64
close_run = refl

share_run : (nva : ℕ) → share_fd 0x70000000 0x70001000 nva 1 process ≡ returns 1 doubled
unfolding share_fd mem_map
share_run nva = refl

dup_run : dup (device ∷ []) 0 1 process ≡ returns 1 doubled
unfolding dup as_u64 fd2data fd2num
dup_run =
    >>=-step (fd_lookup 0) _ process lookup_run
    ∙ >>=-step (ignore (close (device ∷ []) 1)) _ process close_run
    ∙ >>=-step (copy_pages data_pages (fd2data 0x70000000) (fd2data 0x70001000)) _ process
        (copy_pages-empty data_pages _ _ process (omega arith) (λ k h. ground arith))
    ∙ share_run (fd2data 0x70001000)

abbrev copy_number : ℕ
copy_number = 1

seek-dup_example :
    (copy_number ≡ 1)
    × ((u : Proc (Unit {0})) × (seek 0 77 doubled ≡ returns tt u)
        × (fd_at (index2fd 1) u ≡ fd_at (index2fd 0) u)
        × ((fd_at (index2fd 1) u).fd_offset ≡ 77))
    × ((u : Proc (Unit {0})) × (seek 1 77 doubled ≡ returns tt u)
        × (fd_at (index2fd 0) u ≡ fd_at (index2fd 1) u)
        × ((fd_at (index2fd 0) u).fd_offset ≡ 77))
seek-dup_example =
    seek-dup (device ∷ []) 0 1 1 77 process doubled (omega arith) (omega arith) dup_run
