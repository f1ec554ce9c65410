-- ===== src/Fd.antt =====
-- File descriptors of a user program (user/fd.c). An int is its 32-bit pattern. The devices are
-- records of functions, as the code's `struct Dev`, over a state `W` of their own.
pub mod Calls
pub mod Run
pub mod Alias
pub mod Ends
mod Tests
use raspberry3_mos.Base.{
  ℕ, zero, suc, ◌+◌, ◌-◌, ◌*◌, ◌/◌, ◌%◌, ◌^◌, bit_and, Bool, true, false, ◌&&◌, ltb, leb, ◌==◌, not,
  if◌then◌else◌, Option, none, some, List, [], ◌∷◌,
}
use raspberry3_mos.Pmap.{update}
use raspberry3_mos.Fs.{e_unspecified, e_inval}
use raspberry3_mos.Serve.{e_max_open, as_u64}

-- `struct Fd`
pub record Fd : Type 0 where
  pub fd_dev_id : ℕ
  pub fd_offset : ℕ
  pub fd_omode : ℕ

-- An entry of the page table: the page and its permissions
pub record Pte : Type 0 where
  pub frame : ℕ
  pub perm : ℕ

-- A process: its valid entries by page number, the descriptors in the pages, its bytes, the state of
-- the devices, and the kernel's answers to its requests to map a page.
pub record Proc (W : Type 0) : Type 0 where
  pub page : ℕ → Option Pte
  pub fds : ℕ → Fd
  pub mem : ℕ → ℕ
  pub world : W
  pub accepts : ℕ → Bool
  pub requests : ℕ

-- How a function ends: with a result, with the negative of an error, in `user_panic` or with an access
-- behind an array, as a read behind `devtab`, or without fuel.
pub data Result (W A : Type 0) : Type 0 where
  returns : A → Proc W → Result W A
  fails : ℕ → Proc W → Result W A
  aborts : Result W A
  unfinished : Result W A

pub record Stat : Type 0 where
  pub st_name : List ℕ
  pub st_size : ℕ
  pub st_isdir : ℕ
  pub st_dev : ℕ

-- `struct Dev`; `dev_stat` gets the name, the size and the kind that `fstat` has set.
pub record Dev (W : Type 0) : Type 0 where
  pub dev_id : ℕ
  pub dev_read : ℕ → ℕ → ℕ → ℕ → Proc W → Result W ℕ
  pub dev_write : ℕ → ℕ → ℕ → ℕ → Proc W → Result W ℕ
  pub dev_close : ℕ → Proc W → Result W ℕ
  pub dev_stat : ℕ → Stat → Proc W → Result W Stat

abbrev pub maxfd : ℕ
maxfd = 32

abbrev pub pdmap : ℕ
pdmap = 2 ^ 30

abbrev pub filebase : ℕ
filebase = 0x80000000

abbrev pub fdtable : ℕ
fdtable = 0x70000000

abbrev pub index2fd : ℕ → ℕ
index2fd i = (fdtable + as_u64 i * 4096) % 2 ^ 64

abbrev pub index2data : ℕ → ℕ
index2data i = (filebase + as_u64 i * pdmap) % 2 ^ 64

unfoldable pub fd2num : ℕ → ℕ
fd2num fd = (fd + (2 ^ 64 - fdtable)) % 2 ^ 64 / 4096 % 2 ^ 32

unfoldable pub num2fd : ℕ → ℕ
num2fd fd = index2fd fd

unfoldable pub fd2data : ℕ → ℕ
fd2data fd = index2data (fd2num fd)

-- `VALID | PTE_RW | PTE_LIBRARY | PTE_USER`
abbrev pub map_mask : ℕ
map_mask = 1 + 2 ^ 55 + 0x40

abbrev pub blank_fd : Fd
blank_fd = record { fd_dev_id = 0; fd_offset = 0; fd_omode = 0 }

module _ {W : Type 0} where
  infixl 5 ◌>>=◌
  abbrev pub ◌>>=◌ :
      {A B : Type 0} → (Proc W → Result W A) → (A → Proc W → Result W B) → Proc W → Result W B
  ◌>>=◌ m f s = elim (m s) [
    | returns a t ↦ f a t
    | fails e t ↦ fails e t
    | aborts ↦ aborts
    | unfinished ↦ unfinished
  ]

  abbrev pub is_mapped : ℕ → Proc W → Bool
  is_mapped va s = elim (s.page (va / 4096)) [ none ↦ false | some p ↦ true ]

  -- The descriptor at an address
  abbrev pub fd_at : ℕ → Proc W → Fd
  fd_at fd s = elim (s.page (fd / 4096)) [ none ↦ blank_fd | some p ↦ s.fds p.frame ]

  unfoldable pub set_fd : ℕ → Fd → Proc W → Proc W
  set_fd fd v s = elim (s.page (fd / 4096)) [
    | none ↦ s
    | some p ↦ record s { fds = update s.fds p.frame v }
  ]

  -- `syscall_mem_unmap(0, va)`
  unfoldable pub mem_unmap : ℕ → Proc W → Proc W
  mem_unmap va s = record s { page = update s.page (va / 4096) none }

  -- `syscall_mem_map(0, src, 0, dst, perm)`
  unfoldable pub mem_map : ℕ → ℕ → ℕ → Proc W → Result W (Unit {0})
  mem_map src dst perm s =
      let t = record s { requests = s.requests + 1 } in
      elim (s.page (src / 4096)) [
        | none ↦ fails e_unspecified t
        | some p ↦
            if s.accepts s.requests
            then returns tt (record t {
              page = update s.page (dst / 4096) (some (record { frame = p.frame; perm = perm }));
            })
            else fails e_unspecified t
      ]

  -- The loop of `fd_alloc` from `fdno` on
  unfoldable pub alloc_fd : ℕ → ℕ → Proc W → Result W ℕ
  alloc_fd zero fdno s = fails e_max_open s
  alloc_fd (suc n) fdno s =
      let later = alloc_fd n (fdno + 1) s in
      if not (is_mapped (index2fd fdno) s) then returns (index2fd fdno) s else later

  unfoldable pub fd_alloc : Proc W → Result W ℕ
  fd_alloc s = alloc_fd (maxfd - 1) 0 s

  unfoldable pub fd_close : ℕ → Proc W → Proc W
  fd_close fd s = mem_unmap fd s

  -- The bound is tested as an int, so that a negative number passes.
  unfoldable pub fd_lookup : ℕ → Proc W → Result W ℕ
  fd_lookup fdnum s =
      if leb maxfd fdnum && ltb fdnum (2 ^ 31)
      then fails e_inval s
      else if not (is_mapped (index2fd fdnum) s)
      then fails e_inval s
      else returns (index2fd fdnum) s

  -- The loop of `dev_lookup`; `devtab` has no null pointer at its end.
  unfoldable pub dev_lookup : ℕ → List (Dev W) → Proc W → Result W (Dev W)
  dev_lookup dev_id [] s = aborts
  dev_lookup dev_id (d ∷ devtab) s =
      let later = dev_lookup dev_id devtab s in if d.dev_id == dev_id then returns d s else later

  -- The descriptor of a number, with its device
  unfoldable pub lookup : List (Dev W) → ℕ → Proc W → Result W (ℕ × Dev W)
  lookup devtab fdnum = do
    fd ← fd_lookup fdnum
    dev ← λ s. dev_lookup (fd_at fd s).fd_dev_id devtab s
    returns (fd, dev)

  unfoldable pub close : List (Dev W) → ℕ → Proc W → Result W ℕ
  close devtab fdnum = do
    (fd, dev) ← lookup devtab fdnum
    λ s. elim (dev.dev_close fd s) [
      | returns r t ↦ returns r (fd_close fd t)
      | fails e t ↦ fails e (fd_close fd t)
      | aborts ↦ aborts
      | unfinished ↦ unfinished
    ]

  -- The result is dropped.
  abbrev pub ignore : {A : Type 0} → (Proc W → Result W A) → Proc W → Result W (Unit {0})
  ignore m s = elim (m s) [
    | returns a t ↦ returns tt t
    | fails e t ↦ returns tt t
    | aborts ↦ aborts
    | unfinished ↦ unfinished
  ]

  -- The loop of `close_all` from `i` on
  unfoldable pub close_from : ℕ → List (Dev W) → ℕ → Proc W → Result W (Unit {0})
  close_from zero devtab i = returns tt
  close_from (suc n) devtab i = do x ← ignore (close devtab i); close_from n devtab (i + 1)

  unfoldable pub close_all : List (Dev W) → Proc W → Result W (Unit {0})
  close_all devtab = close_from maxfd devtab 0
