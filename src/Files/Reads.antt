-- ===== src/Files/Reads.antt =====
-- `file_read` and `file_write` (user/file.c) over the mapped blocks.
use raspberry3_mos.Base.{
  ℕ, ◌+◌, ◌-◌, ◌%◌, ◌^◌, ◌≤◌, ◌<◌, ◌≡◌, refl, ◌∙◌, ap, ◌⊎◌, inl, inr, true, false, ltb,
  if◌then◌else◌, Bool-cases, arith,
}
use raspberry3_mos.Pmap.Zero.{within}
use raspberry3_mos.User.Bytes.{user_bcopy}
use raspberry3_mos.User.Bytes.Copies.{Apart, copied, user_bcopy_lem}
use raspberry3_mos.Fd.{Proc, returns, fd2data}
use raspberry3_mos.Fd.Run.{>>=-step}
use raspberry3_mos.Files.{Request, Answer, Client, maxfilesize, info_at}
use raspberry3_mos.Files.Device.{file_read, make_room, put_bytes, file_write}

-- The bytes that a read of `n` of them at `offset` gets from a file of `size`
abbrev pub count_of : ℕ → ℕ → ℕ → ℕ
count_of size n offset = if ltb size (offset + n) then size - offset else n

-- The byte `j` of a copy, and one outside it
pub copied-inside :
    (src dst len : ℕ) (mem : ℕ → ℕ) (j : ℕ)
    → j < len
    → copied src dst len mem (dst + j) ≡ mem (src + j)
copied-inside src dst len mem j h =
    let inside : within (dst + j) dst (dst + len) ≡ true = ground arith in
    let place : src + (dst + j - dst) ≡ src + j = omega arith in rw inside (ap mem place)

pub copied-outside :
    (src dst len : ℕ) (mem : ℕ → ℕ) (a : ℕ)
    → (a < dst) ⊎ (dst + len ≤ a)
    → copied src dst len mem a ≡ mem a
copied-outside src dst len mem a h =
    let outside : within a dst (dst + len) ≡ false = ground arith in rw outside refl

-- `count` bytes from the byte `offset` of the file on are in the buffer, and nothing else has changed.
pub record BytesRead {S : Type 0} (fd buf count offset : ℕ) (s u : Proc (Client S)) : Type 0 where
  pub got : (j : ℕ) → j < count → u.mem (buf + j) ≡ s.mem (fd2data fd + offset + j)
  pub others : (a : ℕ) → (a < buf) ⊎ (buf + count ≤ a) → u.mem a ≡ s.mem a
  pub pages : u.page ≡ s.page
  pub fds : u.fds ≡ s.fds
  pub world : u.world ≡ s.world

-- `n` bytes from the buffer are in the file from its byte `offset` on.
pub record BytesWritten {S : Type 0} (fd buf n offset : ℕ) (s u : Proc (Client S)) : Type 0 where
  pub put : (j : ℕ) → j < n → u.mem (fd2data fd + offset + j) ≡ s.mem (buf + j)
  pub others :
      (a : ℕ) → (a < fd2data fd + offset) ⊎ (fd2data fd + offset + n ≤ a) → u.mem a ≡ s.mem a
  pub pages : u.page ≡ s.page
  pub fds : u.fds ≡ s.fds
  pub world : u.world ≡ s.world

module _ {S : Type 0} (answer : Request → S → Answer × S) where
  -- A read behind the end of the file gets nothing. One at an offset up to it gets the `n` bytes from
  -- there on, or as many as the file has, into the buffer, and leaves the rest of the process, where
  -- `offset + n` is below 2 ^ 32 and the buffer below the file's bytes or behind them.
  pub file_read_lem :
      (fd buf n offset : ℕ) (s : Proc (Client S))
      → offset + n < 2 ^ 32
      → fd2data fd + offset < 2 ^ 64
      → Apart (fd2data fd + offset) buf (count_of (info_at fd s).f_size n offset)
      → (((info_at fd s).f_size < offset) × (file_read answer fd buf n offset s ≡ returns 0 s))
        ⊎ ((offset ≤ (info_at fd s).f_size)
            × (u : Proc (Client S)) × (file_read answer fd buf n offset s
                ≡ returns (count_of (info_at fd s).f_size n offset) u)
            × BytesRead fd buf (count_of (info_at fd s).f_size n offset) offset s u)
  unfolding file_read
  file_read_lem fd buf n offset s no_wrap low apart =
      let size = (info_at fd s).f_size in
      let sum : (offset + n) % 2 ^ 32 ≡ offset + n = omega arith in
      let src : (fd2data fd + offset) % 2 ^ 64 ≡ fd2data fd + offset = omega arith in
      let count = count_of size n offset in
      let mem = user_bcopy (fd2data fd + offset) buf count s.mem in
      elim (Bool-cases (ltb size offset)) [
        | inl behind ↦ inl (ground arith, rw behind refl)
        | inr inside ↦ inr (
          ground arith,
          record s { mem = mem },
          rw inside (rw (sum, src) refl),
          record {
            got = λ j h.
                user_bcopy_lem (fd2data fd + offset) buf count s.mem (buf + j) apart
                ∙ copied-inside (fd2data fd + offset) buf count s.mem j h;
            others = λ a h.
                user_bcopy_lem (fd2data fd + offset) buf count s.mem a apart
                ∙ copied-outside (fd2data fd + offset) buf count s.mem a h;
            pages = refl;
            fds = refl;
            world = refl;
          },
        )
      ]

  put_bytes-BytesWritten :
      (fd buf n offset : ℕ) (s : Proc (Client S))
      → fd2data fd + offset < 2 ^ 64
      → Apart buf (fd2data fd + offset) n
      → (u : Proc (Client S)) × (put_bytes answer fd buf n offset s ≡ returns n u)
        × BytesWritten fd buf n offset s u
  unfolding put_bytes
  put_bytes-BytesWritten fd buf n offset s low apart =
      let start = fd2data fd + offset in
      let dst : start % 2 ^ 64 ≡ start = omega arith in
      (
        record s { mem = user_bcopy buf start n s.mem },
        rw dst refl,
        record {
          put = λ j h.
              user_bcopy_lem buf start n s.mem (start + j) apart
              ∙ copied-inside buf start n s.mem j h;
          others = λ a h.
              user_bcopy_lem buf start n s.mem a apart ∙ copied-outside buf start n s.mem a h;
          pages = refl;
          fds = refl;
          world = refl;
        },
      )

  -- A write, where the file has the room for it or gets it
  pub file_write-BytesWritten :
      (fd buf n offset r : ℕ) (s t : Proc (Client S))
      → offset + n ≤ maxfilesize
      → fd2data fd + offset < 2 ^ 64
      → Apart buf (fd2data fd + offset) n
      → make_room answer fd (offset + n) s ≡ returns r t
      → (u : Proc (Client S)) × (file_write answer fd buf n offset s ≡ returns n u)
        × BytesWritten fd buf n offset t u
  unfolding file_write
  file_write-BytesWritten fd buf n offset r s t fits low apart room =
      let sum : (offset + n) % 2 ^ 32 ≡ offset + n = omega arith in
      let allowed : ltb maxfilesize (offset + n) ≡ false = ground arith in
      let (u, run, written) = put_bytes-BytesWritten fd buf n offset t low apart in
      (
        u,
        rw sum (
            rw allowed (
              >>=-step (make_room answer fd (offset + n)) (λ x. put_bytes answer fd buf n offset) s
                room
              ∙ run)),
        written,
      )

  pub make_room-enough :
      (fd tot : ℕ) (s : Proc (Client S))
      → tot ≤ (info_at fd s).f_size
      → make_room answer fd tot s ≡ returns 0 s
  unfolding make_room
  make_room-enough fd tot s enough =
      let keeps : ltb (info_at fd s).f_size tot ≡ false = ground arith in rw (make_room, keeps) refl
