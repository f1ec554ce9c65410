-- ===== src/Pipe/Fifo.antt =====
-- The ring of user/pipe.c is a queue, whatever the order in which its two ends are used.
use mathlib.Core.List.{append_assoc, append-nil}
use raspberry3_mos.Base.{
  ℕ, zero, suc, ◌+◌, ◌-◌, ◌%◌, ◌^◌, ◌≤◌, ◌<◌, ◌≡◌, refl, sym, ◌∙◌, ap, false, ◌==◌, if◌then◌else◌,
  List, [], ◌∷◌, ◌++◌, length, arith,
}
use raspberry3_mos.Pipe.{Pipe, by2pipe, is_empty, is_full, read_byte, write_byte}

-- The bytes of a ring from position `i` on, `n` of them.
abbrev pub bytes : ℕ → ℕ → (ℕ → ℕ) → List ℕ
bytes zero i buf = []
bytes (suc n) i buf = buf (i % by2pipe) ∷ bytes n (i + 1) buf

-- The queue that a pipe stands for.
abbrev pub contents : Pipe → List ℕ
contents p = bytes (p.p_wpos - p.p_rpos) p.p_rpos p.p_buf

-- The ends are in order and at most 32 bytes apart.
pub record Sound (p : Pipe) : Type 0 where
  pub ordered : p.p_rpos ≤ p.p_wpos
  pub bounded : p.p_wpos ≤ p.p_rpos + by2pipe

-- The writer has written the bytes `ws` and the reader has read the bytes `rs`, in any order.
pub data Steps : List ℕ → List ℕ → Pipe → Pipe → Type 0 where
  stay : {p : Pipe} → Steps [] [] p p
  write :
      {b : ℕ} {ws rs : List ℕ} {p q : Pipe}
      → is_full p ≡ false
      → Steps ws rs (write_byte b p) q
      → Steps (b ∷ ws) rs p q
  read :
      {ws rs : List ℕ} {p q : Pipe}
      → is_empty p ≡ false
      → Steps ws rs (read_byte p).1 q
      → Steps ws ((read_byte p).0 ∷ rs) p q

bytes-update :
    (n i k b : ℕ) (buf : ℕ → ℕ)
    → i + n ≤ k
    → k < i + by2pipe
    → bytes n i (λ j. if j == k % by2pipe then b else buf j) ≡ bytes n i buf
bytes-update zero i k b buf h l = refl
bytes-update (suc n) i k b buf h l =
    let rest = bytes-update n (i + 1) k b buf (omega arith) (omega arith) in
    let apart : ((i % by2pipe) == (k % by2pipe)) ≡ false = ground arith in
    ap
      (λ f.
        (if f then b else buf (i % by2pipe))
        ∷ bytes n (i + 1) (λ j. if j == k % by2pipe then b else buf j))
      apart
    ∙ ap (λ r. buf (i % by2pipe) ∷ r) rest

bytes-last :
    (n i : ℕ) (buf : ℕ → ℕ) → bytes (suc n) i buf ≡ bytes n i buf ++ (buf ((i + n) % by2pipe) ∷ [])
bytes-last zero i buf = ap (λ k. buf (k % by2pipe) ∷ []) (omega arith)
bytes-last (suc n) i buf =
    ap (λ r. buf (i % by2pipe) ∷ r)
      (bytes-last n (i + 1) buf
        ∙ ap (λ k. bytes n (i + 1) buf ++ (buf (k % by2pipe) ∷ [])) (omega arith))

pub write_byte-Sound :
    (b : ℕ) (p : Pipe)
    → Sound p
    → p.p_wpos + 1 < 2 ^ 64
    → is_full p ≡ false
    → Sound (write_byte b p)
      × ((write_byte b p).p_wpos ≡ p.p_wpos + 1)
      × ((write_byte b p).p_rpos ≡ p.p_rpos)
      × (contents (write_byte b p) ≡ contents p ++ (b ∷ []))
unfolding write_byte
write_byte-Sound b p s room free =
    let next : (p.p_wpos + 1) % 2 ^ 64 ≡ p.p_wpos + 1 = omega arith in
    let apart : p.p_wpos < p.p_rpos + by2pipe = ground (arith, s.ordered, s.bounded, room) in
    let used = p.p_wpos - p.p_rpos in
    let more : (p.p_wpos + 1) % 2 ^ 64 - p.p_rpos ≡ suc used = omega (arith, s.ordered, next) in
    let buf = λ (j : ℕ). if j == p.p_wpos % by2pipe then b else p.p_buf j in
    let place : p.p_rpos + used ≡ p.p_wpos = omega (arith, s.ordered) in
    let new : buf ((p.p_rpos + used) % by2pipe) ≡ b =
      ap (λ k. buf (k % by2pipe)) place ∙ ground arith in
    (
      record { ordered = omega (arith, s.ordered, next); bounded = omega (arith, apart, next) },
      next,
      refl,
      ap (λ n. bytes n p.p_rpos buf) more
          ∙ bytes-last used p.p_rpos buf
          ∙ ap (λ r. r ++ (buf ((p.p_rpos + used) % by2pipe) ∷ []))
              (bytes-update used p.p_rpos p.p_wpos b p.p_buf (omega (arith, place)) apart)
          ∙ ap (λ c. bytes used p.p_rpos p.p_buf ++ (c ∷ [])) new,
    )

pub read_byte-Sound :
    (p : Pipe)
    → Sound p
    → p.p_wpos < 2 ^ 64
    → is_empty p ≡ false
    → Sound (read_byte p).1
      × ((read_byte p).1.p_wpos ≡ p.p_wpos)
      × (contents p ≡ (read_byte p).0 ∷ contents (read_byte p).1)
unfolding read_byte
read_byte-Sound p s room some_byte =
    let less : p.p_rpos < p.p_wpos = ground (arith, s.ordered) in
    let next : (p.p_rpos + 1) % 2 ^ 64 ≡ p.p_rpos + 1 = omega (arith, less, room) in
    let left : p.p_wpos - p.p_rpos ≡ suc (p.p_wpos - (p.p_rpos + 1)) = omega (arith, less) in
    (
      record { ordered = omega (arith, less, next); bounded = omega (arith, s.bounded, next) },
      refl,
      ap (λ n. bytes n p.p_rpos p.p_buf) left
          ∙ ap (λ k. p.p_buf (p.p_rpos % by2pipe) ∷ bytes (p.p_wpos - k) k p.p_buf) (sym next),
    )

-- In any interleaving of writes to a pipe that is not full and reads from one that is not empty, the
-- bytes read, with those still in the ring behind them, are the bytes that were in it at the start
-- with those written behind them; the ring holds at most 32. At the start the ends are in order and at
-- most 32 apart; the position of the writer stays below 2 ^ 64.
pub Steps-fifo :
    {ws rs : List ℕ} {p q : Pipe}
    → Steps ws rs p q
    → Sound p
    → p.p_wpos + length ws < 2 ^ 64
    → (rs ++ contents q ≡ contents p ++ ws) × Sound q
Steps-fifo {p = p} stay s room = (sym (append-nil (contents p)), s)
Steps-fifo {p = p} (write {b} {ws} {rs} free rest) s room =
    let (sound, next, kept, grown) = write_byte-Sound b p s (omega arith) free in
    let (queue, left) = Steps-fifo rest sound (omega (arith, next, room)) in
    (queue ∙ ap (λ r. r ++ ws) grown ∙ append_assoc (contents p) (b ∷ []) ws, left)
Steps-fifo {p = p} (read {ws} {rs} some_byte rest) s room =
    let (sound, same, taken) = read_byte-Sound p s (omega arith) some_byte in
    let (queue, left) = Steps-fifo rest sound (omega (arith, same, room)) in
    (ap (λ r. (read_byte p).0 ∷ r) queue ∙ ap (λ r. r ++ ws) (sym taken), left)
