-- ===== src/Spawn/Words.antt =====
-- What the stores of `init_stack` (user/spawn.c) leave in memory, each on its own.
use raspberry3_mos.Base.{
  ℕ, ◌+◌, ◌-◌, ◌*◌, ◌/◌, ◌%◌, ◌^◌, ◌≤◌, ◌<◌, ◌≡◌, refl, ◌∙◌, ap, ◌⊎◌, inl, inr, true, false, List,
  [], ◌∷◌, length, arith,
}
use raspberry3_mos.Pmap.{update, update-same, update-other}
use raspberry3_mos.Pmap.Zero.{within}
use raspberry3_mos.Spawn.{text_size, write_text, write_texts, put_u64, write_args}

-- The string stands at `a`, with a zero behind it.
unfoldable pub TextAt : List ℕ → ℕ → (ℕ → ℕ) → Type 0
TextAt [] a mem = mem a ≡ 0
TextAt (c ∷ str) a mem = (mem a ≡ c) × TextAt str (a + 1) mem

-- The strings stand from `a` on, one behind the other.
unfoldable pub TextsAt : List (List ℕ) → ℕ → (ℕ → ℕ) → Type 0
TextsAt [] a mem = Unit {0}
TextsAt (str ∷ argv) a mem = TextAt str a mem × TextsAt argv (a + (length str + 1)) mem

-- The eight bytes of a word, the lowest one first
abbrev pub WordAt : ℕ → ℕ → (ℕ → ℕ) → Type 0
WordAt a v mem = (o : ℕ) → o < 8 → mem (a + o) ≡ v / 2 ^ (8 * o) % 256

-- The words from `a` on are the addresses of strings that stand from `p` on.
unfoldable pub PointersAt : List (List ℕ) → ℕ → ℕ → (ℕ → ℕ) → Type 0
PointersAt [] a p mem = Unit {0}
PointersAt (str ∷ argv) a p mem =
    WordAt a p mem × PointersAt argv (a + 8) (p + (length str + 1)) mem

-- Two memories with the same bytes from `lo` on and below `hi`
abbrev pub Same : ℕ → ℕ → (ℕ → ℕ) → (ℕ → ℕ) → Type 0
Same lo hi mem mem' = (b : ℕ) → lo ≤ b → b < hi → mem' b ≡ mem b

pub TextAt-Same :
    (str : List ℕ) (a : ℕ) (mem mem' : ℕ → ℕ)
    → Same a (a + (length str + 1)) mem mem'
    → TextAt str a mem
    → TextAt str a mem'
unfolding TextAt
TextAt-Same [] a mem mem' same t = same a (omega arith) (omega arith) ∙ t
TextAt-Same (c ∷ str) a mem mem' same (h, t) = (
  same a (omega arith) (omega arith) ∙ h,
  TextAt-Same str (a + 1) mem mem' (λ b l u. same b (omega arith) (omega arith)) t,
)

pub TextsAt-Same :
    (argv : List (List ℕ)) (a : ℕ) (mem mem' : ℕ → ℕ)
    → Same a (a + text_size argv) mem mem'
    → TextsAt argv a mem
    → TextsAt argv a mem'
unfolding TextsAt text_size
TextsAt-Same [] a mem mem' same t = t
TextsAt-Same (str ∷ argv) a mem mem' same (h, t) = (
  TextAt-Same str a mem mem' (λ b l u. same b l (omega arith)) h,
  TextsAt-Same argv (a + (length str + 1)) mem mem' (λ b l u. same b (omega arith) (omega arith)) t,
)

pub WordAt-Same :
    (a v : ℕ) (mem mem' : ℕ → ℕ) → Same a (a + 8) mem mem' → WordAt a v mem → WordAt a v mem'
WordAt-Same a v mem mem' same h o small = same (a + o) (omega arith) (omega arith) ∙ h o small

pub PointersAt-Same :
    (argv : List (List ℕ)) (a p : ℕ) (mem mem' : ℕ → ℕ)
    → Same a (a + 8 * length argv) mem mem'
    → PointersAt argv a p mem
    → PointersAt argv a p mem'
unfolding PointersAt
PointersAt-Same [] a p mem mem' same t = t
PointersAt-Same (str ∷ argv) a p mem mem' same (h, t) = (
  WordAt-Same a p mem mem' (λ b l u. same b l (omega arith)) h,
  PointersAt-Same argv (a + 8) (p + (length str + 1)) mem mem'
      (λ b l u. same b (omega arith) (omega arith)) t,
)

-- A store of a word, and what is beside it
pub put_u64-WordAt : (a v : ℕ) (mem : ℕ → ℕ) → WordAt a v (put_u64 a v mem)
unfolding put_u64
put_u64-WordAt a v mem o small =
    let inside : within (a + o) a (a + 8) ≡ true = ground arith in
    let offset : a + o - a ≡ o = omega arith in
    rw inside (ap (λ (k : ℕ). v / 2 ^ (8 * k) % 256) offset)

pub put_u64-other :
    (a v : ℕ) (mem : ℕ → ℕ) (b : ℕ) → (b < a) ⊎ (a + 8 ≤ b) → put_u64 a v mem b ≡ mem b
unfolding put_u64
put_u64-other a v mem b h =
    let outside : within b a (a + 8) ≡ false = ground arith in rw outside refl

write_text-below :
    (str : List ℕ) (a : ℕ) (mem : ℕ → ℕ) (b : ℕ) → b < a → write_text str a mem b ≡ mem b
unfolding write_text
write_text-below [] a mem b h = update-other mem a b 0 (omega arith)
write_text-below (c ∷ str) a mem b h =
    write_text-below str (a + 1) (update mem a c) b (omega arith)
    ∙ update-other mem a b c (omega arith)

write_text-TextAt : (str : List ℕ) (a : ℕ) (mem : ℕ → ℕ) → TextAt str a (write_text str a mem)
unfolding write_text TextAt
write_text-TextAt [] a mem = update-same mem a a 0 refl
write_text-TextAt (c ∷ str) a mem = (
  write_text-below str (a + 1) (update mem a c) a (omega arith) ∙ update-same mem a a c refl,
  write_text-TextAt str (a + 1) (update mem a c),
)

write_texts-below :
    (argv : List (List ℕ)) (a : ℕ) (mem : ℕ → ℕ) (b : ℕ) → b < a → write_texts argv a mem b ≡ mem b
unfolding write_texts
write_texts-below [] a mem b h = refl
write_texts-below (str ∷ argv) a mem b h =
    write_texts-below argv (a + (length str + 1)) (write_text str a mem) b (omega arith)
    ∙ write_text-below str a mem b h

pub write_texts-TextsAt :
    (argv : List (List ℕ)) (a : ℕ) (mem : ℕ → ℕ) → TextsAt argv a (write_texts argv a mem)
unfolding write_texts TextsAt
write_texts-TextsAt [] a mem = tt
write_texts-TextsAt (str ∷ argv) a mem =
    let first = write_text str a mem in
    let next = a + (length str + 1) in
    (
      TextAt-Same str a first (write_texts argv next first)
          (λ b l u. write_texts-below argv next first b u) (write_text-TextAt str a mem),
      write_texts-TextsAt argv next first,
    )

pub write_args-other :
    (argv : List (List ℕ)) (a p : ℕ) (mem : ℕ → ℕ) (b : ℕ)
    → (b < a) ⊎ (a + 8 * length argv ≤ b)
    → write_args argv a p mem b ≡ mem b
unfolding write_args
write_args-other [] a p mem b h = refl
write_args-other (str ∷ argv) a p mem b h =
    write_args-other argv (a + 8) (p + (length str + 1)) (put_u64 a p mem) b
      (elim h [ inl l ↦ inl (omega arith) | inr r ↦ inr (omega arith) ])
    ∙ put_u64-other a p mem b (elim h [ inl l ↦ inl l | inr r ↦ inr (omega arith) ])

pub write_args-PointersAt :
    (argv : List (List ℕ)) (a p : ℕ) (mem : ℕ → ℕ) → PointersAt argv a p (write_args argv a p mem)
unfolding write_args PointersAt
write_args-PointersAt [] a p mem = tt
write_args-PointersAt (str ∷ argv) a p mem =
    let first = put_u64 a p mem in
    let next = p + (length str + 1) in
    (
      WordAt-Same a p first (write_args argv (a + 8) next first)
          (λ b l u. write_args-other argv (a + 8) next first b (inl u)) (put_u64-WordAt a p mem),
      write_args-PointersAt argv (a + 8) next first,
    )
