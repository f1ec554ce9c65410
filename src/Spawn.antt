-- ===== src/Spawn.antt =====
-- The first stack page of a new program (user/spawn.c `init_stack`): the strings of `argv`, the pointers
-- to them, and what the program's entry takes from the stack. `argv` is the list of its strings, each
-- the list of its characters; their total length is below 2 ^ 31.
pub mod Words
pub mod Stack
pub mod Load
pub mod Spawned
pub mod View
pub mod Loaded
pub mod Segment
mod Tests
use raspberry3_mos.Base.{
  ℕ, zero, suc, ◌+◌, ◌-◌, ◌*◌, ◌/◌, ◌%◌, ◌^◌, Bool, ltb, leb, ◌==◌, if◌then◌else◌, Option, none,
  some, List, [], ◌∷◌, length,
}
use raspberry3_mos.Pmap.{update}
use raspberry3_mos.Pmap.Zero.{within}
use raspberry3_mos.Env.{ustacktop}
use raspberry3_mos.User.{
  Machine, Result, gives, refuses, panics, M, pure, ◌>>=◌, ◌>>◌, user_perm, mem_alloc, mem_map,
  mem_unmap,
}

abbrev pub e_no_mem : ℕ
e_no_mem = 4

abbrev pub tmppage : ℕ
tmppage = 4096

abbrev pub tmppage_top : ℕ
tmppage_top = tmppage + 4096

-- `tot`: the strings with their zeros
unfoldable pub text_size : List (List ℕ) → ℕ
text_size [] = 0
text_size (str ∷ argv) = length str + 1 + text_size argv

-- `ROUND(tot, n)`
abbrev pub round_to : ℕ → ℕ → ℕ
round_to n tot = (tot + n - 1) / n * n

-- `strings` and `args`, in the temporary page
abbrev pub strings_at : List (List ℕ) → ℕ
strings_at argv = tmppage_top - text_size argv

abbrev pub args_at : List (List ℕ) → ℕ
args_at argv = tmppage_top - round_to 4 (text_size argv) - 8 * (length argv + 1)

-- `USTACKTOP - TMPPAGE_TOP + a`: where the child finds it
abbrev pub in_child : ℕ → ℕ
in_child a = ustacktop - tmppage_top + a

-- A string with its zero, and all of them
unfoldable pub write_text : List ℕ → ℕ → (ℕ → ℕ) → ℕ → ℕ
write_text [] ctemp mem = update mem ctemp 0
write_text (c ∷ str) ctemp mem = write_text str (ctemp + 1) (update mem ctemp c)

unfoldable pub write_texts : List (List ℕ) → ℕ → (ℕ → ℕ) → ℕ → ℕ
write_texts [] ctemp mem = mem
write_texts (str ∷ argv) ctemp mem =
    write_texts argv (ctemp + (length str + 1)) (write_text str ctemp mem)

-- `*(u64 *)a = v`
unfoldable pub put_u64 : ℕ → ℕ → (ℕ → ℕ) → ℕ → ℕ
put_u64 a v mem b = if within b a (a + 8) then v / 2 ^ (8 * (b - a)) % 256 else mem b

-- The loop over `args[i] = (u64)ctemp`
unfoldable pub write_args : List (List ℕ) → ℕ → ℕ → (ℕ → ℕ) → ℕ → ℕ
write_args [] args ctemp mem = mem
write_args (str ∷ argv) args ctemp mem =
    write_args argv (args + 8) (ctemp + (length str + 1)) (put_u64 args ctemp mem)

-- What `init_stack` writes to the temporary page
unfoldable pub write_stack : List (List ℕ) → (ℕ → ℕ) → ℕ → ℕ
write_stack argv mem =
    let args = args_at argv in
    let texts = write_texts argv (strings_at argv) mem in
    let pointers = write_args argv args (in_child (strings_at argv)) texts in
    let ended = put_u64 (args + 8 * length argv) 0 pointers in
    put_u64 (args - 16) (length argv) (put_u64 (args - 8) (in_child args) ended)

-- The stores, into the page that is mapped at `TMPPAGE`
unfoldable pub fill_stack : List (List ℕ) → M (Unit {0})
fill_stack argv m = elim (m.entry 0 (tmppage / 4096)) [
  | none ↦ panics
  | some p ↦
      let page = write_stack argv (λ a. m.bytes p.frame (a - tmppage)) in
      gives tt (record m { bytes = update m.bytes p.frame (λ o. page (o + tmppage)) })
]

-- The result of `syscall_mem_unmap` on the way out of an error is dropped.
unfoldable pub give_up : {A : Type 0} → ℕ → M A
give_up r m = elim (mem_unmap 0 tmppage m) [
  | gives x t ↦ refuses r t
  | refuses e t ↦ refuses r t
  | panics ↦ panics
]

abbrev pub or_give_up : M (Unit {0}) → M (Unit {0})
or_give_up call m = elim (call m) [
  | gives x t ↦ gives x t
  | refuses r t ↦ give_up r t
  | panics ↦ panics
]

unfoldable pub give_stack : ℕ → List (List ℕ) → M (Option ℕ)
give_stack child argv = do
  fill_stack argv
  or_give_up (mem_map 0 tmppage child (ustacktop - 4096) user_perm)
  or_give_up (mem_unmap 0 tmppage)
  pure (some (in_child (args_at argv - 16)))

-- `init_stack`: `some esp` for the result 0. Without a page `r` is the value of the comparison, and the
-- result is 1: `none`.
unfoldable pub init_stack : ℕ → List (List ℕ) → M (Option ℕ)
init_stack child argv m =
    let filled = λ (t : Machine). give_stack child argv t in
    if ltb 4096 (round_to 8 (text_size argv) + 8 * (length argv + 3))
    then refuses e_no_mem m
    else elim (mem_alloc 0 tmppage user_perm m) [
      | gives x t ↦ filled t
      | refuses e t ↦ gives none t
      | panics ↦ panics
    ]

-- `init_stack_valist` has the strings in a list of arguments, and the same code.
unfoldable pub init_stack_valist : ℕ → List (List ℕ) → M (Option ℕ)
init_stack_valist child argv = init_stack child argv
