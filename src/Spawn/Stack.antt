-- ===== src/Spawn/Stack.antt =====
-- `init_stack` (user/spawn.c): what the new program finds on its stack.
use raspberry3_mos.Base.{
  ℕ, ◌+◌, ◌-◌, ◌*◌, ◌/◌, ◌≤◌, ◌≡◌, ◌≢◌, refl, ◌∙◌, ap, inl, inr, true, false, ltb, ◌==◌, Option,
  none, some, List, length, arith,
}
use raspberry3_mos.Pmap.{update, update-same, update-other}
use raspberry3_mos.Env.{ustacktop}
use raspberry3_mos.Fd.{Pte}
use raspberry3_mos.User.{
  Machine, Result, gives, refuses, panics, M, pure, ◌>>◌, user_perm, set_entry, asked, mem_map,
  mem_unmap,
}
use raspberry3_mos.User.Calls.{set_entry-at, mem_map-step, mem_alloc-step, mem_unmap-step}
use raspberry3_mos.User.Run.{>>=-step}
use raspberry3_mos.Spawn.{
  tmppage, text_size, round_to, strings_at, args_at, in_child, write_texts, put_u64, write_args,
  write_stack, fill_stack, give_up, or_give_up, give_stack, init_stack,
}
use raspberry3_mos.Spawn.Words.{
  TextsAt, WordAt, PointersAt, Same, TextsAt-Same, WordAt-Same, PointersAt-Same, put_u64-WordAt,
  put_u64-other, write_texts-TextsAt, write_args-other, write_args-PointersAt,
}

-- The test of `init_stack`
abbrev pub Fits : List (List ℕ) → Type 0
Fits argv = round_to 8 (text_size argv) + 8 * (length argv + 3) ≤ 4096

-- The page, by the addresses of the temporary one: the strings, the pointers to them, as the child
-- knows their places, the null pointer behind them, the pointer to the pointers, and their number.
pub record Laid (argv : List (List ℕ)) (mem : ℕ → ℕ) : Type 0 where
  pub texts : TextsAt argv (strings_at argv) mem
  pub pointers : PointersAt argv (args_at argv) (in_child (strings_at argv)) mem
  pub ended : WordAt (args_at argv + 8 * length argv) 0 mem
  pub argv_pointer : WordAt (args_at argv - 8) (in_child (args_at argv)) mem
  pub argc : WordAt (args_at argv - 16) (length argv) mem

Laid-Same :
    (argv : List (List ℕ)) (mem mem' : ℕ → ℕ)
    → Fits argv
    → Same 4096 8192 mem mem'
    → Laid argv mem
    → Laid argv mem'
Laid-Same argv mem mem' fits same l = record {
  texts =
      TextsAt-Same argv (strings_at argv) mem mem' (λ b h k. same b (omega arith) (omega arith))
        l.texts;
  pointers =
      PointersAt-Same argv (args_at argv) (in_child (strings_at argv)) mem mem'
        (λ b h k. same b (omega arith) (omega arith)) l.pointers;
  ended =
      WordAt-Same (args_at argv + 8 * length argv) 0 mem mem'
        (λ b h k. same b (omega arith) (omega arith)) l.ended;
  argv_pointer =
      WordAt-Same (args_at argv - 8) (in_child (args_at argv)) mem mem'
        (λ b h k. same b (omega arith) (omega arith)) l.argv_pointer;
  argc =
      WordAt-Same (args_at argv - 16) (length argv) mem mem'
        (λ b h k. same b (omega arith) (omega arith)) l.argc;
}

write_stack-Laid :
    (argv : List (List ℕ)) (mem : ℕ → ℕ) → Fits argv → Laid argv (write_stack argv mem)
unfolding write_stack
write_stack-Laid argv mem fits =
    let args = args_at argv in
    let n = length argv in
    let strings = strings_at argv in
    let place = in_child strings in
    let texts = write_texts argv strings mem in
    let pointers = write_args argv args place texts in
    let last = put_u64 (args + 8 * n) 0 pointers in
    let second = put_u64 (args - 8) (in_child args) last in
    let whole = put_u64 (args - 16) n second in
    record {
      texts =
          TextsAt-Same argv strings texts whole
            (λ b h k.
              put_u64-other (args - 16) n second b (inr (omega arith))
              ∙ put_u64-other (args - 8) (in_child args) last b (inr (omega arith))
              ∙ put_u64-other (args + 8 * n) 0 pointers b (inr (omega arith))
              ∙ write_args-other argv args place texts b (inr (omega arith)))
            (write_texts-TextsAt argv strings mem);
      pointers =
          PointersAt-Same argv args place pointers whole
            (λ b h k.
              put_u64-other (args - 16) n second b (inr (omega arith))
              ∙ put_u64-other (args - 8) (in_child args) last b (inr (omega arith))
              ∙ put_u64-other (args + 8 * n) 0 pointers b (inl (omega arith)))
            (write_args-PointersAt argv args place texts);
      ended =
          WordAt-Same (args + 8 * n) 0 last whole
            (λ b h k.
              put_u64-other (args - 16) n second b (inr (omega arith))
              ∙ put_u64-other (args - 8) (in_child args) last b (inr (omega arith)))
            (put_u64-WordAt (args + 8 * n) 0 pointers);
      argv_pointer =
          WordAt-Same (args - 8) (in_child args) second whole
            (λ b h k. put_u64-other (args - 16) n second b (inr (omega arith)))
            (put_u64-WordAt (args - 8) (in_child args) last);
      argc = put_u64-WordAt (args - 16) n second;
    }

or_give_up-step :
    (call : M (Unit {0})) (m t : Machine) → call m ≡ gives tt t → or_give_up call m ≡ gives tt t
or_give_up-step call m t h = ap settle h
  where
    settle : Result (Unit {0}) → Result (Unit {0})
    settle r = elim r [ gives x u ↦ gives x u | refuses e u ↦ give_up e u | panics ↦ panics ]

-- The states between the calls of `init_stack`
module _ (child f : ℕ) (argv : List (List ℕ)) (m : Machine) where
  abbrev fresh : Option Pte
  fresh = some (record { frame = f; perm = user_perm })

  abbrev allocated : Machine
  allocated =
      set_entry 0 1 fresh (let t = asked m in record t { bytes = update m.bytes f (λ o. 0) })

  abbrev page_of : ℕ → ℕ
  page_of = write_stack argv (λ a. allocated.bytes f (a - tmppage))

  abbrev filled : Machine
  filled = record allocated { bytes = update allocated.bytes f (λ o. page_of (o + tmppage)) }

  abbrev stack_number : ℕ
  stack_number = (ustacktop - 4096) / 4096

  abbrev given : Machine
  given = set_entry child stack_number fresh (asked filled)

  abbrev left : Machine
  left = set_entry 0 1 none given

fill_stack-step :
    (f : ℕ) (argv : List (List ℕ)) (m : Machine)
    → m.entry 0 1 ≡ some (record { frame = f; perm = user_perm })
    → fill_stack argv m
      ≡ gives tt (record m {
        bytes =
            update m.bytes f (λ o. write_stack argv (λ a. m.bytes f (a - tmppage)) (o + tmppage));
      })
unfolding fill_stack
fill_stack-step f argv m h = rw (fill_stack, h) refl

-- The program `child` has its stack in the frame `f`, and the caller no longer has the page.
pub record StackGiven (child f : ℕ) (argv : List (List ℕ)) (m t : Machine) : Type 0 where
  pub page :
      t.entry child ((ustacktop - 4096) / 4096) ≡ some (record { frame = f; perm = user_perm })
  pub laid : Laid argv (λ a. t.bytes f (in_child a - (ustacktop - 4096)))
  pub temporary_gone : t.entry 0 1 ≡ none
  pub bytes : (g : ℕ) → g ≢ f → t.bytes g ≡ m.bytes g

give_stack-step :
    (child f g : ℕ) (argv : List (List ℕ)) (m : Machine)
    → m.known 0 ≡ true
    → m.known child ≡ true
    → m.answer (m.requests + 1) ≡ some g
    → give_stack child argv (allocated child f argv m)
      ≡ gives (some (in_child (args_at argv - 16))) (left child f argv m)
unfolding give_stack
give_stack-step child f g argv m caller known second =
    let a = allocated child f argv m in
    let s = filled child f argv m in
    let u = given child f argv m in
    let d : Pte = record { frame = f; perm = user_perm } in
    let esp = some (in_child (args_at argv - 16)) in
    let map = mem_map 0 tmppage child (ustacktop - 4096) user_perm in
    let unmap = mem_unmap 0 tmppage in
    let here : a.entry 0 1 ≡ some d = set_entry-at 0 1 (some d) (asked m) 0 1 in
    >>=-step (fill_stack argv) (λ x. or_give_up map >> (or_give_up unmap >> pure esp)) a
      (fill_stack-step f argv a here)
    ∙ >>=-step (or_give_up map) (λ x. or_give_up unmap >> pure esp) s
        (or_give_up-step map s u (
          mem_map-step 0 tmppage child (ustacktop - 4096) user_perm g d s caller known here second))
    ∙ >>=-step (or_give_up unmap) (λ x. pure esp) u
        (or_give_up-step unmap u (left child f argv m) (mem_unmap-step 0 tmppage u caller))

left-StackGiven :
    (child f : ℕ) (argv : List (List ℕ)) (m : Machine)
    → Fits argv
    → child ≢ 0
    → StackGiven child f argv m (left child f argv m)
left-StackGiven child f argv m fits ne =
    let s = filled child f argv m in
    let u = given child f argv m in
    let a = allocated child f argv m in
    let n = stack_number child f argv m in
    let fresh_page = fresh child f argv m in
    let own : (child == child) ≡ true = ground arith in
    let other : (child == 0) ≡ false = ground arith in
    let page = page_of child f argv m in
    let there : ◌≡◌ {A = ℕ → ℕ} (u.bytes f) (λ o. page (o + tmppage)) =
      update-same a.bytes f f (λ o. page (o + tmppage)) refl in
    record {
      page = set_entry-at 0 1 none u child n ∙ rw other (rw own refl);
      laid =
          Laid-Same argv page (λ b. u.bytes f (in_child b - (ustacktop - 4096))) fits
            (λ b h k.
              let place : in_child b - (ustacktop - 4096) + tmppage ≡ b = omega arith in
              ap (λ (w : ℕ → ℕ). w (in_child b - (ustacktop - 4096))) there ∙ ap page place)
            (write_stack-Laid argv (λ b. a.bytes f (b - tmppage)) fits);
      temporary_gone = set_entry-at 0 1 none u 0 1;
      bytes = λ g diff.
          update-other a.bytes f g (λ o. page (o + tmppage)) diff
          ∙ update-other m.bytes f g (λ o. 0) diff;
    }

-- Where the strings of `argv` fit, and the kernel has memory for the two requests, `init_stack` comes to
-- its end and leaves what `StackGiven` says: the child's highest stack page is a new frame, which holds
-- the strings, the pointers to them, a null pointer, the pointer to the pointers and their number; the
-- result is the address of the number as the child knows it, and the page is no longer mapped in
-- the caller.
pub init_stack_lem :
    (child f g : ℕ) (argv : List (List ℕ)) (m : Machine)
    → Fits argv
    → child ≢ 0
    → m.known 0 ≡ true
    → m.known child ≡ true
    → m.answer m.requests ≡ some f
    → m.answer (m.requests + 1) ≡ some g
    → (t : Machine) × (init_stack child argv m ≡ gives (some (in_child (args_at argv - 16))) t)
      × StackGiven child f argv m t
unfolding init_stack
init_stack_lem child f g argv m fits ne caller known first second =
    let small : ltb 4096 (round_to 8 (text_size argv) + 8 * (length argv + 3)) ≡ false =
      ground arith in
    let page = mem_alloc-step 0 tmppage user_perm f m caller first in
    (
      left child f argv m,
      rw small (ap settle page ∙ give_stack-step child f g argv m caller known second),
      left-StackGiven child f argv m fits ne,
    )
  where
    settle : Result (Unit {0}) → Result (Option ℕ)
    settle r = elim r [
      | gives x t ↦ give_stack child argv t
      | refuses e t ↦ gives none t
      | panics ↦ panics
    ]
