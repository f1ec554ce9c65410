-- ===== src/Fork/Copy.antt =====
-- The handler of page faults (`pgfault` of user/fork.c): a write to a page that is shared by `fork`.
use raspberry3_mos.Base.{
  ℕ, ◌+◌, ◌*◌, ◌/◌, ◌≡◌, ◌≢◌, refl, ◌∙◌, ap, true, false, ◌==◌, if◌then◌else◌, Option, none, some,
  arith,
}
use raspberry3_mos.Pmap.{update, update-same, update-other}
use raspberry3_mos.Env.{ustacktop}
use raspberry3_mos.Fd.{Pte}
use raspberry3_mos.User.{
  Machine, gives, ◌>>◌, or_panic, pte_ro, user_perm, has_bit, set_entry, asked, mem_alloc, mem_map,
  mem_unmap,
}
use raspberry3_mos.User.Calls.{set_entry-at, mem_map-step, mem_alloc-step, mem_unmap-step}
use raspberry3_mos.User.Run.{>>=-step, or_panic-step}
use raspberry3_mos.Fork.{copy_page, is_read_only, replace_page, pgfault}

abbrev pub temporary : ℕ
temporary = ustacktop / 4096

-- The page `p` of the caller, which was the frame `e.frame`, is the frame `f` with the same bytes, and
-- may be written; nothing else has changed, but that the temporary page is not mapped.
pub record Copied (p f : ℕ) (e : Pte) (m t : Machine) : Type 0 where
  pub page : t.entry 0 p ≡ some (record { frame = f; perm = user_perm })
  pub writable : is_read_only (p * 4096) t ≡ false
  pub same_bytes : t.bytes f ≡ m.bytes e.frame
  pub temporary_gone : t.entry 0 temporary ≡ none
  pub pages : (q : ℕ) → q ≢ p → q ≢ temporary → t.entry 0 q ≡ m.entry 0 q
  pub others : (d : ℕ) → d ≢ 0 → t.entry d ≡ m.entry d
  pub bytes : (g : ℕ) → g ≢ f → t.bytes g ≡ m.bytes g

-- The states between the calls of `pgfault`
module _ (p f : ℕ) (m : Machine) where
  abbrev fresh : Option Pte
  fresh = some (record { frame = f; perm = user_perm })

  abbrev got : Machine
  got =
      set_entry 0 temporary fresh
        (let t = asked m in record t { bytes = update m.bytes f (λ o. 0) })

  abbrev filled : ℕ → Machine
  filled old = record got { bytes = update got.bytes f (got.bytes old) }

  abbrev moved : ℕ → Machine
  moved old = set_entry 0 p fresh (asked (filled old))

  abbrev replaced : ℕ → Machine
  replaced old = set_entry 0 temporary none (moved old)

own_entry-at :
    (p : ℕ) (e : Option Pte) (m : Machine) (q : ℕ)
    → (set_entry 0 p e m).entry 0 q ≡ (if q == p then e else m.entry 0 q)
own_entry-at p e m q = set_entry-at 0 p e m 0 q

copy_page-step :
    (src dst : ℕ) (e d : Pte) (m : Machine)
    → m.entry 0 (src / 4096) ≡ some e
    → m.entry 0 (dst / 4096) ≡ some d
    → copy_page src dst m ≡ gives tt (record m { bytes = update m.bytes d.frame (m.bytes e.frame) })
unfolding copy_page
copy_page-step src dst e d m h k = rw (copy_page, h) (rw k refl)

replaced-Copied :
    (p f : ℕ) (e : Pte) (m : Machine)
    → p ≢ temporary
    → e.frame ≢ f
    → Copied p f e m (replaced p f m e.frame)
replaced-Copied p f e m low diff =
    let s = filled p f m e.frame in
    let t = moved p f m e.frame in
    let off : (p == temporary) ≡ false = ground arith in
    let own : (p == p) ≡ true = ground arith in
    let page : (replaced p f m e.frame).entry 0 p ≡ fresh p f m =
      own_entry-at temporary none t p ∙ rw off (rw own refl) in
    let number : p * 4096 / 4096 ≡ p = omega arith in
    record {
      page = page;
      writable =
          ap (λ (o : Option Pte). elim o [ none ↦ false | some x ↦ has_bit x.perm pte_ro ])
            (ap ((replaced p f m e.frame).entry 0) number ∙ page);
      same_bytes =
          update-same (got p f m).bytes f f ((got p f m).bytes e.frame) refl
          ∙ update-other m.bytes f e.frame (λ o. 0) diff;
      temporary_gone = own_entry-at temporary none t temporary;
      pages = λ q a b.
          let not_page : (q == p) ≡ false = ground arith in
          let not_tmp : (q == temporary) ≡ false = ground arith in
          own_entry-at temporary none t q ∙ rw not_tmp (rw not_page refl);
      others = λ d a.
          update-other t.entry 0 d (update (t.entry 0) temporary none) a
          ∙ update-other s.entry 0 d (update (s.entry 0) p (fresh p f m)) a
          ∙ update-other m.entry 0 d (update (m.entry 0) temporary (fresh p f m)) a;
      bytes = λ g a.
          update-other (got p f m).bytes f g ((got p f m).bytes e.frame) a
          ∙ update-other m.bytes f g (λ o. 0) a;
    }

replace_page-step :
    (p f g : ℕ) (e : Pte) (m : Machine)
    → p ≢ temporary
    → m.known 0 ≡ true
    → m.entry 0 p ≡ some e
    → m.answer m.requests ≡ some f
    → m.answer (m.requests + 1) ≡ some g
    → replace_page (p * 4096) m ≡ gives tt (replaced p f m e.frame)
unfolding replace_page
replace_page-step p f g e m low known here first second =
    let va = p * 4096 in
    let number : va / 4096 ≡ p = omega arith in
    let off : (p == temporary) ≡ false = ground arith in
    let s = got p f m in
    let t = filled p f m e.frame in
    let u = moved p f m e.frame in
    let d : Pte = record { frame = f; perm = user_perm } in
    let old : s.entry 0 (va / 4096) ≡ some e =
      ap (s.entry 0) number ∙ own_entry-at temporary (some d) (asked m) p ∙ rw off here in
    let tmp : t.entry 0 (ustacktop / 4096) ≡ some d =
      own_entry-at temporary (some d) (asked m) temporary in
    let rest = or_panic (mem_map 0 ustacktop 0 va user_perm) >> or_panic (mem_unmap 0 ustacktop) in
    >>=-step (or_panic (mem_alloc 0 ustacktop user_perm)) (λ x. copy_page va ustacktop >> rest) m
      (or_panic-step (mem_alloc 0 ustacktop user_perm) m
        (mem_alloc-step 0 ustacktop user_perm f m known first))
    ∙ >>=-step (copy_page va ustacktop) (λ x. rest) s (copy_page-step va ustacktop e d s old tmp)
    ∙ >>=-step (or_panic (mem_map 0 ustacktop 0 va user_perm))
        (λ x. or_panic (mem_unmap 0 ustacktop)) t
        (or_panic-step (mem_map 0 ustacktop 0 va user_perm) t (
          mem_map-step 0 ustacktop 0 va user_perm g d t known known tmp second
          ∙ ap (λ (q : ℕ). gives tt (set_entry 0 q (some d) (asked t))) number))
    ∙ or_panic-step (mem_unmap 0 ustacktop) u (mem_unmap-step 0 ustacktop u known)

-- A page fault at `va` in a read-only page ends, where the kernel has memory for the two requests,
-- and leaves what `Copied` says: the page is a new frame with the bytes of the old one and may be
-- written, the old frame keeps its bytes for the others who share it, and what was mapped at the
-- temporary page `USTACKTOP`, if anything was, is not mapped any more. No page but these two, no frame but
-- the new one and no other environment has changed. The new frame is not the old one, and the page is
-- not the temporary one. The kernel knows the caller.
pub pgfault_lem :
    (va f g : ℕ) (e : Pte) (m : Machine)
    → va / 4096 ≢ temporary
    → m.known 0 ≡ true
    → m.entry 0 (va / 4096) ≡ some e
    → has_bit e.perm pte_ro ≡ true
    → m.answer m.requests ≡ some f
    → m.answer (m.requests + 1) ≡ some g
    → e.frame ≢ f
    → (t : Machine) × (pgfault va m ≡ gives tt t) × Copied (va / 4096) f e m t
unfolding pgfault
pgfault_lem va f g e m low known here ro first second diff =
    let p = va / 4096 in
    let read_only : is_read_only va m ≡ true =
      ap (λ (o : Option Pte). elim o [ none ↦ false | some x ↦ has_bit x.perm pte_ro ]) here ∙ ro in
    (
      replaced p f m e.frame,
      rw read_only (replace_page-step p f g e m low known here first second),
      replaced-Copied p f e m low diff,
    )
