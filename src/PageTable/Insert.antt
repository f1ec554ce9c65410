-- ===== src/PageTable/Insert.antt =====
-- `pgdir_walk` with `create`, and `page_insert` with `page_lookup` behind it.
use raspberry3_mos.Base.{
  ℕ, zero, suc, ◌+◌, ◌/◌, ◌%◌, ◌^◌, ◌<◌, ◌≡◌, ◌≢◌, refl, sym, subst, ◌∙◌, ap, ◌⊎◌, inl, inr, Bool,
  true, false, Option, none, some, bit_or, ◌==◌, Bool-cases, Option-cases, arith,
}
use raspberry3_mos.Pmap.{Kmem, update-same, page2kva, page_alloc, add_ref}
use raspberry3_mos.Pmap.Alloc.{is_used, page_alloc-Fresh}
use raspberry3_mos.PageTable.{
  is_valid, slot, Walk, entry, no_memory, absent, link_table, walk_levels, pgdir_walk, page_lookup,
  found_page, map_page, page_insert, write_entry, valid, pa2page,
}
use raspberry3_mos.PageTable.Frames.{
  frame, kaddr-pte_addr, is_valid-odd, InFrame, slot-InFrame, InFrame-ne, IsDescriptor,
  pa2page-entry, odd-entry,
}
use raspberry3_mos.PageTable.Reaches.{Reaches, walk_levels-Reaches, Reaches-update}
use raspberry3_mos.PageTable.Walked.{lookup-Reaches}
use raspberry3_mos.PageTable.Create.{add, Sound, Descriptors, Walked, Linked, link_table-Linked}

abbrev AllUsed : Kmem → (ℕ → Bool) → Type 0
AllUsed s seen = (g : ℕ) → seen g ≡ true → is_used s g ≡ true

Sound-head :
    (n level va f : ℕ) (s : Kmem) (seen : ℕ → Bool)
    → Sound n level va f s seen
    → (is_used s f ≡ true) × (seen f ≡ false)
Sound-head zero level va f s seen h = h
Sound-head (suc n) level va f s seen (u, w, v) = (u, w)

AllUsed-add :
    (s : Kmem) (seen : ℕ → Bool) (f : ℕ)
    → AllUsed s seen
    → is_used s f ≡ true
    → AllUsed s (add f seen)
AllUsed-add s seen f all u g m = elim (Bool-cases (g == f)) [
  | inl same ↦ let q : g ≡ f = ground arith in rw q u
  | inr other ↦ all g (rw other at m)
]

-- A new table is sound: it is empty.
Sound-new :
    (n level va f here pp : ℕ) (s u : Kmem) (seen : ℕ → Bool)
    → Linked va here pp s u
    → seen pp ≡ false
    → InFrame f here
    → f ≢ pp
    → Sound n level va pp u seen
Sound-new zero level va f here pp s u seen l new at_f ne = (l.used, new)
Sound-new (suc n) level va f here pp s u seen l new at_f ne = (
  l.used,
  new,
  λ on.
      let at_pp = slot-InFrame pp (level + 1) va in
      let apart = InFrame-ne pp f _ here (λ q. ne (sym q)) at_pp at_f in
      let off : is_valid 0 ≡ true = rw (l.empty _ apart at_pp) at on in cc,
)

-- One level of the walk: from the table `f` in the state `u` through a valid entry.
Walked-step :
    (n level va f pte : ℕ) (s u t : Kmem) (seen : ℕ → Bool)
    → is_valid (u.cell (slot (page2kva f) (level + 1) va)) ≡ true
    → Walked n
        (level + 1)
        va
        (frame (u.cell (slot (page2kva f) (level + 1) va)))
        pte
        u
        t
        (add f seen)
    → ((g : ℕ) → seen g ≡ true → (a : ℕ) → InFrame g a → u.cell a ≡ s.cell a)
    → ((q : ℕ) → (u.pages q).pa ≡ (s.pages q).pa)
    → ((q : ℕ) → is_used s q ≡ true → (is_used u q ≡ true) × ((u.pages q).ref ≡ (s.pages q).ref))
    → Walked (suc n) level va f pte s t seen
Walked-step n level va f pte s u t seen on w kept same_pa same_ref =
    let here = slot (page2kva f) (level + 1) va in
    let at_f = slot-InFrame f (level + 1) va in
    let same : t.cell here ≡ u.cell here = w.kept f (ground arith) here at_f in
    let apart : w.last ≢ f = ground (arith, w.last_new) in
    record {
      reaches = rw same (on, rw kaddr-pte_addr w.reaches);
      off = (InFrame-ne w.last f pte here apart w.last_in at_f, rw same (rw kaddr-pte_addr w.off));
      last = w.last;
      last_new = ground (arith, w.last_new);
      last_in = w.last_in;
      kept = λ g m a h. w.kept g (ground arith) a h ∙ kept g m a h;
      same_pa = λ q. w.same_pa q ∙ same_pa q;
      same_ref = λ q h. let (used, refs) = same_ref q h in w.same_ref q used ∙ refs;
    }

-- What `page_alloc` returns is none of the frames that are in use.
new_frame :
    (s : Kmem) (seen : ℕ → Bool) (f pp : ℕ)
    → AllUsed s seen
    → is_used s f ≡ true
    → is_used s pp ≡ false
    → (f ≢ pp) × (seen pp ≡ false) × (add f seen pp ≡ false)
new_frame s seen f pp all used free =
    let ne : f ≢ pp = λ q. let clash : is_used s pp ≡ true = rw (← q) used in cc in
    let unseen : seen pp ≡ false = elim (Bool-cases (seen pp)) [
      | inl m ↦ let clash : is_used s pp ≡ true = all pp m in cc
      | inr m ↦ m
    ] in
    (ne, unseen, ground arith)

walk-Walked :
    (n level va f pte : ℕ) (s t : Kmem) (seen : ℕ → Bool)
    → Descriptors s
    → AllUsed s seen
    → Sound n level va f s seen
    → walk_levels n true level va (page2kva f) s ≡ (entry pte, t)
    → Walked n level va f pte s t seen
unfolding walk_levels
walk-Walked zero level va f pte s t seen d all (used, new) e =
    let at_slot : slot (page2kva f) 3 va ≡ pte = cc in
    let same : s ≡ t = ap (λ r. r.1) e in
    record {
      reaches = at_slot;
      off = tt;
      last = f;
      last_new = new;
      last_in = rw (← at_slot) (slot-InFrame f 3 va);
      kept = λ g m a h. ap (λ k. k.cell a) (sym same);
      same_pa = λ q. ap (λ k. (k.pages q).pa) (sym same);
      same_ref = λ q h. ap (λ k. (k.pages q).ref) (sym same);
    }
walk-Walked (suc n) level va f pte s t seen d all (used, new, next) e =
    elim (Bool-cases (is_valid (s.cell (slot (page2kva f) (level + 1) va)))) [
      | inl on ↦
          let here = slot (page2kva f) (level + 1) va in
          let rest : walk_levels n true (level + 1) va (page2kva (frame (s.cell here))) s
              ≡ (entry pte, t) =
            rw (← kaddr-pte_addr (s.cell here)) (rw (on, walk_levels) at e) in
          Walked-step n level va f pte s s t seen on
            (walk-Walked n (level + 1) va (frame (s.cell here)) pte s t (add f seen) d
              (AllUsed-add s seen f all used) (next on) rest)
            (λ g m a h. refl) (λ q. refl) (λ q h. (h, refl))
      | inr off ↦ elim (Option-cases (page_alloc s)) [
        | inl failed ↦
            let stuck : ◌≡◌ {A = Walk × Kmem} (no_memory, s) (entry pte, t) =
              rw (off, failed, walk_levels) at e in
            let ends : no_memory ≡ entry pte = ap (λ r. r.0) stuck in cc
        | inr ((pp, u), got) ↦
            let here = slot (page2kva f) (level + 1) va in
            let at_f = slot-InFrame f (level + 1) va in
            let v = link_table va here pp u in
            let l = link_table-Linked va here pp s u d (page_alloc-Fresh s got) in
            let (ne, unseen, fresh) = new_frame s seen f pp all used l.was_free in
            let rest : walk_levels n true (level + 1) va (page2kva pp) v ≡ (entry pte, t) =
              rw (kaddr-pte_addr (v.cell here) ∙ ap page2kva l.names) at
                (rw (off, got, walk_levels) at e) in
            let kept : (g : ℕ) → seen g ≡ true → (a : ℕ) → InFrame g a → v.cell a ≡ s.cell a =
              λ g m a h.
                let apart : g ≢ f = λ q. let clash : seen f ≡ true = rw (← q) m in cc in
                let other : g ≢ pp = λ q. let clash : seen pp ≡ true = rw (← q) m in cc in
                l.kept g a (InFrame-ne g f a here apart h at_f) other h in
            Walked-step n level va f pte s v t seen l.is_on
              (rw l.names (
                walk-Walked n (level + 1) va pp pte v t (add f seen) (λ q h. rw (l.pages q) (d q h))
                  (AllUsed-add v seen f (λ g m. l.others g (all g m)) (l.others f used))
                  (Sound-new n (level + 1) va f here pp s v (add f seen) l fresh at_f ne) rest))
              kept l.pages
              (λ q h.
                (l.others q h, l.refs q (λ e. let clash : is_used s pp ≡ true = rw (← e) h in cc)))
      ]
    ]

pub pgdir_walk-Walked :
    (f pte va : ℕ) (s t : Kmem)
    → Descriptors s
    → Sound 2 0 va f s (λ g. false)
    → pgdir_walk (page2kva f) va true s ≡ (entry pte, t)
    → Walked 2 0 va f pte s t (λ g. false)
unfolding pgdir_walk
pgdir_walk-Walked f pte va s t d sound e =
    walk-Walked 2 0 va f pte s t (λ g. false) d (λ g m. cc) sound e

map_page-ok :
    (pgdir pp va perm : ℕ) (s t : Kmem)
    → map_page pgdir pp va perm s ≡ (true, t)
    → (pte : ℕ) × (u : Kmem) × (pgdir_walk pgdir va true s ≡ (entry pte, u))
      × (add_ref pp (write_entry pte pp perm u) ≡ t)
unfolding map_page
map_page-ok pgdir pp va perm s t e = go (pgdir_walk pgdir va true s) refl
  where
    go :
        (r : Walk × Kmem)
        → pgdir_walk pgdir va true s ≡ r
        → (pte : ℕ) × (u : Kmem) × (pgdir_walk pgdir va true s ≡ (entry pte, u))
          × (add_ref pp (write_entry pte pp perm u) ≡ t)
    go (entry pte, u) q =
        let made : (true, add_ref pp (write_entry pte pp perm u)) ≡ (true, t) =
          rw (q, map_page) at e in
        (pte, u, q, ap (λ r. r.1) made)
    go (no_memory, u) q =
        let failed : ◌≡◌ {A = Bool × Kmem} (false, u) (true, t) = rw (q, map_page) at e in
        let clash : false ≡ true = ap (λ r. r.0) failed in cc
    go (absent, u) q =
        let failed : ◌≡◌ {A = Bool × Kmem} (false, u) (true, t) = rw (q, map_page) at e in
        let clash : false ≡ true = ap (λ r. r.0) failed in cc

pub found-entry :
    (f pte va : ℕ) (k : Kmem)
    → Reaches 2 0 va (page2kva f) k.cell pte
    → 0 < pte
    → is_valid (k.cell pte) ≡ true
    → page_lookup (page2kva f) va k ≡ some (pa2page (k.cell pte), pte)
unfolding page_lookup pgdir_walk found_page
found-entry f pte va k r pos on =
    let far : (pte == 0) ≡ false = ground arith in
    let walked = walk_levels-Reaches 2 0 va (page2kva f) pte k false r in rw walked (rw (far, on))

pub InFrame-pos : (f a : ℕ) → InFrame f a → 0 < a
unfolding page2kva
InFrame-pos f a h = omega arith

-- The entry that `page_insert` writes at the end of its walk.
lookup-written :
    (f pp va perm pte : ℕ) (s u k : Kmem)
    → Walked 2 0 va f pte s u (λ g. false)
    → IsDescriptor pp (u.pages pp).pa
    → perm / 4096 % 2 ^ 20 ≡ 0
    → k.cell ≡ (write_entry pte pp perm u).cell
    → page_lookup (page2kva f) va k ≡ some (pp, pte)
unfolding write_entry
lookup-written f pp va perm pte s u k w own flags cells =
    let value = bit_or (u.pages pp).pa (bit_or perm valid) in
    let written : k.cell pte ≡ value =
      ap (λ (c : ℕ → ℕ). c pte) cells ∙ update-same u.cell pte pte value refl in
    let on : is_valid (k.cell pte) ≡ true = rw written (is_valid-odd value (odd-entry own perm)) in
    let path : Reaches 2 0 va (page2kva f) k.cell pte =
      rw cells (Reaches-update 2 0 va (page2kva f) pte u.cell pte value w.reaches w.off) in
    found-entry f pte va k path (InFrame-pos w.last pte w.last_in) on
    ∙ ap (λ q. some (q, pte)) (ap pa2page written ∙ pa2page-entry own perm flags)

-- What `page_insert` leaves at an address where `page_lookup` found `before`.
abbrev pub Inserted : ℕ → ℕ → ℕ → ℕ → Option (ℕ × ℕ) → Kmem → Kmem → Type 0
Inserted f pp va perm before s t =
    (pte : ℕ) × (page_lookup (page2kva f) va t ≡ some (pp, pte))
    × (t.cell pte ≡ bit_or (s.pages pp).pa (bit_or perm valid))
    × ((t.pages pp).ref
        ≡ elim before [ none ↦ ((s.pages pp).ref + 1) % 2 ^ 32 | some found ↦ (s.pages pp).ref ])

-- An address that is mapped to nothing.
insert_new :
    (f pp va perm : ℕ) (s t : Kmem)
    → Descriptors s
    → Sound 2 0 va f s (λ g. false)
    → is_used s pp ≡ true
    → pp < 2 ^ 18
    → perm / 4096 % 2 ^ 20 ≡ 0
    → page_lookup (page2kva f) va s ≡ none
    → page_insert (page2kva f) pp va perm s ≡ (true, t)
    → Inserted f pp va perm none s t
unfolding page_insert add_ref write_entry
insert_new f pp va perm s t d sound used small flags free e =
    let (pte, u, walked, made) =
      map_page-ok (page2kva f) pp va perm s t (rw (free, page_insert) at e) in
    let w = pgdir_walk-Walked f pte va s u d sound walked in
    let own : IsDescriptor pp (u.pages pp).pa = rw (w.same_pa pp) (d pp small) in
    subst (λ (k : Kmem). Inserted f pp va perm none s k) made
      (
        pte,
        lookup-written f pp va perm pte s u (add_ref pp (write_entry pte pp perm u)) w own flags
            refl,
        ground (arith, w.same_pa pp),
        ground (arith, w.same_ref pp used),
      )

-- An address that is mapped to the page already.
insert_again :
    (f pp va perm old : ℕ) (s t : Kmem)
    → Descriptors s
    → Sound 2 0 va f s (λ g. false)
    → pp < 2 ^ 18
    → perm / 4096 % 2 ^ 20 ≡ 0
    → page_lookup (page2kva f) va s ≡ some (pp, old)
    → page_insert (page2kva f) pp va perm s ≡ (true, t)
    → Inserted f pp va perm (some (pp, old)) s t
unfolding page_insert write_entry pgdir_walk
insert_again f pp va perm old s t d sound small flags there e =
    let path = lookup-Reaches (page2kva f) va pp old s there in
    let walked = walk_levels-Reaches 2 0 va (page2kva f) old s true path in
    let w = pgdir_walk-Walked f old va s s d sound walked in
    let own : (pp == pp) ≡ true = ground arith in
    let result : (true, write_entry old pp perm s) ≡ (true, t) =
      rw (there, own, page_insert) at e in
    let made : write_entry old pp perm s ≡ t = ap (λ r. r.1) result in
    subst (λ (k : Kmem). Inserted f pp va perm (some (pp, old)) s k) made
      (
        old,
        lookup-written f pp va perm old s s (write_entry old pp perm s) w (d pp small) flags refl,
        update-same s.cell old old _ refl,
        refl,
      )

-- `page_insert` of a page in use, one of the 2 ^ 18, at an address that is mapped to nothing or to this page already:
-- where it succeeds, `page_lookup` then finds the page there, the entry holds its descriptor with the
-- new permissions and VALID, and the page has one more reference, modulo 2 ^ 32, if nothing was mapped,
-- and as many as before if it was mapped. The tables on the way are allocated frames, each another one
-- than those before it, the descriptors name their frames, and the permissions lie outside the frame
-- bits.
pub page_lookup-page_insert :
    (f pp va perm : ℕ) (s t : Kmem)
    → Descriptors s
    → Sound 2 0 va f s (λ g. false)
    → is_used s pp ≡ true
    → pp < 2 ^ 18
    → perm / 4096 % 2 ^ 20 ≡ 0
    → (page_lookup (page2kva f) va s ≡ none)
      ⊎ ((old : ℕ) × (page_lookup (page2kva f) va s ≡ some (pp, old)))
    → page_insert (page2kva f) pp va perm s ≡ (true, t)
    → Inserted f pp va perm (page_lookup (page2kva f) va s) s t
page_lookup-page_insert f pp va perm s t d sound used small flags (inl free) e =
    rw free (insert_new f pp va perm s t d sound used small flags free e)
page_lookup-page_insert f pp va perm s t d sound used small flags (inr (old, there)) e =
    rw there (insert_again f pp va perm old s t d sound small flags there e)
