-- ===== src/Serve/Table.antt =====
-- The table of open files (fs/serv.c): `serve_init`, `open_alloc` and `open_lookup`.
use raspberry3_mos.Base.{
  ℕ, zero, suc, ◌+◌, ◌%◌, ◌^◌, ◌≤◌, ◌<◌, ◌≡◌, ◌≢◌, refl, sym, subst, ◌∙◌, ap, ◌⊎◌, inl, inr, true,
  false, ◌||◌, ltb, ◌==◌, not, if◌then◌else◌, Bool-cases, arith,
}
use raspberry3_mos.Pmap.{update, update-same, update-other}
use raspberry3_mos.Fs.{e_unspecified}
use raspberry3_mos.Serve.{
  e_max_open, maxopen, fileva, Filefd, Open, Server, init_table, serve_init, blank_page, entry,
  refused, take_entry, add_page, open_from, open_alloc, open_lookup,
}

-- The low part of each file id is the index of its entry.
abbrev pub Tagged : (ℕ → Open) → Type 0
Tagged tab = (i : ℕ) → i < maxopen → (tab i).o_fileid % maxopen ≡ i

init_table-below : (n i va j : ℕ) (tab : ℕ → Open) → j < i → init_table n i va tab j ≡ tab j
unfolding init_table
init_table-below zero i va j tab h = refl
init_table-below (suc n) i va j tab h =
    init_table-below n (i + 1) ((va + 4096) % 2 ^ 32) j
      (update tab i (let o = tab i in record o { o_fileid = i; o_ff = va })) (omega arith)
    ∙ update-other tab i j _ (omega arith)

-- The loop of `serve_init` sets the entries that it passes.
init_table-at :
    (n i va j : ℕ) (tab : ℕ → Open) → i ≤ j → j < i + n → (init_table n i va tab j).o_fileid ≡ j
unfolding init_table
init_table-at zero i va j tab h l = absurd (omega arith)
init_table-at (suc n) i va j tab h l = elim (Bool-cases (j == i)) [
  | inl same ↦
      let q : j ≡ i = ground arith in
      ap (λ (o : Open). o.o_fileid) (init_table-below n (i + 1) _ j _ (omega arith))
      ∙ ap (λ (o : Open). o.o_fileid) (update-same tab i j _ q)
      ∙ sym q
  | inr other ↦ init_table-at n (i + 1) _ j _ (ground arith) (omega arith)
]

-- What `open_alloc` leaves where it returns the entry `i`.
pub record Taken (sv : Server) (i : ℕ) (t : Server) : Type 0 where
  pub inside : i < maxopen
  pub unused : sv.refs i < 2
  pub first : (j : ℕ) → j < i → 2 ≤ sv.refs j
  pub counted : t.refs i ≡ 1
  pub fileid : (t.opentab i).o_fileid ≡ ((sv.opentab i).o_fileid + maxopen) % 2 ^ 32
  pub cleared : t.ff i ≡ blank_page
  pub others :
      (j : ℕ) → j ≢ i → (t.opentab j ≡ sv.opentab j) × (t.ff j ≡ sv.ff j) × (t.refs j ≡ sv.refs j)

-- The first entry, from `i` on, whose page is mapped in the server at most, or none among `n`
abbrev Opens : ℕ → ℕ → Server → Type 0
Opens n i sv =
    ((j : ℕ) × (open_from n i sv
        ≡ (if sv.refs j == 0 then add_page j sv else entry j (take_entry j sv)))
      × (i ≤ j)
      × (j < i + n)
      × (sv.refs j < 2)
      × ((k : ℕ) → i ≤ k → k < j → 2 ≤ sv.refs k))
    ⊎ ((open_from n i sv ≡ refused e_max_open sv) × ((k : ℕ) → i ≤ k → k < i + n → 2 ≤ sv.refs k))

one_more :
    (i c : ℕ) (sv : Server)
    → 2 ≤ sv.refs i
    → ((k : ℕ) → i + 1 ≤ k → k < c → 2 ≤ sv.refs k)
    → (k : ℕ) → i ≤ k
    → k < c
    → 2 ≤ sv.refs k
one_more i c sv used first k h l = elim (Bool-cases (k == i)) [
  | inl same ↦ let q : k ≡ i = ground arith in subst (λ (m : ℕ). 2 ≤ sv.refs m) (sym q) used
  | inr other ↦ first k (ground arith) l
]

open_from-Opens : (n i : ℕ) (sv : Server) → Opens n i sv
unfolding open_from
open_from-Opens zero i sv = inr (refl, λ k h l. absurd (omega arith))
open_from-Opens (suc n) i sv = elim (Bool-cases (ltb (sv.refs i) 2)) [
  | inl free ↦
      inl (i, ground arith, omega arith, omega arith, ground arith, λ k h l. absurd (omega arith))
  | inr used ↦ later (ground arith) (open_from-Opens n (i + 1) sv)
]
  where
    skips : 2 ≤ sv.refs i → open_from (suc n) i sv ≡ open_from n (i + 1) sv
    skips used = ground arith

    later : 2 ≤ sv.refs i → Opens n (i + 1) sv → Opens (suc n) i sv
    later used (inl (j, run, low, high, free, first)) =
        inl (j, skips used ∙ run, omega arith, omega arith, free, one_more i j sv used first)
    later used (inr (run, full)) =
        inr (skips used ∙ run, λ k h l. one_more i (i + 1 + n) sv used full k h (omega arith))

take_entry-Taken :
    (i : ℕ) (sv t : Server)
    → i < maxopen
    → sv.refs i < 2
    → ((j : ℕ) → j < i → 2 ≤ sv.refs j)
    → t.opentab ≡ sv.opentab
    → t.ff ≡ sv.ff
    → t.refs i ≡ 1
    → ((j : ℕ) → j ≢ i → t.refs j ≡ sv.refs j)
    → Taken sv i (take_entry i t)
unfolding take_entry
take_entry-Taken i sv t inside unused first tab pages counted others = record {
  inside = inside;
  unused = unused;
  first = first;
  counted = counted;
  fileid =
      ap (λ (o : Open). o.o_fileid) (update-same t.opentab i i _ refl)
      ∙ ap (λ (f : ℕ → Open). ((f i).o_fileid + maxopen) % 2 ^ 32) tab;
  cleared = update-same t.ff i i blank_page refl;
  others = λ j ne. (
    update-other t.opentab i j _ ne ∙ ap (λ (f : ℕ → Open). f j) tab,
    update-other t.ff i j _ ne ∙ ap (λ (f : ℕ → Filefd). f j) pages,
    others j ne,
  );
}

-- What `open_alloc` leaves where the kernel has no page for the entry `i`.
pub record Denied (sv : Server) (i : ℕ) (t : Server) : Type 0 where
  pub unmapped : sv.refs i ≡ 0
  pub denied : sv.fs.grants sv.fs.requests ≡ false
  pub first : (j : ℕ) → j < i → 2 ≤ sv.refs j
  pub opentab : t.opentab ≡ sv.opentab
  pub ff : t.ff ≡ sv.ff
  pub refs : t.refs ≡ sv.refs

-- The server once it has asked the kernel for a page
abbrev asked : Server → Server
asked sv = let fs = sv.fs in record sv { fs = record fs { requests = fs.requests + 1 } }

abbrev given : ℕ → Server → Server
given i sv = let t = asked sv in record t { refs = update sv.refs i 1 }

-- `open_alloc` takes the first entry whose page no client has mapped, gives it a new file id and a
-- blank page, and changes no other entry. It fails with the kernel's error where that entry has no
-- page and the kernel has none, and with -E_MAX_OPEN, changing nothing, where there is no such entry.
pub open_alloc_lem :
    (sv : Server)
    → ((i : ℕ) × (t : Server) × (open_alloc sv ≡ entry i t) × Taken sv i t)
      ⊎ (((i : ℕ) × (t : Server) × (open_alloc sv ≡ refused e_unspecified t) × Denied sv i t)
          ⊎ ((open_alloc sv ≡ refused e_max_open sv) × ((i : ℕ) → i < maxopen → 2 ≤ sv.refs i)))
unfolding open_alloc add_page
open_alloc_lem sv = by_cases (open_from-Opens maxopen 0 sv)
  where
    by_cases :
        Opens maxopen 0 sv
        → ((i : ℕ) × (t : Server) × (open_from maxopen 0 sv ≡ entry i t) × Taken sv i t)
          ⊎ (((i : ℕ) × (t : Server) × (open_from maxopen 0 sv ≡ refused e_unspecified t)
                × Denied sv i t)
              ⊎ ((open_from maxopen 0 sv ≡ refused e_max_open sv)
                  × ((i : ℕ) → i < maxopen → 2 ≤ sv.refs i)))
    by_cases (inr (run, full)) = inr (inr (run, λ i l. full i (omega arith) (omega arith)))
    by_cases (inl (i, run, low, high, free, first)) =
        let before : (j : ℕ) → j < i → 2 ≤ sv.refs j = λ j l. first j (omega arith) l in
        elim (Bool-cases (sv.refs i == 0)) [
          | inr mapped ↦ inl (
            i,
            take_entry i sv,
            run ∙ rw mapped refl,
            take_entry-Taken i sv sv (omega arith) free before refl refl (ground arith)
                (λ j ne. refl),
          )
          | inl unmapped ↦ elim (Bool-cases (sv.fs.grants sv.fs.requests)) [
            | inl granted ↦ inl (
              i,
              take_entry i (given i sv),
              run ∙ rw unmapped (rw granted refl),
              take_entry-Taken i sv (given i sv) (omega arith) free before refl refl
                  (update-same sv.refs i i 1 refl) (λ j ne. update-other sv.refs i j 1 ne),
            )
            | inr denied ↦ inr (
                inl (
                  i,
                  asked sv,
                  run ∙ rw unmapped (rw denied refl),
                  record {
                    unmapped = ground arith;
                    denied = denied;
                    first = before;
                    opentab = refl;
                    ff = refl;
                    refs = refl;
                  },
                ))
          ]
        ]

init_table-tagged :
    (n va i : ℕ) (tab : ℕ → Open)
    → i < n
    → n ≤ maxopen
    → (init_table n 0 va tab i).o_fileid % maxopen ≡ i
init_table-tagged n va i tab l h =
    let set = init_table-at n 0 va i tab (omega arith) (omega arith) in omega (arith, set)

pub serve_init-Tagged : (sv : Server) → Tagged (serve_init sv).opentab
unfolding serve_init
serve_init-Tagged sv i l = init_table-tagged maxopen fileva i sv.opentab l (omega arith)

Taken-Tagged : (sv t : Server) (i : ℕ) → Tagged sv.opentab → Taken sv i t → Tagged t.opentab
Taken-Tagged sv t i tags took j l = elim (Bool-cases (j == i)) [
  | inl same ↦
      let q : j ≡ i = ground arith in
      let old : (sv.opentab i).o_fileid % maxopen ≡ i = tags i took.inside in
      let new = took.fileid in
      let index : (t.opentab i).o_fileid % maxopen ≡ i = omega (arith, old, new) in
      subst (λ (k : ℕ). (t.opentab k).o_fileid % maxopen ≡ k) (sym q) index
  | inr other ↦ ap (λ (o : Open). o.o_fileid % maxopen) (took.others j (ground arith)).0 ∙ tags j l
]

lookup-at :
    (fileid i : ℕ) (sv : Server)
    → fileid % maxopen ≡ i
    → open_lookup fileid sv ≡ (
        if (sv.refs i == 1) || not ((sv.opentab i).o_fileid == fileid)
        then (false, 0)
        else (true, i))
unfolding open_lookup
lookup-at fileid i sv h =
    ap
      (λ (k : ℕ).
        if (sv.refs k == 1) || not ((sv.opentab k).o_fileid == fileid)
        then (false, 0)
        else (true, k))
      h

Taken-lookup :
    (sv t : Server) (i : ℕ) (refs : ℕ → ℕ)
    → Tagged sv.opentab
    → Taken sv i t
    → 2 ≤ refs i
    → (open_lookup (t.opentab i).o_fileid (record t { refs = refs }) ≡ (true, i))
      × (open_lookup (sv.opentab i).o_fileid (record t { refs = refs }) ≡ (false, 0))
Taken-lookup sv t i refs tags took shared =
    let new : (t.opentab i).o_fileid % maxopen ≡ i = Taken-Tagged sv t i tags took i took.inside in
    let mapped : (refs i == 1) ≡ false = ground arith in
    let moved = took.fileid in
    let same : ((t.opentab i).o_fileid == (t.opentab i).o_fileid) ≡ true = ground arith in
    let differs : ((t.opentab i).o_fileid == (sv.opentab i).o_fileid) ≡ false =
      ground (arith, moved) in
    (
      lookup-at _ i (record t { refs = refs }) new ∙ rw mapped (rw same refl),
      lookup-at _ i (record t { refs = refs }) (tags i took.inside) ∙ rw mapped (rw differs refl),
    )

open_alloc-Taken : (sv t : Server) (i : ℕ) → open_alloc sv ≡ entry i t → Taken sv i t
open_alloc-Taken sv t i e = by_result (open_alloc_lem sv)
  where
    by_result :
        ((j : ℕ) × (u : Server) × (open_alloc sv ≡ entry j u) × Taken sv j u)
          ⊎ (((j : ℕ) × (u : Server) × (open_alloc sv ≡ refused e_unspecified u) × Denied sv j u)
              ⊎ ((open_alloc sv ≡ refused e_max_open sv) × ((j : ℕ) → j < maxopen → 2 ≤ sv.refs j)))
        → Taken sv i t
    by_result (inl (j, u, run, made)) =
        let index : j ≡ i = cc in
        let state : u ≡ t = cc in
        subst (λ (k : ℕ). Taken sv k t) index (subst (λ (v : Server). Taken sv j v) state made)
    by_result (inr (inl (j, u, run, no_page))) = absurd cc
    by_result (inr (inr (run, full))) = absurd cc

-- Where the file ids stand for the entries, as `serve_init` makes them, and a client has mapped the
-- page of the entry that `open_alloc` returned, `open_lookup` finds the entry under its new file id
-- and refuses the old one; the ids still stand for the entries.
pub open_lookup-open_alloc :
    (sv t : Server) (i : ℕ) (refs : ℕ → ℕ)
    → Tagged sv.opentab
    → open_alloc sv ≡ entry i t
    → 2 ≤ refs i
    → (open_lookup (t.opentab i).o_fileid (record t { refs = refs }) ≡ (true, i))
      × (open_lookup (sv.opentab i).o_fileid (record t { refs = refs }) ≡ (false, 0))
      × Tagged t.opentab
open_lookup-open_alloc sv t i refs tags run shared =
    let took = open_alloc-Taken sv t i run in
    let found = Taken-lookup sv t i refs tags took shared in
    (found.0, found.1, Taken-Tagged sv t i tags took)
