-- ===== src/Pipe/Made.antt =====
-- What `pipe` (user/pipe.c) leaves: two descriptors over one ring, or none of it.
use raspberry3_mos.Base.{
  ℕ, ◌+◌, ◌-◌, ◌*◌, ◌/◌, ◌%◌, ◌^◌, ◌<◌, ◌≡◌, ◌≢◌, refl, ◌∙◌, ap, Bool, true, false, if◌then◌else◌,
  Option, some, arith,
}
use raspberry3_mos.Pmap.{update, update-same, update-other}
use raspberry3_mos.Pmap.Zero.{within}
use raspberry3_mos.Fd.{Pte, index2fd, fd2num, fd2data, fdtable, filebase, maxfd}
use raspberry3_mos.Files.Opens.{index2fd_lem, fd2num_lem, fd2data_lem}
use raspberry3_mos.User.{
  Machine, Result, gives, refuses, panics, M, pure, ◌>>◌, set_entry, asked, mem_alloc, mem_map,
}
use raspberry3_mos.User.Run.{>>=-step}
use raspberry3_mos.User.Calls.{mem_map-step, mem_alloc-step}
use raspberry3_mos.Pipe.Create.{
  pipe_perm, dev_pipe, free_fd, fd_or, end_at, store_u32, drop, alloc_end, set_ends, join_ends,
  pipe,
}

abbrev pub mapped_to : ℕ → Option Pte
mapped_to f = some (record { frame = f; perm = pipe_perm })

-- A page of zeros at an address of the caller
abbrev pub with_page : ℕ → ℕ → Machine → Machine
with_page va f m =
    set_entry 0 (va / 4096) (mapped_to f)
      (let t = asked m in record t { bytes = update m.bytes f (λ o. 0) })

abbrev stored : ℕ → ℕ → ℕ → Machine → Machine
stored f start v m = record m {
  bytes =
      update m.bytes f
        (λ o. if within o start (start + 4) then v / 2 ^ (8 * (o - start)) % 256 else m.bytes f o);
}

store_u32-step :
    (va v f : ℕ) (m : Machine)
    → m.entry 0 (va / 4096) ≡ mapped_to f
    → store_u32 va v m ≡ gives tt (stored f (va % 4096) v m)
unfolding store_u32
store_u32-step va v f m h = rw (store_u32, h) refl

drop-step : (call : M (Unit {0})) (m t : Machine) → call m ≡ gives tt t → drop call m ≡ gives tt t
drop-step call m t h = ap settle h
  where
    settle : Result (Unit {0}) → Result (Unit {0})
    settle r = elim r [ gives x u ↦ gives tt u | refuses e u ↦ gives tt u | panics ↦ panics ]

end_at-step :
    (fd f : ℕ) (m : Machine)
    → m.known 0 ≡ true
    → m.answer m.requests ≡ some f
    → end_at fd m ≡ gives (true, fd) (with_page fd f m)
unfolding end_at
end_at-step fd f m caller first = ap settle (mem_alloc-step 0 fd pipe_perm f m caller first)
  where
    settle : Result (Unit {0}) → Result (Bool × ℕ)
    settle r = elim r [
      | gives x t ↦ gives (true, fd) t
      | refuses e t ↦ gives (false, fd) t
      | panics ↦ panics
    ]

alloc_end-step :
    (unset fd f : ℕ) (m : Machine)
    → m.known 0 ≡ true
    → free_fd (maxfd - 1) 0 m ≡ some fd
    → m.answer m.requests ≡ some f
    → alloc_end unset m ≡ gives (true, fd) (with_page fd f m)
unfolding alloc_end
alloc_end-step unset fd f m caller free first =
    ap (λ (o : Option ℕ). end_at (fd_or unset o) m) free ∙ end_at-step fd f m caller first

-- The four stores to the descriptors
abbrev marked : ℕ → ℕ → ℕ → ℕ → Machine → Machine
marked fd0 fd1 f0 f1 m = stored f1 ((fd1 + 16) % 4096) 1 (
    stored f1 (fd1 % 4096) dev_pipe
      (stored f0 ((fd0 + 16) % 4096) 0 (stored f0 (fd0 % 4096) dev_pipe m)))

set_ends-step :
    (fd0 fd1 f0 f1 : ℕ) (m : Machine)
    → fd0 % 4096 ≡ 0
    → fd1 % 4096 ≡ 0
    → m.entry 0 (fd0 / 4096) ≡ mapped_to f0
    → m.entry 0 (fd1 / 4096) ≡ mapped_to f1
    → set_ends fd0 fd1 m ≡ gives tt (marked fd0 fd1 f0 f1 m)
unfolding set_ends
set_ends-step fd0 fd1 f0 f1 m page0 page1 h0 h1 =
    let a = stored f0 (fd0 % 4096) dev_pipe m in
    let b = stored f0 ((fd0 + 16) % 4096) 0 a in
    let c = stored f1 (fd1 % 4096) dev_pipe b in
    let near0 : (fd0 + 16) / 4096 ≡ fd0 / 4096 = omega arith in
    let near1 : (fd1 + 16) / 4096 ≡ fd1 / 4096 = omega arith in
    let last = store_u32 (fd1 + 16) 1 in
    >>=-step (store_u32 fd0 dev_pipe)
      (λ x. store_u32 (fd0 + 16) 0 >> (store_u32 fd1 dev_pipe >> last)) m
      (store_u32-step fd0 dev_pipe f0 m h0)
    ∙ >>=-step (store_u32 (fd0 + 16) 0) (λ x. store_u32 fd1 dev_pipe >> last) a
        (store_u32-step (fd0 + 16) 0 f0 a (ap (m.entry 0) near0 ∙ h0))
    ∙ >>=-step (store_u32 fd1 dev_pipe) (λ x. last) b (store_u32-step fd1 dev_pipe f1 b h1)
    ∙ store_u32-step (fd1 + 16) 1 f1 c (ap (m.entry 0) near1 ∙ h1)

-- The process behind `pipe`, for the frames `f0` and `f1` of the descriptors and `f` of the ring
module _ (fd0 fd1 f0 f1 f : ℕ) (m : Machine) where
  abbrev pub ended : Machine
  ended = with_page fd1 f1 (with_page fd0 f0 m)

  abbrev ring : Machine
  ring = with_page (fd2data fd0) f ended

  abbrev joined : Machine
  joined = set_entry 0 (fd2data fd1 / 4096) (mapped_to f) (asked ring)

-- Two descriptors over the ring `f`, which is empty: the first is to read, the second to write.
pub record PipeMade (fd0 fd1 f0 f1 f : ℕ) (t : Machine) : Type 0 where
  pub first : t.entry 0 (fd0 / 4096) ≡ mapped_to f0
  pub second : t.entry 0 (fd1 / 4096) ≡ mapped_to f1
  pub first_data : t.entry 0 (fd2data fd0 / 4096) ≡ mapped_to f
  pub second_data : t.entry 0 (fd2data fd1 / 4096) ≡ mapped_to f
  pub empty : (o : ℕ) → t.bytes f o ≡ 0
  pub read_mode : t.bytes f0 16 ≡ 0
  pub write_mode : t.bytes f1 16 ≡ 1
  pub devices : (t.bytes f0 0 ≡ dev_pipe) × (t.bytes f1 0 ≡ dev_pipe)

-- Four entries set one behind the other, the last two to the same
entries_set :
    {A : Type 0} (e : ℕ → A) (p0 p1 q0 q1 : ℕ) (x0 x1 x : A)
    → p0 ≢ p1
    → p0 ≢ q0
    → p0 ≢ q1
    → p1 ≢ q0
    → p1 ≢ q1
    → q0 ≢ q1
    → (update (update (update (update e p0 x0) p1 x1) q0 x) q1 x p0 ≡ x0)
      × (update (update (update (update e p0 x0) p1 x1) q0 x) q1 x p1 ≡ x1)
      × (update (update (update (update e p0 x0) p1 x1) q0 x) q1 x q0 ≡ x)
      × (update (update (update (update e p0 x0) p1 x1) q0 x) q1 x q1 ≡ x)
entries_set e p0 p1 q0 q1 x0 x1 x a b c d f g =
    let u0 = update e p0 x0 in
    let u1 = update u0 p1 x1 in
    let u2 = update u1 q0 x in
    (
      update-other u2 q1 p0 x c
          ∙ update-other u1 q0 p0 x b
          ∙ update-other u0 p1 p0 x1 a
          ∙ update-same e p0 p0 x0 refl,
      update-other u2 q1 p1 x f ∙ update-other u1 q0 p1 x d ∙ update-same u0 p1 p1 x1 refl,
      update-other u2 q1 q0 x g ∙ update-same u1 q0 q0 x refl,
      update-same u2 q1 q1 x refl,
    )

-- What the stores leave in the three frames
marked-bytes :
    (fd0 fd1 f0 f1 f : ℕ) (m : Machine)
    → fd0 % 4096 ≡ 0
    → fd1 % 4096 ≡ 0
    → f0 ≢ f1
    → f0 ≢ f
    → f1 ≢ f
    → ((marked fd0 fd1 f0 f1 m).bytes f ≡ m.bytes f)
      × ((marked fd0 fd1 f0 f1 m).bytes f0 16 ≡ 0)
      × ((marked fd0 fd1 f0 f1 m).bytes f1 16 ≡ 1)
      × ((marked fd0 fd1 f0 f1 m).bytes f0 0 ≡ dev_pipe)
      × ((marked fd0 fd1 f0 f1 m).bytes f1 0 ≡ dev_pipe)
marked-bytes fd0 fd1 f0 f1 f m page0 page1 ne01 ne0 ne1 =
    let mode0 : (fd0 + 16) % 4096 ≡ 16 = omega arith in
    let mode1 : (fd1 + 16) % 4096 ≡ 16 = omega arith in
    rw (page0, page1, mode0, mode1)
      (ground arith, ground arith, ground arith, ground arith, ground arith)

-- Two descriptors with memory for both and the ring: the requests are those of the two descriptors,
-- the ring, and the ring at its second address.
join_ends-PipeMade :
    (k0 k1 f0 f1 f g : ℕ) (m : Machine)
    → k0 < 32
    → k1 < 32
    → k0 ≢ k1
    → f0 ≢ f1
    → f0 ≢ f
    → f1 ≢ f
    → m.known 0 ≡ true
    → m.answer (m.requests + 1 + 1) ≡ some f
    → m.answer (m.requests + 1 + 1 + 1) ≡ some g
    → (t : Machine) × (join_ends
          (index2fd k0)
          (index2fd k1)
          (ended (index2fd k0) (index2fd k1) f0 f1 f m)
        ≡ gives (some (k0, k1)) t)
      × PipeMade (index2fd k0) (index2fd k1) f0 f1 f t
unfolding join_ends
join_ends-PipeMade k0 k1 f0 f1 f g m low0 low1 ne ne01 ne0 ne1 caller third fourth =
    let fd0 = index2fd k0 in
    let fd1 = index2fd k1 in
    let va0 = fd2data fd0 in
    let va1 = fd2data fd1 in
    let at0 : fd0 ≡ fdtable + k0 * 4096 = index2fd_lem k0 low0 in
    let at1 : fd1 ≡ fdtable + k1 * 4096 = index2fd_lem k1 low1 in
    let data0 : va0 ≡ filebase + k0 * 2 ^ 30 = fd2data_lem k0 low0 in
    let data1 : va1 ≡ filebase + k1 * 2 ^ 30 = fd2data_lem k1 low1 in
    let s = ended fd0 fd1 f0 f1 f m in
    let r = ring fd0 fd1 f0 f1 f m in
    let j = joined fd0 fd1 f0 f1 f m in
    let t = marked fd0 fd1 f0 f1 j in
    let (h0, h1, h2, h3) =
      entries_set (m.entry 0) (fd0 / 4096) (fd1 / 4096) (va0 / 4096) (va1 / 4096) (mapped_to f0)
        (mapped_to f1) (mapped_to f) (omega arith) (omega arith) (omega arith) (omega arith)
        (omega arith) (omega arith) in
    let page0 : fd0 % 4096 ≡ 0 = omega arith in
    let page1 : fd1 % 4096 ≡ 0 = omega arith in
    let (rest, b0, b1, c0, c1) = marked-bytes fd0 fd1 f0 f1 f j page0 page1 ne01 ne0 ne1 in
    let alloc = mem_alloc 0 va0 pipe_perm in
    let map = mem_map 0 va0 0 va1 pipe_perm in
    let numbers = some (fd2num fd0, fd2num fd1) in
    let d : Pte = record { frame = f; perm = pipe_perm } in
    let here : r.entry 0 (va0 / 4096) ≡ some d =
      update-same (s.entry 0) (va0 / 4096) (va0 / 4096) (mapped_to f) refl in
    let result : ◌≡◌ {A = Option (ℕ × ℕ)} numbers (some (k0, k1)) =
      λ i. some (fd2num_lem k0 low0 i, fd2num_lem k1 low1 i) in
    (
      t,
      >>=-step (drop alloc) (λ x. drop map >> (set_ends fd0 fd1 >> pure numbers)) s
            (drop-step alloc s r (mem_alloc-step 0 va0 pipe_perm f s caller third))
          ∙ >>=-step (drop map) (λ x. set_ends fd0 fd1 >> pure numbers) r
              (drop-step map r j
                (mem_map-step 0 va0 0 va1 pipe_perm g d r caller caller here fourth))
          ∙ >>=-step (set_ends fd0 fd1) (λ x. pure numbers) j
              (set_ends-step fd0 fd1 f0 f1 j page0 page1 h0 h1)
          ∙ ap (λ (o : Option (ℕ × ℕ)). gives o t) result,
      record {
        first = h0;
        second = h1;
        first_data = h2;
        second_data = h3;
        empty = λ o. ap (λ (w : ℕ → ℕ). w o) (rest ∙ update-same s.bytes f f (λ q. 0) refl);
        read_mode = b0;
        write_mode = b1;
        devices = (c0, c1);
      },
    )

-- With two free descriptors and memory for the four requests, in frames that differ, `pipe` returns the
-- numbers of both and leaves what `PipeMade` says: each has a page, the first to read and the second
-- to write, and at the data of both stands one page, the ring, which is empty.
pub pipe_lem :
    (k0 k1 f0 f1 f g unset0 unset1 : ℕ) (m : Machine)
    → k0 < 32
    → k1 < 32
    → k0 ≢ k1
    → f0 ≢ f1
    → f0 ≢ f
    → f1 ≢ f
    → m.known 0 ≡ true
    → free_fd (maxfd - 1) 0 m ≡ some (index2fd k0)
    → free_fd (maxfd - 1) 0 (with_page (index2fd k0) f0 m) ≡ some (index2fd k1)
    → m.answer m.requests ≡ some f0
    → m.answer (m.requests + 1) ≡ some f1
    → m.answer (m.requests + 1 + 1) ≡ some f
    → m.answer (m.requests + 1 + 1 + 1) ≡ some g
    → (t : Machine) × (pipe unset0 unset1 m ≡ gives (some (k0, k1)) t)
      × PipeMade (index2fd k0) (index2fd k1) f0 f1 f t
unfolding pipe
pipe_lem k0 k1 f0 f1 f g unset0 unset1 m low0 low1 ne ne01 ne0 ne1 caller free0 free1 first second
      third fourth =
    let fd0 = index2fd k0 in
    let fd1 = index2fd k1 in
    let a = with_page fd0 f0 m in
    let (t, run, made) =
      join_ends-PipeMade k0 k1 f0 f1 f g m low0 low1 ne ne01 ne0 ne1 caller third fourth in
    (
      t,
      >>=-step (alloc_end unset0) _ m (alloc_end-step unset0 fd0 f0 m caller free0 first)
          ∙ >>=-step (alloc_end unset1) _ a (alloc_end-step unset1 fd1 f1 a caller free1 second)
          ∙ run,
      made,
    )
