-- ===== src/Serve/Answers.antt =====
-- The answers of the file server (fs/serv.c).
use raspberry3_mos.Base.{
  ℕ, zero, suc, ◌+◌, ◌/◌, ◌^◌, ◌≤◌, ◌≡◌, ◌≢◌, refl, ap, bit_and, Bool, true, false, ◌==◌,
  if◌then◌else◌, leb, List, ◌∷◌, arith,
}
use raspberry3_mos.Fs.{Outcome, ok, err, panics, faults, M}
use raspberry3_mos.Fs.{by2blk}
use raspberry3_mos.Fs.File.{file_get_block, file_set_size, file_close, file_dirty}
use raspberry3_mos.Serve.{
  Open, Reply, Server, Alloc, entry, refused, take_entry, add_page, open_from, open_alloc,
  open_lookup,
}
use raspberry3_mos.Serve.Requests.{
  Served, served, stopped, send, send_error, send_done, call, serve_open, opened_entry, fill_filefd,
  with_open, serve_map, serve_set_size, serve_close, serve_remove, serve_create, serve_dirty,
  serve_sync, dispatch, serve_request, page_perm,
}

-- The request is answered once, to the environment that made it, or the file system stops the server.
unfoldable pub Answered : ℕ → Server → Served → Type 0
Answered whom sv (served t) = (r : Reply) × (t.replies ≡ r ∷ sv.replies) × (r.envid ≡ whom)
Answered whom sv stopped = Unit {0}

send-Answered :
    (whom value srcva perm : ℕ) (sv t : Server)
    → t.replies ≡ sv.replies
    → Answered whom sv (served (send whom value srcva perm t))
unfolding Answered send
send-Answered whom value srcva perm sv t same =
    let r : Reply = record { envid = whom; value = value; srcva = srcva; perm = perm } in
    (r, ap (λ (l : List Reply). r ∷ l) same, refl)

-- A predicate on a test, by its two branches
on_if :
    {A : Type 0} (P : A → Type 0) (b : Bool) {x y : A}
    → (b ≡ true → P x)
    → (b ≡ false → P y)
    → P (if b then x else y)
on_if P true h k = h refl
on_if P false h k = k refl

by_outcome :
    {A : Type 0} (whom : ℕ) (sv t : Server) (f : A → Server → Served) (r : Outcome A)
    → t.replies ≡ sv.replies
    → ((a : A) (u : Server) → u.replies ≡ sv.replies → Answered whom sv (f a u))
    → Answered whom sv (elim r [
      | ok a v ↦ f a (record t { fs = v })
      | err e v ↦ send_error whom e (record t { fs = v })
      | panics ↦ stopped
      | faults ↦ stopped
    ])
unfolding send_error Answered
by_outcome whom sv t f (ok a v) same h = h a (record t { fs = v }) same
by_outcome whom sv t f (err e v) same h = send-Answered whom _ 0 0 sv (record t { fs = v }) same
by_outcome whom sv t f panics same h = tt
by_outcome whom sv t f faults same h = tt

call-Answered :
    {A : Type 0} (m : M A) (whom : ℕ) (f : A → Server → Served) (sv t : Server)
    → t.replies ≡ sv.replies
    → ((a : A) (u : Server) → u.replies ≡ sv.replies → Answered whom sv (f a u))
    → Answered whom sv (call m whom f t)
unfolding call
call-Answered m whom f sv t same h = by_outcome whom sv t f (m t.fs) same h

with_open-Answered :
    (whom fileid : ℕ) (f : Open → Server → Served) (sv : Server)
    → ((o : Open) → Answered whom sv (f o sv))
    → Answered whom sv (with_open whom fileid f sv)
unfolding with_open send_error
with_open-Answered whom fileid f sv h =
    on_if (Answered whom sv) (open_lookup fileid sv).0 (λ e. h _)
      (λ e. send-Answered whom _ 0 0 sv sv refl)

-- `open_alloc` sends nothing.
abbrev Quiet : Server → Alloc → Type 0
Quiet sv (entry i t) = t.replies ≡ sv.replies
Quiet sv (refused e t) = t.replies ≡ sv.replies

open_from-Quiet : (n i : ℕ) (sv : Server) → Quiet sv (open_from n i sv)
unfolding open_from add_page take_entry
open_from-Quiet zero i sv = refl
open_from-Quiet (suc n) i sv =
    let later = open_from-Quiet n (i + 1) sv in
    on_if (Quiet sv) (sv.refs i == 0)
      (λ e. on_if (Quiet sv) (sv.fs.grants sv.fs.requests) (λ g. refl) (λ g. refl))
      (λ e. on_if (Quiet sv) (sv.refs i == 1) (λ g. refl) (λ g. later))

opened_entry-Answered :
    (whom : ℕ) (page : ℕ → ℕ) (i : ℕ) (sv t : Server)
    → t.replies ≡ sv.replies
    → Answered whom sv (opened_entry whom page i t)
unfolding opened_entry fill_filefd
opened_entry-Answered whom page i sv t same =
    on_if (Answered whom sv) (leb (2 ^ 31) (t.opentab i).o_fileid)
      (λ e. send-Answered whom _ 0 0 sv t same)
      (λ e.
        call-Answered _ whom _ sv t same
          (λ f u kept. send-Answered whom 0 _ _ sv (fill_filefd i f _ u) kept))

by_entry :
    (whom : ℕ) (page : ℕ → ℕ) (sv : Server) (r : Alloc)
    → Quiet sv r
    → Answered whom sv
        (elim r [ refused e t ↦ send_error whom e t | entry i t ↦ opened_entry whom page i t ])
unfolding send_error
by_entry whom page sv (entry i t) quiet = opened_entry-Answered whom page i sv t quiet
by_entry whom page sv (refused e t) quiet = send-Answered whom _ 0 0 sv t quiet

serve_open-Answered :
    (whom : ℕ) (page : ℕ → ℕ) (sv : Server) → Answered whom sv (serve_open whom page sv)
unfolding serve_open open_alloc
serve_open-Answered whom page sv = by_entry whom page sv (open_alloc sv) (open_from-Quiet _ 0 sv)

done-Answered :
    {A : Type 0} (m : M A) (whom : ℕ) (sv : Server)
    → Answered whom sv (call m whom (λ x. send_done whom) sv)
unfolding send_done
done-Answered m whom sv =
    call-Answered m whom (λ x. send_done whom) sv sv refl
      (λ a u kept. send-Answered whom 0 0 0 sv u kept)

open-Answered :
    {A : Type 0} (m : Open → M A) (whom fileid : ℕ) (sv : Server)
    → Answered whom sv (with_open whom fileid (λ o. call (m o) whom (λ x. send_done whom)) sv)
open-Answered m whom fileid sv =
    with_open-Answered whom fileid (λ o. call (m o) whom (λ x. send_done whom)) sv
      (λ o. done-Answered (m o) whom sv)

serve_map-Answered :
    (whom : ℕ) (page : ℕ → ℕ) (sv : Server) → Answered whom sv (serve_map whom page sv)
unfolding serve_map
serve_map-Answered whom page sv =
    let m : Open → M ℕ = λ o. file_get_block o.o_file (page 4 / by2blk) in
    let f : ℕ → Server → Served = λ blk t. served (send whom 0 blk page_perm t) in
    with_open-Answered whom (page 0) (λ o. call (m o) whom f) sv
      (λ o.
        call-Answered (m o) whom f sv sv refl
          (λ blk u kept. send-Answered whom 0 blk page_perm sv u kept))

-- Each request with an argument page and a known code is answered once, to the environment that made
-- it, unless the file system panics or loses a page while it serves the request.
pub serve_request-Answered :
    (req whom perm : ℕ) (page : ℕ → ℕ) (sv : Server)
    → bit_and perm 1 ≢ 0
    → 1 ≤ req
    → req ≤ 8
    → Answered whom sv (serve_request req whom perm page sv)
unfolding serve_request dispatch serve_set_size serve_close serve_remove serve_create serve_dirty
    serve_sync
serve_request-Answered req whom perm page sv given low high =
    on_if (Answered whom sv) (bit_and perm 1 == 0) (λ e. absurd (given (ground arith)))
      (λ e.
        on_if (Answered whom sv) (req == 1) (λ q. serve_open-Answered whom page sv)
          (λ n1.
            on_if (Answered whom sv) (req == 2) (λ q. serve_map-Answered whom page sv)
              (λ n2.
                on_if (Answered whom sv) (req == 3)
                  (λ q. open-Answered (λ o. file_set_size o.o_file (page 4)) whom (page 0) sv)
                  (λ n3.
                    on_if (Answered whom sv) (req == 4)
                      (λ q. open-Answered (λ o. file_close o.o_file) whom (page 0) sv)
                      (λ n4.
                        on_if (Answered whom sv) (req == 5)
                          (λ q. open-Answered (λ o. file_dirty o.o_file (page 4)) whom (page 0) sv)
                          (λ n5.
                            on_if (Answered whom sv) (req == 6) (λ q. done-Answered _ whom sv)
                              (λ n6.
                                on_if (Answered whom sv) (req == 7) (λ q. done-Answered _ whom sv)
                                  (λ n7.
                                    on_if (Answered whom sv) (req == 8)
                                      (λ q. done-Answered _ whom sv)
                                      (λ n8. absurd (ground arith))))))))))
