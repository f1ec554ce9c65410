-- ===== src/Serve/Tests.antt =====
-- A server with two open files: a client has mapped the page of the first, and none that of the second.
use raspberry3_mos.Base.{ℕ, ◌≡◌, refl, true, false, ◌==◌, if◌then◌else◌, arith, []}
use raspberry3_mos.Serve.{
  Server, serve_init, blank_page, entry, take_entry, open_from, open_alloc, open_lookup,
}
use raspberry3_mos.Serve.Requests.{serve_request}
use raspberry3_mos.Serve.Answers.{Answered, serve_request-Answered}
use raspberry3_mos.Serve.Table.{Tagged, serve_init-Tagged, open_lookup-open_alloc}

abbrev blank : Server
blank = record {
  fs = record {
    word = λ a. 0;
    mapped = λ p. false;
    disk = λ a. 0;
    super = 0;
    bitmap = 0;
    nbitmap = 0;
    grants = λ n. true;
    requests = 0;
  };
  opentab = λ i. record { o_file = 0; o_fileid = 0; o_mode = 0; o_ff = 0 };
  ff = λ i. blank_page;
  refs = λ i. if i == 0 then 2 else if i == 1 then 1 else 0;
  replies = [];
}

abbrev server : Server
server = serve_init blank

open_runs : open_alloc server ≡ entry 1 (take_entry 1 server)
unfolding open_alloc open_from serve_init
open_runs = refl

abbrev mapped_refs : ℕ → ℕ
mapped_refs i = 2

open_lookup-open_alloc_example :
    (open_lookup
        ((take_entry 1 server).opentab 1).o_fileid
        (let t = take_entry 1 server in record t { refs = mapped_refs })
      ≡ (true, 1))
    × (open_lookup
          (server.opentab 1).o_fileid
          (let t = take_entry 1 server in record t { refs = mapped_refs })
        ≡ (false, 0))
    × Tagged (take_entry 1 server).opentab
open_lookup-open_alloc_example =
    open_lookup-open_alloc server (take_entry 1 server) 1 mapped_refs (serve_init-Tagged blank)
      open_runs (omega arith)

-- The environment 5 closes the file 0.
serve_request-Answered_example : Answered 5 server (serve_request 4 5 1 (λ a. 0) server)
serve_request-Answered_example =
    serve_request-Answered 4 5 1 (λ a. 0) server (omega arith) (omega arith) (omega arith)
