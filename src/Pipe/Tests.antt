-- ===== src/Pipe/Tests.antt =====
-- Reads and writes of a pipe with two bytes.
use raspberry3_mos.Base.{ℕ, ◌≡◌, refl, Bool, true, false, [], ◌∷◌, ◌++◌, some, take, arith}
use raspberry3_mos.Pipe.{Pipe, read_byte, write_byte, piperead, pipewrite}
use raspberry3_mos.Base.{◌+◌, ◌-◌, none}
use raspberry3_mos.Serve.{as_u64}
use raspberry3_mos.Fd.{maxfd, index2fd}
use raspberry3_mos.User.{Machine, gives}
use raspberry3_mos.Pipe.Create.{free_fd, pipe}
use raspberry3_mos.Pipe.Made.{with_page, PipeMade, pipe_lem}
use raspberry3_mos.Pipe.Fifo.{contents, Sound, Steps, stay, write, read, Steps-fifo}
use raspberry3_mos.Pipe.Calls.{piperead_lem, pipewrite_lem}

-- The bytes 31 and 0 are in the ring, on both sides of its end.
abbrev two_bytes : Pipe
two_bytes = record { p_rpos = 31; p_wpos = 33; p_buf = λ i. i }

two_bytes-Sound : Sound two_bytes
two_bytes-Sound = record { ordered = omega arith; bounded = omega arith }

-- Other environments leave the pipe alone, and it is open.
abbrev still : ℕ → Pipe → Pipe
still t p = p

abbrev open_end : ℕ → Pipe → Bool
open_end t p = false

-- A write of 7 between two reads
abbrev steps :
    Steps (7 ∷ []) (31 ∷ 0 ∷ []) two_bytes (read_byte (write_byte 7 (read_byte two_bytes).1)).1
unfolding read_byte write_byte
steps = read refl (write refl (read refl stay))

Steps-fifo_example :
    ((31 ∷ 0 ∷ []) ++ contents (read_byte (write_byte 7 (read_byte two_bytes).1)).1
      ≡ contents two_bytes ++ (7 ∷ []))
    × Sound (read_byte (write_byte 7 (read_byte two_bytes).1)).1
Steps-fifo_example = Steps-fifo steps two_bytes-Sound (omega arith)

piperead_lem_example :
    (q : Pipe) × (piperead still open_end 4 3 two_bytes ≡ some (take 3 (contents two_bytes), q))
    × (take 3 (contents two_bytes) ++ contents q ≡ contents two_bytes)
piperead_lem_example =
    piperead_lem still open_end 4 3 two_bytes two_bytes-Sound (omega arith) refl (omega arith)

pipewrite_lem_example :
    (q : Pipe) × (pipewrite still open_end 2 0 (7 ∷ 8 ∷ []) two_bytes ≡ some (true, q))
    × (contents q ≡ contents two_bytes ++ (7 ∷ 8 ∷ []))
pipewrite_lem_example =
    pipewrite_lem still open_end 2 0 (7 ∷ 8 ∷ []) two_bytes two_bytes-Sound (omega arith)
      (omega arith) (omega arith)

abbrev no_pages : Machine
no_pages = record {
  entry = λ e p. none;
  bytes = λ f o. 5;
  answer = λ n. some (60 + n);
  requests = 0;
  known = λ e. true;
  handlers = λ e. none;
  runnable = λ e. true;
  pgfault_set = true;
}

first_free : free_fd (maxfd - 1) 0 no_pages ≡ some (index2fd 0)
unfolding free_fd as_u64
first_free = refl

second_free : free_fd (maxfd - 1) 0 (with_page (index2fd 0) 60 no_pages) ≡ some (index2fd 1)
unfolding free_fd as_u64
second_free = refl

pipe_lem_example :
    (t : Machine) × (pipe 0 0 no_pages ≡ gives (some (0, 1)) t)
    × PipeMade (index2fd 0) (index2fd 1) 60 61 62 t
pipe_lem_example =
    pipe_lem 0 1 60 61 62 63 0 0 no_pages (omega arith) (omega arith) (omega arith) (omega arith)
      (omega arith) (omega arith) refl first_free second_free refl refl refl refl
