-- ===== src/Fs/Dir.antt =====
-- Directories and paths (fs/fs.c). A path and a name are the characters before their 0.
pub mod Paths
use raspberry3_mos.Base.{
  ℕ, zero, suc, ◌+◌, ◌-◌, ◌*◌, ◌/◌, ◌%◌, ◌^◌, Bool, true, false, ◌&&◌, ◌||◌, ltb, leb, ◌==◌, not,
  if◌then◌else◌, Option, none, some, List, [], ◌∷◌, length,
}
use raspberry3_mos.Pmap.{update}
use raspberry3_mos.Fs.{
  Fs, Outcome, ok, err, panics, faults, M, pure, fail, ◌>>=◌, ◌>>◌, on_err, by2blk, load64, store64,
}
use raspberry3_mos.Fs.File.{
  e_not_found, f_size, f_type, f_dir, field, set_field, blocks_of, file_get_block, file_truncate,
  file_flush, flush_dir,
}

abbrev pub e_bad_path : ℕ
e_bad_path = 10

abbrev pub e_file_exists : ℕ
e_file_exists = 11

abbrev pub ftype_dir : ℕ
ftype_dir = 1

abbrev pub maxnamelen : ℕ
maxnamelen = 128

abbrev pub file_size : ℕ
file_size = 256

abbrev pub file2blk : ℕ
file2blk = 16

-- A byte of memory, and a write to one
unfoldable pub load8 : (ℕ → ℕ) → ℕ → ℕ
load8 word a = word (a - a % 4) / 256 ^ (a % 4) % 256

unfoldable pub store8 : ℕ → ℕ → M (Unit {0})
store8 a v s =
    let old = s.word (a - a % 4) in
    let high = old / 256 ^ (a % 4 + 1) * 256 ^ (a % 4 + 1) in
    ok tt (record s {
      word = update s.word (a - a % 4) (high + v % 256 * 256 ^ (a % 4) + old % 256 ^ (a % 4));
    })

-- `strcmp(f->f_name, name) == 0`
unfoldable pub name_is : ℕ → List ℕ → Fs → Bool
name_is a [] s = load8 s.word a == 0
name_is a (c ∷ name) s = (load8 s.word a == c) && name_is (a + 1) name s

-- `strcpy(f->f_name, name)`
unfoldable pub write_name : ℕ → List ℕ → M (Unit {0})
write_name a [] = store8 a 0
write_name a (c ∷ name) = do store8 a c; write_name (a + 1) name

-- The loop over the files of a block, with `n` rounds left
unfoldable pub find_file : ℕ → (ℕ → Fs → Bool) → ℕ → Fs → Option ℕ
find_file zero test f s = none
find_file (suc n) test f s =
    let later = find_file n test (f + file_size) s in if test f s then some f else later

unfoldable pub lookup_blocks : ℕ → ℕ → ℕ → List ℕ → M ℕ
lookup_blocks zero dir i name = fail e_not_found
lookup_blocks (suc n) dir i name = do
  blk ← file_get_block dir i
  λ s. elim (find_file file2blk (λ f. name_is f name) blk s) [
    | none ↦ lookup_blocks n dir (i + 1) name s
    | some f ↦ ok f (record s { word = store64 s.word (f + f_dir) dir })
  ]

unfoldable pub dir_lookup : ℕ → List ℕ → M ℕ
dir_lookup dir name s = lookup_blocks (blocks_of (field dir f_size s)) dir 0 name s

abbrev pub is_unused : ℕ → Fs → Bool
is_unused f s = load8 s.word f == 0

-- The loop of `dir_alloc_file` over the blocks, and the block that it appends
unfoldable pub alloc_blocks : ℕ → ℕ → ℕ → M ℕ
alloc_blocks zero dir i = do
  λ s. set_field dir f_size (field dir f_size s + by2blk) s
  file_get_block dir i
alloc_blocks (suc n) dir i = do
  blk ← file_get_block dir i
  λ s. elim (find_file file2blk is_unused blk s) [
    | none ↦ alloc_blocks n dir (i + 1) s
    | some f ↦ ok f s
  ]

unfoldable pub dir_alloc_file : ℕ → M ℕ
dir_alloc_file dir s = alloc_blocks (blocks_of (field dir f_size s)) dir 0 s

abbrev pub slash : ℕ
slash = 47

unfoldable pub skip_slash : List ℕ → List ℕ
skip_slash [] = []
skip_slash (c ∷ p) = let rest = skip_slash p in if c == slash then rest else c ∷ p

-- The characters before the next slash, and the rest
unfoldable pub split_name : List ℕ → List ℕ × List ℕ
split_name [] = ([], [])
split_name (c ∷ p) =
    let rest = split_name p in if c == slash then ([], c ∷ p) else (c ∷ rest.0, rest.1)

-- What `walk_path` leaves: the directory, or 0, with the file; the directory with the name that it
-- lacks, for -E_NOT_FOUND at the last name; or another error, for which `*pdir` is 0. A loop without
-- fuel is unfinished.
pub data Walk : Type 0 where
  found : ℕ → ℕ → Walk
  missing : ℕ → List ℕ → Walk
  failed : ℕ → Walk
  unfinished : Walk

-- What `walk_path` makes of an error of `dir_lookup`, with the path behind the name
unfoldable pub not_found : ℕ → List ℕ → List ℕ → ℕ → Walk
not_found dir name [] r = if r == e_not_found then missing dir name else failed r
not_found dir name (c ∷ path) r = failed r

-- The loop of `walk_path`; `dir` is the directory behind the rounds so far.
unfoldable pub walk_names : ℕ → List ℕ → ℕ → ℕ → M Walk
walk_names zero path dir file s = ok unfinished s
walk_names (suc n) [] dir file s = ok (found dir file) s
walk_names (suc n) (c ∷ p) dir file s =
    let name = (split_name (c ∷ p)).0 in
    let rest = skip_slash (split_name (c ∷ p)).1 in
    let next = dir_lookup file name s in
    elim (leb maxnamelen (length name)) [
      | true ↦ ok (failed e_bad_path) s
      | false ↦ elim (field file f_type s == ftype_dir) [
        | false ↦ ok (failed e_not_found) s
        | true ↦ elim next [
          | ok f t ↦ walk_names n rest file f t
          | err r t ↦ ok (not_found file name rest r) t
          | panics ↦ panics
          | faults ↦ faults
        ]
      ]
    ]

-- `walk_path` from the root, whose `struct File` stands at 8 in the superblock; each round takes a
-- character of the path at least.
unfoldable pub walk_path : List ℕ → M Walk
walk_path path s = walk_names (suc (length path)) (skip_slash path) 0 (s.super + 8) s

unfoldable pub opened : Walk → M ℕ
opened (found dir file) s = ok file s
opened (missing dir name) s = err e_not_found s
opened (failed r) s = err r s
opened unfinished s = faults

unfoldable pub file_open : List ℕ → M ℕ
file_open path = walk_path path >>= opened

-- The rest of `file_create` where the directory lacks the name; where `dir_alloc_file` fails, the
-- result is that of `walk_path`.
unfoldable pub make_file : ℕ → List ℕ → ℕ → M ℕ
make_file dir name filetype = do
  f ← on_err (dir_alloc_file dir) (λ r. fail e_not_found)
  write_name f name
  set_field f f_type filetype
  pure f

unfoldable pub created : ℕ → Walk → M ℕ
created filetype (found dir file) s = err e_file_exists s
created filetype (missing dir name) s = make_file dir name filetype s
created filetype (failed r) s = err r s
created filetype unfinished s = faults

unfoldable pub file_create : List ℕ → ℕ → M ℕ
file_create path filetype = walk_path path >>= created filetype

unfoldable pub file_remove : List ℕ → M (Unit {0})
file_remove path = do
  f ← walk_path path >>= opened
  file_truncate f 0
  store8 f 0
  file_flush f
  flush_dir f
