-- ===== src/Elf/Headers.antt =====
-- `load_elf` (kernel/kernel_elfloader.c) hands the loadable segments on, in the order of the headers.
use raspberry3_mos.Base.{
  ℕ, zero, suc, ◌+◌, ◌^◌, ◌≤◌, ◌<◌, ◌≡◌, refl, subst, ◌∙◌, ap, inl, inr, true, false, ltb, ◌==◌,
  if◌then◌else◌, List, [], ◌∷◌, Bool-cases, arith,
}
use raspberry3_mos.Elf.{
  field, entry_of, phoff_of, phentsize_of, phnum_of, pt_load, Segment, segment_at, Loading, done,
  ◌>>=◌, load_headers, load_elf,
}
use raspberry3_mos.Elf.Run.{after, >>=-alike, done-first}

-- The loadable segments of an image, in the order of its program headers
unfoldable pub segments : ℕ → (ℕ → ℕ) → ℕ → ℕ → ℕ → List Segment
segments zero bytes binary entry_size phdr = []
segments (suc n) bytes binary entry_size phdr =
    let rest = segments n bytes binary entry_size (phdr + entry_size) in
    if field 4 bytes phdr == pt_load then segment_at bytes binary phdr ∷ rest else rest

abbrev pub image_segments : (ℕ → ℕ) → ℕ → List Segment
image_segments bytes binary =
    segments (phnum_of bytes binary) bytes binary (phentsize_of bytes binary)
      (binary + phoff_of bytes binary)

module _ {S : Type 0} (map : Segment → S → Loading S (Unit {0})) where
  -- Each segment in turn, up to the first error
  unfoldable pub map_all : List Segment → S → Loading S (Unit {0})
  map_all [] s = done tt s
  map_all (g ∷ rest) s = (do x ← map g; map_all rest) s

module _ {S : Type 0} (bytes : S → ℕ → ℕ) (map : Segment → S → Loading S (Unit {0})) where
  -- The callback leaves the image as it is.
  abbrev pub LeavesImage : (ℕ → ℕ) → Type 0
  LeavesImage image =
      (g : Segment) (s t : S) → bytes s ≡ image → map g s ≡ done tt t → bytes t ≡ image

  load_headers-map_all :
      (n binary entry_size phdr : ℕ) (image : ℕ → ℕ) (s : S)
      → LeavesImage image
      → bytes s ≡ image
      → load_headers bytes map n binary entry_size phdr s
        ≡ map_all map (segments n image binary entry_size phdr) s
  unfolding load_headers map_all segments
  load_headers-map_all zero binary entry_size phdr image s leaves same = refl
  load_headers-map_all (suc n) binary entry_size phdr image s leaves same =
      let rest = load_headers bytes map n binary entry_size (phdr + entry_size) in
      let later = segments n image binary entry_size (phdr + entry_size) in
      let ih = λ (t : S) (h : bytes t ≡ image).
        load_headers-map_all n binary entry_size (phdr + entry_size) image t leaves h in
      elim (Bool-cases (field 4 image phdr == pt_load)) [
        | inr skipped ↦ rw (same, skipped) (ih s same)
        | inl loadable ↦
            let g = segment_at image binary phdr in
            rw (same, loadable)
              (>>=-alike (map g s) (λ x. rest) (λ x. map_all map later) (λ t. bytes t ≡ image)
                (λ a t h. leaves g s t same h) (λ a t h. ih t h))
      ]

  map_all-image :
      (gs : List Segment) (image : ℕ → ℕ) (s u : S) {x : Unit {0}}
      → LeavesImage image
      → bytes s ≡ image
      → map_all map gs s ≡ done x u
      → bytes u ≡ image
  unfolding map_all
  map_all-image [] image s u leaves same h =
      let e : s ≡ u = cc in subst (λ t. bytes t ≡ image) e same
  map_all-image (g ∷ gs) image s u leaves same h =
      let (a, t, first, rest) = done-first (map g s) (λ x. map_all map gs) h in
      map_all-image gs image t u leaves (leaves g s t same first) rest

  -- For an image of at least four bytes, `load_elf` calls the callback for each loadable segment, in the
  -- order of the program headers as they stood before, up to the first error, which it returns. Where
  -- there is none it gives the entry point of the header. The callback does not write to the image.
  pub load_elf_lem :
      (binary size : ℕ) (s : S)
      → 4 ≤ size
      → size < 2 ^ 31
      → LeavesImage (bytes s)
      → load_elf bytes map binary size s
        ≡ (map_all map (image_segments (bytes s) binary) >>= λ x. done (entry_of (bytes s) binary))
            s
  unfolding load_elf
  load_elf_lem binary size s large small leaves =
      let image = bytes s in
      let low : ltb size 4 ≡ false = ground arith in
      let high : ltb size (2 ^ 31) ≡ true = ground arith in
      let gs = image_segments image binary in
      let run =
        load_headers-map_all (phnum_of image binary) binary (phentsize_of image binary)
          (binary + phoff_of image binary) image s leaves refl in
      rw (low, high)
        (ap (after (λ x t. done (entry_of (bytes t) binary) t)) run
          ∙ >>=-alike (map_all map gs s) (λ x t. done (entry_of (bytes t) binary) t)
              (λ x. done (entry_of image binary)) (λ t. bytes t ≡ image)
              (λ a t h. map_all-image gs image s t leaves refl h)
              (λ a t h. ap (λ (b : ℕ → ℕ). done (entry_of b binary) t) h))
