-- ===== src/Archive/Create.antt =====
-- `CreateFileToUpload` as a whole: what it writes, and what it leaves alone.
use ri_mms_linux.Prelude.{
  ℕ, ◌+◌, ◌<◌, ◌≤◌, ◌≡◌, refl, ap, sym, ◌∙◌, arith, Bool, true, false, List, Option, none, some,
}
use ri_mms_linux.Prelude.{length, leb, ◌==◌, ==_of_ne, if◌then◌else◌}
use mathlib.Core.Path.{subst}
use ri_mms_linux.Log.{Files, append_to, remove_file_to_upload, write_to_upload}
use ri_mms_linux.Archive.{
  Libs, load_file, archive, Created, created, failed, overrun, write_archive, compress_parts,
  load_then, create_file_to_upload, compress_room,
}
use ri_mms_linux.Archive.Format.{read_archive, read-archive}

-- Everything up to the size of the archive succeeds.
pub record IsPrepared (libs : Libs) (f : Files) (header sample compheader compdata : List ℕ)
    : Type 0 where
  pub has_header : f.header ≡ some header
  pub has_sample : f.sample ≡ some sample
  pub some_header : 0 < length header
  pub some_sample : 0 < length sample
  pub packs_header : libs.compress header ≡ some compheader
  pub packs_sample : libs.compress sample ≡ some compdata
  pub room : (n : ℕ) → libs.calloc n ≡ true
  pub can_write : f.writable ≡ true
  pub whole_writes : (bytes : List ℕ) → f.fwrite bytes ≡ bytes

load_then-some :
    (libs : Libs) (f : Files) (file : Option (List ℕ)) (bytes : List ℕ) (next : List ℕ → Created)
    → file ≡ some bytes
    → 0 < length bytes
    → ((n : ℕ) → libs.calloc n ≡ true)
    → load_then libs file f next ≡ next bytes
unfolding load_then load_file
load_then-some libs f file bytes next e pos room = rw e (
    rw (room (length bytes), load_then)
      (rw (==_of_ne (length bytes) 0 (λ z. absurd (omega arith))) refl))

-- The files without the old DATA_FILE.
abbrev pub without_upload : Files → Files
without_upload f = record f { upload = none }

remove_file_to_upload-writable :
    (f : Files) → f.writable ≡ true → remove_file_to_upload f ≡ without_upload f
unfolding remove_file_to_upload
remove_file_to_upload-writable f e = ap (λ w. if w then without_upload f else f) e

remove_file_to_upload-locked : (f : Files) → f.writable ≡ false → remove_file_to_upload f ≡ f
unfolding remove_file_to_upload
remove_file_to_upload-locked f e = ap (λ w. if w then without_upload f else f) e

-- What follows the removal of the old DATA_FILE.
abbrev pub after_removal : Libs → Files → Created
after_removal libs g =
    load_then libs g.sample g
      λ sample. load_then libs g.header g λ header. compress_parts libs header sample g

module _ (libs : Libs) (f : Files) (header sample compheader compdata : List ℕ) where
  reaches :
      IsPrepared libs f header sample compheader compdata
      → create_file_to_upload libs f
        ≡ write_archive libs compheader compdata (length header) (length sample) (without_upload f)
  unfolding create_file_to_upload compress_parts
  reaches p =
      ap (after_removal libs) (remove_file_to_upload-writable f p.can_write)
      ∙ load_then-some libs _ f.sample sample _ p.has_sample p.some_sample p.room
      ∙ load_then-some libs _ f.header header _ p.has_header p.some_header p.room
      ∙ rw (p.room compress_room) (rw (p.packs_header) (rw (p.packs_sample) refl))

  write_archive-room :
      21 + length compheader + length compdata ≤ length header + length sample + 25
      → IsPrepared libs f header sample compheader compdata
      → write_archive libs compheader compdata (length header) (length sample) (without_upload f)
        ≡ created (record f {
          upload = some (archive compheader compdata (length header) (length sample));
        })
  unfolding write_archive write_to_upload
  write_archive-room fits p =
      rw (p.room (length header + length sample + 25)) (rw ok (ap after_write written))
    where
      ok :
          leb (21 + length compheader + length compdata) (length header + length sample + 25) ≡ true
      ok = ground arith

      bytes : List ℕ
      bytes = archive compheader compdata (length header) (length sample)

      after_write : Files × Bool → Created
      after_write w = if w.1 then created w.0 else failed w.0

      by_writable : Bool → Files × Bool
      by_writable w =
          if w
          then (record f { upload = some (f.fwrite bytes) }, true)
          else (without_upload f, false)

      written : by_writable f.writable ≡ (record f { upload = some bytes }, true)
      written =
          ap by_writable p.can_write
          ∙ ap (λ b. (record f { upload = some b }, true)) (p.whole_writes bytes)

-- When the header and the sample file are there and not empty, memory is given, `fwrite` writes
-- all, zlib compresses both and their compressed lengths exceed the plain ones by at most four
-- bytes, `CreateFileToUpload` returns 0 and leaves a DATA_FILE from which a reader gets back the
-- header and the samples, if the four lengths are under 64 KB and `inflate` undoes the two
-- compressions.
pub create_file_to_upload-read_archive :
    (libs : Libs) (f : Files) (header sample compheader compdata : List ℕ)
    (inflate : List ℕ → Option (List ℕ))
    → IsPrepared libs f header sample compheader compdata
    → 21 + length compheader + length compdata ≤ length header + length sample + 25
    → inflate compheader ≡ some header
    → inflate compdata ≡ some sample
    → length header < 65536
    → length sample < 65536
    → length compheader < 65536
    → length compdata < 65536
    → (bytes : List ℕ) × (create_file_to_upload libs f ≡ created (record f { upload = some bytes }))
      × (read_archive inflate bytes ≡ some (header, sample))
create_file_to_upload-read_archive libs f h s ch cd inflate p fits bh bs fh fs fch fcd = (
  archive ch cd (length h) (length s),
  reaches libs f h s ch cd p ∙ write_archive-room libs f h s ch cd fits p,
  read-archive inflate h s ch cd bh bs fh fs fch fcd,
)

-- The files but DATA_FILE are as before, and after a failure there is no DATA_FILE, if files can be
-- removed.
pub data Kept (f : Files) : Created → Type 0 where
  kept : (bytes : List ℕ) → Kept f (created (record f { upload = some bytes }))
  none_left : Kept f (failed (record f { upload = none }))
  locked : f.writable ≡ false → Kept f (failed f)
  undefined : Kept f overrun

abbrev written : List ℕ → Files → Created
written bytes g = let (h, done) = write_to_upload bytes g in if done then created h else failed h

module _ (f : Files) where
  if-Kept : (b : Bool) (x y : Created) → Kept f x → Kept f y → Kept f (if b then x else y)
  if-Kept true x y p q = p
  if-Kept false x y p q = q

  option-Kept :
      (o : Option (List ℕ)) (x : Created) (next : List ℕ → Created)
      → Kept f x
      → ((bytes : List ℕ) → Kept f (next bytes))
      → Kept f (elim o [ none ↦ x | some bytes ↦ next bytes ])
  option-Kept none x next p q = p
  option-Kept (some bytes) x next p q = q bytes

  written-writable :
      (bytes : List ℕ) → f.writable ≡ true → Kept f (written bytes (without_upload f))
  unfolding write_to_upload
  written-writable bytes e = subst (λ w. Kept f (outcome w)) (sym e) (kept (f.fwrite bytes))
    where
      outcome : Bool → Created
      outcome w =
          let (h, done) : Files × Bool =
            if w
            then (record f { upload = some (f.fwrite bytes) }, true)
            else (without_upload f, false) in
          if done then created h else failed h

  written-locked : (bytes : List ℕ) → f.writable ≡ false → Kept f (written bytes f)
  unfolding write_to_upload
  written-locked bytes e = subst (λ w. Kept f (outcome w)) (sym e) (locked e)
    where
      outcome : Bool → Created
      outcome w =
          let (h, done) : Files × Bool =
            if w
            then (record f { upload = append_to f.upload (f.fwrite bytes) }, true)
            else (f, false) in
          if done then created h else failed h

-- With `g` the files after the removal.
module _ (libs : Libs) (f g : Files) (fails : Kept f (failed g))
    (writes : (bytes : List ℕ) → Kept f (written bytes g)) where
  write_archive-Kept : (ch cd : List ℕ) (n m : ℕ) → Kept f (write_archive libs ch cd n m g)
  unfolding write_archive
  write_archive-Kept ch cd n m =
      if-Kept f (libs.calloc (n + m + 25)) _ _
        (if-Kept f (leb (21 + length ch + length cd) (n + m + 25)) _ _ (writes (archive ch cd n m))
          undefined)
        fails

  compress_parts-Kept : (header sample : List ℕ) → Kept f (compress_parts libs header sample g)
  unfolding compress_parts
  compress_parts-Kept header sample =
      if-Kept f (libs.calloc compress_room) _ _
        (option-Kept f (libs.compress header) _ _ fails λ ch.
          option-Kept f (libs.compress sample) _ _ fails
            λ cd. write_archive-Kept ch cd (length header) (length sample))
        fails

  load_then-Kept :
      (file : Option (List ℕ)) (next : List ℕ → Created)
      → ((bytes : List ℕ) → Kept f (next bytes))
      → Kept f (load_then libs file g next)
  unfolding load_then
  load_then-Kept file next k =
      option-Kept f (load_file libs file) _ _ fails
        λ bytes. if-Kept f (length bytes == 0) _ _ fails (k bytes)

  after_removal-Kept : Kept f (after_removal libs g)
  after_removal-Kept =
      load_then-Kept g.sample _
        λ sample. load_then-Kept g.header _ λ header. compress_parts-Kept header sample

-- Whatever memory, zlib and the disk do, a `CreateFileToUpload` that returns changes no file but
-- DATA_FILE, and when it returns -1 there is none, unless files cannot be removed: then it changes
-- none.
pub create_file_to_upload-Kept : (libs : Libs) (f : Files) → Kept f (create_file_to_upload libs f)
unfolding create_file_to_upload
create_file_to_upload-Kept libs f = by_writable f.writable refl
  where
    by_writable :
        (w : Bool) → f.writable ≡ w → Kept f (after_removal libs (remove_file_to_upload f))
    by_writable true e =
        subst (λ g. Kept f (after_removal libs g)) (sym (remove_file_to_upload-writable f e))
          (after_removal-Kept libs f (without_upload f) none_left
            (λ bytes. written-writable f bytes e))
    by_writable false e =
        subst (λ g. Kept f (after_removal libs g)) (sym (remove_file_to_upload-locked f e))
          (after_removal-Kept libs f f (locked e) (λ bytes. written-locked f bytes e))
