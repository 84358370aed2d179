-- ===== src/Platform/MappedFile.antt =====
-- MappedFile of src/mapped_file.cpp. The bytes of the file are Boost's.
use Prim.Native.String.{String}
use libload.Common.{
  Eff, ◌>>=◌, pure, ℕ, ◌+◌, ◌-◌, ◌≡◌, min, List, ◌++◌, Result, ok, throw, Error, Bool-cases, inl,
  inr, arith, IsU64, ◌-64◌, leb, length, take, drop, if◌then◌else◌, true, false,
}

-- What Boost gives of a path: the bytes of the file, or an exception.
pub record FileMappings (S : Type 0) : Type 0 where
  pub open_source : String → Eff S (List ℕ)

pub record MappedFile : Type 0 where
  pub mm_file : List ℕ

-- The constructor, from the path's string.
unfoldable pub make_mapped_file : {S : Type 0} → FileMappings S → String → Eff S MappedFile
make_mapped_file mappings path = do
  mm_file ← mappings.open_source path
  pure (record { mm_file = mm_file })

-- The count and the buffer's new bytes; to copy bytes that the file has not is undefined.
unfoldable pub read_mapped : List ℕ → ℕ → ℕ → List ℕ → Result (ℕ × List ℕ)
read_mapped mm_file offset size into_buffer =
    let bytes_to_read = min (length mm_file -64 offset) size in
    if leb (offset + bytes_to_read) (length mm_file)
    then ok
        (bytes_to_read, take bytes_to_read (drop offset mm_file) ++ drop bytes_to_read into_buffer)
    else throw Error.undefined

-- For a file of less than 2^64 bytes: from an offset up to its end a read gives the file's bytes at the
-- offset, as many as there are but no more than asked for, in front of what the buffer held. Past the end
-- the subtraction wraps, and the bytes are taken from outside the file, which is undefined behaviour.
pub read_mapped_lem :
    (mm_file : List ℕ) (offset size : ℕ) (buffer : List ℕ)
    → IsU64 (length mm_file)
    → let n = min (length mm_file - offset) size in
      read_mapped mm_file offset size buffer ≡ (
        if leb offset (length mm_file)
        then ok (n, take n (drop offset mm_file) ++ drop n buffer)
        else throw Error.undefined)
unfolding read_mapped
read_mapped_lem mm_file offset size buffer w = elim (Bool-cases (leb offset (length mm_file))) [
  | inl inside ↦
      let rest : length mm_file -64 offset ≡ length mm_file - offset = ground arith in
      let fits : leb (offset + min (length mm_file - offset) size) (length mm_file) ≡ true =
        ground arith in
      rw (inside, rest, fits)
  | inr past ↦
      let outside : leb (offset + min (length mm_file -64 offset) size) (length mm_file) ≡ false =
        ground arith in
      rw (past, outside)
]
