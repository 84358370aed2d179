-- ===== src/Pe/Pages.antt =====
-- The pages that the copying of an image in src/pe/image.hpp commits, and the bytes that it writes.
pub mod Indirect
pub mod Direct
pub mod Copied
use libload.Common.{
  pure, [], ◌∷◌, ◌>>◌, replicate, length-replicate, refl, All, ℕ, ◌+◌, ◌≤◌, ◌≡◌, ap, ◌∙◌, List,
  Bool, true, Eff, Result, ok, ◌>>=◌, and_then, value_and_state, IsU64, arith, length, min, ◌-64◌,
}
use libload.Pe.Sections.{
  resize, copy_pe_image_headers_indirect, map_sections_indirect, map_pe_image_sections_indirect,
}
use libload.Pe.Agreement.{length-resize}
use libload.Memory.Bytes.{Within}
use libload.Memory.Manager.{MemoryManager}
use libload.Memory.Block.{MemoryOwnership, MemoryBlock, memory_block, write}
use libload.Pe.Format.{SectionHeader, FileImage}

-- A manager of pages, for a copy in which the file is read: a commit succeeds, commits the range, and
-- nothing is decommitted; a copy or a read into committed memory succeeds. What they do with other
-- memory is left open.
pub record CommitsPages {S : Type 0} (manager : MemoryManager S) (image : FileImage S)
    : Type 0 where
  pub committed : S → ℕ → Bool
  pub commit_ok : (mem size : ℕ) (s : S) → (manager.commit mem size s).0 ≡ ok tt
  pub commit_within :
      (mem size a : ℕ) (s : S)
      → Within mem size a
      → committed (manager.commit mem size s).1 a ≡ true
  pub commit_keeps :
      (mem size a : ℕ) (s : S)
      → committed s a ≡ true
      → committed (manager.commit mem size s).1 a ≡ true
  pub copy_ok :
      (buffer : List ℕ) (size mem : ℕ) (s : S)
      → size ≤ length buffer
      → ((a : ℕ) → Within mem size a → committed s a ≡ true)
      → (manager.copy_into buffer size mem s).0 ≡ ok size
  pub copy_keeps :
      (buffer : List ℕ) (size mem : ℕ) (s : S)
      → committed (manager.copy_into buffer size mem s).1 ≡ committed s
  pub read_into_ok :
      (offset size mem : ℕ) (s : S)
      → ((a : ℕ) → Within mem size a → committed s a ≡ true)
      → (image.read_into offset size mem s).0 ≡ ok tt
  pub read_into_keeps :
      (offset size mem : ℕ) (s : S) → committed (image.read_into offset size mem s).1 ≡ committed s
  pub read_ok :
      (offset size : ℕ) (buf : List ℕ) (s : S)
      → length buf ≡ size
      → (bytes : List ℕ) × (image.read offset size buf s ≡ (ok bytes, s)) × (length bytes ≡ size)

module _ {S : Type 0} {manager : MemoryManager S} {image : FileImage S}
    (p : CommitsPages manager image) where
  -- The range is committed.
  abbrev pub Includes : ℕ → ℕ → S → Type 0
  Includes mem n s = (a : ℕ) → Within mem n a → p.committed s a ≡ true

  -- What is committed stays so.
  abbrev pub Keeps : S → S → Type 0
  Keeps s s' = (a : ℕ) → p.committed s a ≡ true → p.committed s' a ≡ true

  -- The raw data of a section lie in the block, and are no longer than the section in memory.
  abbrev pub IsCovered : ℕ → SectionHeader → Type 0
  IsCovered mem_size h =
      (h.virtual_address + h.size_of_raw_data ≤ mem_size) × (h.size_of_raw_data ≤ h.virtual_size)

  -- It has returned, nothing is decommitted, and the sections are committed.
  abbrev pub Mapped : ℕ → List SectionHeader → S → Result (Unit {0}) × S → Type 0
  Mapped ptr headers s r =
      (r.0 ≡ ok tt)
      × Keeps s r.1
      × All (λ h. Includes (ptr + h.virtual_address) h.virtual_size r.1) headers

  -- It has returned, and the headers and the sections are committed.
  abbrev pub AllCommitted : ℕ → Result (Unit {0}) × S → Type 0
  AllCommitted ptr r =
      (r.0 ≡ ok tt)
      × Includes ptr image.optional_header.size_of_headers r.1
      × All (λ h. Includes (ptr + h.virtual_address) h.virtual_size r.1) image.section_headers

-- A part that has returned, and then `k`.
pub ran :
    {S : Type 0} (r : Result (Unit {0}) × S) (k : Eff S (Unit {0}))
    (Q : Result (Unit {0}) × S → Type 0)
    → r.0 ≡ ok tt
    → Q (k r.1)
    → Q (and_then r (λ x. k))
ran r k Q done h = rw (value_and_state r done) h
