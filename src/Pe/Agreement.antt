-- ===== src/Pe/Agreement.antt =====
-- The two ways in which src/pe/image.hpp copies the headers and the sections of an image, compared with
-- the memory that the image's file describes.
use libload.Common.{
  ◌>>◌, pure, ℕ, ◌+◌, ◌-◌, ◌≤◌, ◌≡◌, refl, ap, ◌∙◌, List, [], ◌∷◌, All, ok, throw, Result, Eff,
  and_then, arith, IsU64, ◌-64◌, ltb, ge→ltb, false, length, length-append, length-take,
  length-replicate, take, take_all, min, replicate, sub64_le,
}
use libload.Memory.Bytes.{Bytes, load_bytes, store_bytes, length-load_bytes}
use libload.Memory.Manager.{MemoryManager, CopiesBytes}
use libload.Memory.Block.{MemoryOwnership, MemoryBlock, memory_block, write}
use libload.Memory.Access.{write-store_bytes}
use libload.Pe.Format.{SectionHeader, FileImage}
use libload.Pe.Sections.{
  resize, copy_pe_image_headers_direct, copy_pe_image_headers_indirect, map_section_direct,
  map_sections_direct, map_sections_indirect, map_pe_image_sections_direct,
  map_pe_image_sections_indirect,
}

pub length-resize : (n : ℕ) (buf : List ℕ) → length (resize n buf) ≡ n
unfolding resize
length-resize n buf = omega (
  arith,
  length-append (take n buf) (replicate (n - length buf) 0),
  length-take n buf,
  length-replicate {A = ℕ} (n - length buf) 0,
)

-- The memory once the raw data of each section are put where the section is to be, one after the other.
unfoldable pub image_bytes : Bytes → ℕ → List SectionHeader → Bytes → Bytes
image_bytes file ptr [] m = m
image_bytes file ptr (h ∷ headers) m = image_bytes file ptr headers (
    store_bytes m (ptr + h.virtual_address)
      (load_bytes file h.pointer_to_raw_data h.size_of_raw_data))

module _ {S : Type 0} {manager : MemoryManager S} (c : CopiesBytes manager) (image : FileImage S)
    (file : Bytes) where
  -- What the copying relies on: a read gives the file's bytes in a buffer of their length, or puts them
  -- into memory, and committing succeeds and changes no byte.
  pub record ReadsFile : Type 0 where
    pub read_lem :
        (offset size : ℕ) (buf : List ℕ) (s : S)
        → length buf ≡ size
        → image.read offset size buf s ≡ (ok (load_bytes file offset size), s)
    pub read_into_ok : (offset size mem : ℕ) (s : S) → (image.read_into offset size mem s).0 ≡ ok tt
    pub read_into_view :
        (offset size mem : ℕ) (s : S)
        → c.view (image.read_into offset size mem s).1
          ≡ store_bytes (c.view s) mem (load_bytes file offset size)
    pub commit_ok : (mem size : ℕ) (s : S) → (manager.commit mem size s).0 ≡ ok tt
    pub commit_view : (mem size : ℕ) (s : S) → c.view (manager.commit mem size s).1 ≡ c.view s

  module _ (reads : ReadsFile) (mo : MemoryOwnership) (ptr mem_size : ℕ) (w : IsU64 mem_size) where
    abbrev block : MemoryBlock mo S
    block = memory_block manager ptr mem_size

    -- The outcome of a copy that succeeds and leaves these bytes.
    abbrev LeavesBytes : Bytes → Result (Unit {0}) × S → Type 0
    LeavesBytes m r = (r.0 ≡ ok tt) × (c.view r.1 ≡ m)

    then_bytes :
        {A : Type 0} {a : A} (r : Result A × S) (k : A → Eff S (Unit {0})) (m m' : Bytes)
        → (r.0 ≡ ok a) × (c.view r.1 ≡ m)
        → ((s : S) → c.view s ≡ m → LeavesBytes m' (k a s))
        → LeavesBytes m' (and_then r k)
    then_bytes {a} (ok x, s) k m m' (done, held) next =
        let same : x ≡ a = cc in rw same (next s held)
    then_bytes (throw e, s) k m m' (done, held) next = absurd (cc)

    -- Committed pages, and then raw data that are read into them.
    committed_read :
        (mem size offset raw : ℕ) (s : S)
        → LeavesBytes
            (store_bytes (c.view s) mem (load_bytes file offset raw))
            (and_then (manager.commit mem size s) (λ x. image.read_into offset raw mem))
    committed_read mem size offset raw s =
        then_bytes (manager.commit mem size s) _ (c.view s) _
          (reads.commit_ok mem size s, reads.commit_view mem size s)
          (λ s' same. (
            reads.read_into_ok offset raw mem s',
            reads.read_into_view offset raw mem s'
                ∙ ap (λ m. store_bytes m mem (load_bytes file offset raw)) same,
          ))

    -- A section's raw data fit behind its start.
    abbrev pub SectionFits : SectionHeader → Type 0
    SectionFits h = h.virtual_address + h.size_of_raw_data ≤ mem_size

    section_direct :
        (h : SectionHeader) (s : S)
        → SectionFits h
        → LeavesBytes
            (store_bytes
              (c.view s)
              (ptr + h.virtual_address)
              (load_bytes file h.pointer_to_raw_data h.size_of_raw_data))
            (map_section_direct image block h s)
    unfolding map_section_direct
    section_direct h s fits =
        let passed : ltb (mem_size -64 h.virtual_address) h.size_of_raw_data ≡ false =
          ge→ltb _ _ (omega arith) in
        rw passed (
          committed_read (ptr + h.virtual_address) h.virtual_size h.pointer_to_raw_data
            h.size_of_raw_data s)

    sections_direct :
        (headers : List SectionHeader) (s : S)
        → All SectionFits headers
        → LeavesBytes
            (image_bytes file ptr headers (c.view s))
            (map_sections_direct image block headers s)
    unfolding map_sections_direct image_bytes
    sections_direct [] s fits = (refl, refl)
    sections_direct (h ∷ headers) s (fit, fits) =
        then_bytes (map_section_direct image block h s) _ _ _ (section_direct h s fit)
          (λ s' held. rw (← held) (sections_direct headers s' fits))

    -- A write of a whole buffer that fits in the block.
    -- A write of a whole buffer that fits in the block.
    write_whole :
        (offset raw : ℕ) (bytes : List ℕ) (s : S)
        → length bytes ≡ raw
        → offset + raw ≤ mem_size
        → ((write block offset bytes raw s).0 ≡ ok (min (mem_size -64 offset) raw))
          × (c.view (write block offset bytes raw s).1
              ≡ store_bytes (c.view s) (ptr + offset) bytes)
    write_whole offset raw bytes s same fits =
        let (value, held) = write-store_bytes mo c ptr mem_size offset raw bytes s (omega arith) in
        let whole : min (mem_size -64 offset) raw ≡ raw =
          omega (arith, sub64_le mem_size offset (omega arith) w) in
        let all : take (min (mem_size -64 offset) raw) bytes ≡ bytes =
          take_all (min (mem_size -64 offset) raw) bytes (omega arith) in
        (value, held ∙ ap (store_bytes (c.view s) (ptr + offset)) all)

    -- A part of the file in a buffer, that is written once its pages are committed.
    committed_write :
        (offset size mem_offset pages : ℕ) (k : Eff S (Unit {0})) (m : Bytes) (s : S)
        → mem_offset + size ≤ mem_size
        → ((s' : S)
            → c.view s' ≡ store_bytes (c.view s) (ptr + mem_offset) (load_bytes file offset size)
            → LeavesBytes m (k s'))
        → LeavesBytes m (
            and_then (manager.commit (ptr + mem_offset) pages s) (λ x s'.
              and_then (write block mem_offset (load_bytes file offset size) size s') (λ n. k)))
    committed_write offset size mem_offset pages k m s fits next =
        then_bytes (manager.commit (ptr + mem_offset) pages s) _ _ _
          (reads.commit_ok (ptr + mem_offset) pages s, reads.commit_view (ptr + mem_offset) pages s)
          (λ s' kept.
            then_bytes (write block mem_offset (load_bytes file offset size) size s') _ _ _
              (write_whole mem_offset size (load_bytes file offset size) s'
                (length-load_bytes file offset size) fits)
              (λ s'' held. next s'' (held ∙ rw kept)))

    sections_indirect :
        (headers : List SectionHeader) (buf : List ℕ) (s : S)
        → All SectionFits headers
        → LeavesBytes
            (image_bytes file ptr headers (c.view s))
            (map_sections_indirect image block headers buf s)
    unfolding map_sections_indirect image_bytes
    sections_indirect [] buf s fits = (refl, refl)
    sections_indirect (h ∷ headers) buf s (fit, fits) =
        let raw = h.size_of_raw_data in
        rw (reads.read_lem h.pointer_to_raw_data raw (resize raw buf) s (length-resize raw buf)) (
          committed_write h.pointer_to_raw_data raw h.virtual_address h.virtual_size _ _ s fit
            (λ s' held.
              rw (← held)
                (sections_indirect headers (load_bytes file h.pointer_to_raw_data raw) s' fits)))

    headers_direct :
        (s : S)
        → image.optional_header.size_of_headers ≤ mem_size
        → LeavesBytes
            (store_bytes (c.view s) ptr (load_bytes file 0 image.optional_header.size_of_headers))
            (copy_pe_image_headers_direct image block s)
    unfolding copy_pe_image_headers_direct
    headers_direct s fits =
        let passed : ltb mem_size image.optional_header.size_of_headers ≡ false = ge→ltb _ _ fits in
        rw passed (
          committed_read ptr image.optional_header.size_of_headers 0
            image.optional_header.size_of_headers s)

    headers_indirect :
        (s : S)
        → image.optional_header.size_of_headers ≤ mem_size
        → LeavesBytes
            (store_bytes (c.view s) ptr (load_bytes file 0 image.optional_header.size_of_headers))
            (copy_pe_image_headers_indirect image block s)
    unfolding copy_pe_image_headers_indirect
    headers_indirect s fits =
        let size = image.optional_header.size_of_headers in
        let base : ptr + 0 ≡ ptr = omega arith in
        let written =
          committed_write 0 size 0 size (pure tt)
            (store_bytes (c.view s) (ptr + 0) (load_bytes file 0 size)) s (omega arith)
            (λ s' held. (refl, held)) in
        rw (reads.read_lem 0 size (replicate size 0) s (length-replicate {A = ℕ} size 0))
          (rw base at written)

    -- If reads of the file yield its bytes and committing succeeds, the headers fit in the image's
    -- memory, of 64-bit size, and so do the raw data of each section: copying the headers and mapping the sections succeeds
    -- both straight into the memory and through a buffer, and leaves the same bytes either way, those of the file where the
    -- headers and each section belong.
    pub copy_pe_image-agrees :
        (s : S)
        → image.optional_header.size_of_headers ≤ mem_size
        → All SectionFits image.section_headers
        → let placed = image_bytes file ptr image.section_headers (
            store_bytes (c.view s) ptr (load_bytes file 0 image.optional_header.size_of_headers)) in
          LeavesBytes placed (
            (copy_pe_image_headers_direct image block >> map_pe_image_sections_direct image block)
              s)
          × LeavesBytes placed (
              (copy_pe_image_headers_indirect image block
                  >> map_pe_image_sections_indirect image block)
                s)
    unfolding map_pe_image_sections_direct map_pe_image_sections_indirect
    copy_pe_image-agrees s room fits = (
      then_bytes (copy_pe_image_headers_direct image block s) _ _ _ (headers_direct s room)
          (λ s' held. rw (← held) (sections_direct image.section_headers s' fits)),
      then_bytes (copy_pe_image_headers_indirect image block s) _ _ _ (headers_indirect s room)
          (λ s' held. rw (← held) (sections_indirect image.section_headers [] s' fits)),
    )
