-- ===== src/Pe/Pages/Indirect.antt =====
-- What the copying of an image through buffers in src/pe/image.hpp commits.
use libload.Common.{
  pure, [], ◌∷◌, ◌>>◌, replicate, length-replicate, refl, All, ℕ, ◌+◌, ◌≤◌, ◌≡◌, ap, ◌∙◌, List, Eff,
  Result, ok, ◌>>=◌, and_then, value_and_state, IsU64, arith, length, min, ◌-64◌,
}
use libload.Pe.Sections.{
  resize, copy_pe_image_headers_indirect, map_sections_indirect, map_pe_image_sections_indirect,
}
use libload.Pe.Agreement.{length-resize}
use libload.Memory.Manager.{MemoryManager}
use libload.Memory.Block.{MemoryOwnership, MemoryBlock, memory_block, write}
use libload.Pe.Format.{SectionHeader, FileImage}
use libload.Pe.Pages.{CommitsPages, Includes, Keeps, IsCovered, Mapped, AllCommitted, ran}

module _ {S : Type 0} {manager : MemoryManager S} {image : FileImage S}
    (p : CommitsPages manager image) (mo : MemoryOwnership) (ptr mem_size : ℕ)
    (w : IsU64 mem_size) where
  abbrev block : MemoryBlock mo S
  block = memory_block manager ptr mem_size

  write_ok :
      (offset n : ℕ) (bytes : List ℕ) (s : S)
      → offset + n ≤ mem_size
      → length bytes ≡ n
      → Includes p (ptr + offset) n s
      → ((write block offset bytes n s).0 ≡ ok n)
        × (p.committed (write block offset bytes n s).1 ≡ p.committed s)
  unfolding write
  write_ok offset n bytes s fits sized there =
      let all : min (mem_size -64 offset) n ≡ n = omega arith in
      rw all (
        p.copy_ok bytes n (ptr + offset) s (omega arith) there,
        p.copy_keeps bytes n (ptr + offset) s,
      )

  -- A commit, a write into what it has committed, and then `k`.
  commit_write :
      (mem offset size n : ℕ) (bytes : List ℕ) (k : Eff S (Unit {0}))
      (Q : Result (Unit {0}) × S → Type 0) (s : S)
      → mem ≡ ptr + offset
      → offset + n ≤ mem_size
      → n ≤ size
      → length bytes ≡ n
      → ((s' : S) → Includes p mem size s' → Keeps p s s' → Q (k s'))
      → Q (and_then (manager.commit mem size s) (λ x. write block offset bytes n >>= λ written. k))
  commit_write mem offset size n bytes k Q s here fits small sized next =
      let s₁ = (manager.commit mem size s).1 in
      let (written, same) =
        write_ok offset n bytes s₁ fits sized
          (λ a within. p.commit_within mem size a s (omega arith)) in
      rw (value_and_state (manager.commit mem size s) (p.commit_ok mem size s)) (
        rw (value_and_state (write block offset bytes n s₁) written) (
          next _ (λ a within. ap (λ pages. pages a) same ∙ p.commit_within mem size a s within)
            (λ a before. ap (λ pages. pages a) same ∙ p.commit_keeps mem size a s before)))

  -- Bytes of the file, in front of that.
  read_commit_write :
      (from mem offset size n : ℕ) (buf : List ℕ) (k : List ℕ → Eff S (Unit {0}))
      (Q : Result (Unit {0}) × S → Type 0) (s : S)
      → mem ≡ ptr + offset
      → offset + n ≤ mem_size
      → n ≤ size
      → length buf ≡ n
      → ((bytes : List ℕ) (s' : S) → Includes p mem size s' → Keeps p s s' → Q (k bytes s'))
      → Q (
          and_then (image.read from n buf s) (λ bytes s₁.
            and_then
              (manager.commit mem size s₁)
              (λ x. write block offset bytes n >>= λ written. k bytes)))
  read_commit_write from mem offset size n buf k Q s here fits small filled next =
      let (bytes, read, sized) = p.read_ok from n buf s filled in
      rw read
        (commit_write mem offset size n bytes (k bytes) Q s here fits small sized (next bytes))

  map_sections-Mapped :
      (headers : List SectionHeader) (rdata_buf : List ℕ) (s : S)
      → All (IsCovered p mem_size) headers
      → Mapped p ptr headers s (map_sections_indirect image block headers rdata_buf s)
  unfolding map_sections_indirect
  map_sections-Mapped [] rdata_buf s fits = (refl, (λ a h. h), tt)
  map_sections-Mapped (h ∷ headers) rdata_buf s ((inside, small), fits) =
      read_commit_write h.pointer_to_raw_data (ptr + h.virtual_address) h.virtual_address
        h.virtual_size h.size_of_raw_data (resize h.size_of_raw_data rdata_buf)
        (map_sections_indirect image block headers) (Mapped p ptr (h ∷ headers) s) s refl inside
        small (length-resize h.size_of_raw_data rdata_buf)
        (λ bytes s' there keeps.
          let (done, kept, all) = map_sections-Mapped headers bytes s' fits in
          (done, λ a before. kept a (keeps a before), (λ a within. kept a (there a within), all)))

  headers-committed :
      (s : S)
      → image.optional_header.size_of_headers ≤ mem_size
      → let r = copy_pe_image_headers_indirect image block s in
        (r.0 ≡ ok tt) × Includes p ptr image.optional_header.size_of_headers r.1
  unfolding copy_pe_image_headers_indirect
  headers-committed s room =
      let size = image.optional_header.size_of_headers in
      read_commit_write 0 ptr 0 size size (replicate size 0) (λ bytes. pure tt)
        (λ r. (r.0 ≡ ok tt) × Includes p ptr size r.1) s (omega arith) (omega (arith, room))
        (omega arith) (length-replicate size 0) (λ bytes s' there keeps. (refl, there))

  pub indirect-AllCommitted :
      (s : S)
      → image.optional_header.size_of_headers ≤ mem_size
      → All (IsCovered p mem_size) image.section_headers
      → AllCommitted p ptr (
          (copy_pe_image_headers_indirect image block >> map_pe_image_sections_indirect image block)
            s)
  unfolding map_pe_image_sections_indirect
  indirect-AllCommitted s room fits =
      let (done, there) = headers-committed s room in
      let s' = (copy_pe_image_headers_indirect image block s).1 in
      let (mapped, keeps, all) = map_sections-Mapped image.section_headers [] s' fits in
      ran (copy_pe_image_headers_indirect image block s)
        (map_pe_image_sections_indirect image block) (AllCommitted p ptr) done
        (mapped, (λ a within. keeps a (there a within)), all)
