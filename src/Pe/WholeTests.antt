-- ===== src/Pe/WholeTests.antt =====
-- The theorems on whole loads at a small image, with views that read the image's memory.
use libload.Common.{
  refl, ap, ◌∙◌, inl, ◌⊎◌, ◌<◌, ◌≤◌, ℕ, List, ◌+◌, ◌≡◌, [], ◌∷◌, ok, arith, All, false, ◌==◌,
  if◌then◌else◌,
}
use libload.Memory.Bytes.{Bytes, load_bytes, store_bytes}
use libload.Memory.Block.{memory_block}
use libload.Memory.Endian.{le_value}
use libload.Memory.Manager.{MemoryManager, CopiesBytes}
use libload.Memory.Flat.{flat_manager, flat-CopiesBytes, counting}
use libload.Pe.Format.{
  ImportDescriptor, by_name, BaseRelocation, rel_based_dir64, VirtualImage, SectionHeader,
}
use libload.Pe.Load.{Surroundings, load_pe_image}
use libload.Pe.Agreement
use libload.Pe.Agreement.{image_bytes}
use libload.Pe.Neutral
use libload.Pe.Settled
use libload.Pe.Whole.{placed}
use libload.Pe.Loaded
use libload.Pe.Bound.{past}
use libload.Pe.Rebase.{BlockFits}
use libload.Pe.Permissions.{has}
use libload.Pe.LoadTests.{
  header, section, flags, in_memory, zeros, zeros_sized, file, file_image, file_image-ReadsFile,
  symbol, one_module, all_provided, expected,
}

-- The view takes from the memory of the image its base, the characteristics of its section, the place of
-- its relocations and the place of its thunk.
abbrev pub section_at : ℕ → List SectionHeader
section_at b = record section { characteristics = 0x5ffffffc + b } ∷ []

abbrev pub relocations_at : ℕ → List BaseRelocation
relocations_at b =
    record {
      virtual_address = 13 + b;
      size_of_block = 12;
      entries = record { address = 17 + b; kind = rel_based_dir64 } ∷ [];
    }
    ∷ []

abbrev pub imported_at : ℕ → List ImportDescriptor
imported_at b =
    record { name = "kernel32"; entries = by_name "Sleep" ∷ []; thunks = (50 + b) ∷ [] } ∷ []

abbrev reading : VirtualImage Bytes
reading = record in_memory {
  optional_header = λ m. record header { image_base = 4093 + m 4096 };
  section_headers = λ m. section_at (m 4097);
  base_relocations = λ m. relocations_at (m 4128);
  import_descriptors = λ m. imported_at (m 4099);
}

-- The same where a byte says that there are no relocations.
abbrev unrelocated : VirtualImage Bytes
unrelocated = record reading {
  base_relocations = λ m. if m 4098 == 5 then [] else relocations_at (m 4128);
}

abbrev surroundings : VirtualImage Bytes → Surroundings Bytes
surroundings image = record {
  current = flat_manager;
  local = record { load = λ p n m. load_bytes m p n; store = λ p bs m. store_bytes m p bs };
  uninit = zeros;
  flags = flags;
  virtual_image = λ block. image;
}

-- What has been copied, at the bytes that the views read.
abbrev pub copied : Bytes
copied = placed file_image file 4096 counting

pub copied_bytes :
    (copied 4096 ≡ 3)
    × (copied 4097 ≡ 4)
    × (copied 4098 ≡ 5)
    × (copied 4099 ≡ 6)
    × (copied 4128 ≡ 19)
unfolding image_bytes load_bytes store_bytes
copied_bytes = (refl, refl, refl, refl, refl)

unmoved :
    (mem size access : ℕ) (s : Bytes)
    → Neutral.Unmoved flat-CopiesBytes s (flat_manager.set_access mem size access s)
unmoved mem size access s = (refl, λ a. refl)

pub blocks :
    (b : ℕ)
    → b ≡ 19
    → All (BlockFits 64 64) (relocations_at b)
      × All (λ r. All (λ e. Neutral.IsKnown e.kind) r.entries) (relocations_at b)
blocks b h = rw h (
  (record { short = omega arith; in_image = omega arith; entries_fit = (omega arith, tt) }, tt),
  ((tt, tt), tt),
)

pub stays :
    (b : ℕ)
    → b ≡ 4
    → All (λ h. has h.characteristics flags.scn_mem_discardable ≡ false) (section_at b)
stays b h = rw h (refl, tt)

pub base_at : (b : ℕ) → b ≡ 3 → 4093 + b ≡ 4096
base_at b h = omega (arith, h)

-- The bytes that are read are below the thunk.
settled :
    (Good : Bytes → Type 0)
    → ((v : Bytes) → Good v → v 4097 ≡ copied 4097)
    → Settled.IsSettled flat-CopiesBytes flags 4096 64 reading copied Good
settled Good keeps =
    let (base, kind, more, thunk, place) = copied_bytes in
    record {
      preferred = λ s h. base_at (s 4096) (ap (λ m. m 4096) h ∙ base);
      blocks_fit = λ s h. (blocks (s 4128) (ap (λ m. m 4128) h ∙ place)).0;
      types_known = λ s h. (blocks (s 4128) (ap (λ m. m 4128) h ∙ place)).1;
      sections_stay = λ s good. stays (s 4097) (keeps s good ∙ kind);
    }

imports_are : (s : Bytes) → s ≡ copied → imported_at (s 4099) ≡ imported_at 6
imports_are s h =
    let (base, kind, more, thunk, place) = copied_bytes in
    ap imported_at (ap (λ m. m 4099) h ∙ thunk)

abbrev direct : Surroundings Bytes
direct = surroundings reading

load_pe_image-Settled_example :
    let r = load_pe_image direct file_image flat_manager all_provided counting in
    (r.0 ≡ ok (memory_block flat_manager 4096 64))
    × ((((le_value (load_bytes r.1 (4096 + 56) 8) ≡ 4242) × Unit {0}) × Unit {0})
        × ((a : ℕ) → (a < 4096 + 56) ⊎ (4096 + 64 ≤ a) → r.1 a ≡ expected a))
unfolding image_bytes past
load_pe_image-Settled_example =
    Loaded.load_pe_image-Settled flat-CopiesBytes unmoved one_module symbol
      (λ mod_name name s. (refl, refl)) all_provided (λ name s. (refl, refl)) direct zeros_sized
      4096 64 (omega arith) (omega arith) (imported_at 6) 56
      (((omega arith, omega arith, omega arith, omega arith), tt), tt) file_image file
      file_image-ReadsFile (λ a. omega arith) refl (omega arith) (omega arith, tt) counting counting
      (settled _ (λ v good. good.1 4097 (inl (omega arith))), imports_are) refl refl
      (λ a. omega arith)

-- The same memory, as that of another process.
abbrev remote_manager : MemoryManager Bytes
remote_manager = record flat_manager { allows_direct_addressing = false }

abbrev remote-CopiesBytes : CopiesBytes remote_manager
remote-CopiesBytes = record {
  view = λ m. m;
  copy_from_lem = λ mem size s. refl;
  copy_into_value = λ buffer size mem s h. refl;
  copy_into_view = λ buffer size mem s h. refl;
}

abbrev remote-ReadsFile : Agreement.ReadsFile remote-CopiesBytes file_image file
remote-ReadsFile = record {
  read_lem = λ offset size buf s h. refl;
  read_into_ok = λ offset size mem s. refl;
  read_into_view = λ offset size mem s. refl;
  commit_ok = λ mem size s. refl;
  commit_view = λ mem size s. refl;
}

remote_unmoved :
    (mem size access : ℕ) (s : Bytes)
    → Neutral.Unmoved remote-CopiesBytes s (remote_manager.set_access mem size access s)
remote_unmoved mem size access s = (refl, λ a. refl)

pub no_blocks : (b c : ℕ) → b ≡ 5 → (if b == 5 then [] else relocations_at c) ≡ []
no_blocks b c h = rw h refl

no_relocations : (s : Bytes) → s ≡ copied → unrelocated.base_relocations s ≡ []
no_relocations s h =
    let (base, kind, more, thunk, place) = copied_bytes in
    no_blocks (s 4098) (s 4128) (ap (λ m. m 4098) h ∙ more)

settled_elsewhere :
    (Good : Bytes → Type 0)
    → ((v : Bytes) → Good v → v 4097 ≡ copied 4097)
    → Settled.IsSettled remote-CopiesBytes flags 4096 64 unrelocated copied Good
settled_elsewhere Good keeps =
    let (base, kind, more, thunk, place) = copied_bytes in
    record {
      preferred = λ s h. base_at (s 4096) (ap (λ m. m 4096) h ∙ base);
      blocks_fit = λ s h. rw (no_relocations s h) tt;
      types_known = λ s h. rw (no_relocations s h) tt;
      sections_stay = λ s good. stays (s 4097) (keeps s good ∙ kind);
    }

abbrev elsewhere : Surroundings Bytes
elsewhere = surroundings unrelocated

load_pe_image-Settled_elsewhere_example :
    let r = load_pe_image elsewhere file_image remote_manager all_provided counting in
    (r.0 ≡ ok (memory_block remote_manager 4096 64))
    × ((((le_value (load_bytes r.1 (4096 + 56) 8) ≡ 4242) × Unit {0}) × Unit {0})
        × ((a : ℕ) → (a < 4096 + 56) ⊎ (4096 + 64 ≤ a) → r.1 a ≡ expected a))
unfolding image_bytes past
load_pe_image-Settled_elsewhere_example =
    Loaded.load_pe_image-Settled_elsewhere remote-CopiesBytes remote_unmoved one_module symbol
      (λ mod_name name s. (refl, refl)) all_provided (λ name s. (refl, refl)) elsewhere zeros_sized
      4096 64 (omega arith) (omega arith) (imported_at 6) 56
      (((omega arith, omega arith, omega arith, omega arith), tt), tt) file_image file
      remote-ReadsFile (λ a. omega arith) refl (omega arith) (omega arith, tt) counting counting
      (settled_elsewhere _ (λ v good. good.1 4097 (inl (omega arith))), imports_are) no_relocations
      refl refl (λ a. omega arith)
