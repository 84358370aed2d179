-- ===== src/Pe/PagesTests.antt =====
-- The theorem on committed pages at a manager that refuses a copy into memory that is not committed.
use libload.Common.{refl, [], ◌∷◌, ok, throw, Error, true, false, Bool, arith, if◌then◌else◌, pure}
use libload.Memory.Bytes.{load_bytes, length-load_bytes}
use libload.Memory.Manager.{MemoryManager}
use libload.Memory.Block.{owned_memory}
use libload.Memory.Flat.{counting}
use libload.Memory.Paged.{Committed, all_in, all_in-true, commit_range, inside, kept}
use libload.Pe.Format.{FileImage}
use libload.Pe.Pages.{CommitsPages, AllCommitted}
use libload.Pe.Pages.Copied.{copying, copy_pe_image-AllCommitted}

abbrev strict_manager : Bool → MemoryManager Committed
strict_manager direct = record {
  allows_direct_addressing = direct;
  allocate = λ base size. pure base;
  release = λ mem size. pure tt;
  commit = λ mem size s. (ok tt, commit_range mem size s);
  decommit = λ mem size. pure tt;
  set_access = λ mem size access. pure tt;
  copy_from = λ mem size. pure (load_bytes counting mem size);
  copy_into = λ buffer size mem s.
      (if all_in s mem size then ok size else throw (Error.system_error 998), s);
}

abbrev two_sections : FileImage Committed
two_sections = record {
  optional_header = record {
    size_of_image = 64;
    size_of_headers = 8;
    image_base = 4096;
    address_of_entry_point = 0;
  };
  section_headers =
      record {
        virtual_address = 16;
        virtual_size = 12;
        size_of_raw_data = 10;
        pointer_to_raw_data = 8;
        characteristics = 0;
      }
      ∷ record {
        virtual_address = 32;
        virtual_size = 32;
        size_of_raw_data = 32;
        pointer_to_raw_data = 18;
        characteristics = 0;
      }
      ∷ [];
  read = λ offset size buf s. (ok (load_bytes counting offset size), s);
  read_into =
      λ offset size mem s. (if all_in s mem size then ok tt else throw (Error.system_error 998), s);
}

abbrev commits : (direct : Bool) → CommitsPages (strict_manager direct) two_sections
commits direct = record {
  committed = λ s. s;
  commit_ok = λ mem size s. refl;
  commit_within = λ mem size a s h. inside mem size a (s a) h;
  commit_keeps = λ mem size a s h. kept _ (s a) h;
  copy_ok = λ buffer size mem s h there. rw (all_in-true s mem size there) refl;
  copy_keeps = λ buffer size mem s. refl;
  read_into_ok = λ offset size mem s there. rw (all_in-true s mem size there) refl;
  read_into_keeps = λ offset size mem s. refl;
  read_ok = λ offset size buf s h.
      (load_bytes counting offset size, refl, length-load_bytes counting offset size);
}

abbrev none_committed : Committed
none_committed a = false

-- Through buffers.
indirect_copy :
    AllCommitted
      (commits false)
      4096
      (copying (commits false) owned_memory 4096 64 (omega arith) none_committed)
indirect_copy =
    copy_pe_image-AllCommitted (commits false) owned_memory 4096 64 (omega arith) none_committed
      (omega arith) ((omega arith, omega arith), ((omega arith, omega arith), tt))

copy_pe_image-AllCommitted_example :
    AllCommitted
      (commits true)
      4096
      (copying (commits true) owned_memory 4096 64 (omega arith) none_committed)
copy_pe_image-AllCommitted_example =
    copy_pe_image-AllCommitted (commits true) owned_memory 4096 64 (omega arith) none_committed
      (omega arith) ((omega arith, omega arith), ((omega arith, omega arith), tt))
