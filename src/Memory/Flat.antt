-- ===== src/Memory/Flat.antt =====
-- A manager over one memory, for the tests: it shows that what is assumed of a manager can be met.
use mathlib.Core.Path.{refl}
use libload.Common.{◌%◌, ok, pure, true, take}
use libload.Memory.Bytes.{Bytes, load_bytes, store_bytes}
use libload.Memory.Manager.{MemoryManager, CopiesBytes}

abbrev pub flat_manager : MemoryManager Bytes
flat_manager = record {
  allows_direct_addressing = true;
  allocate = λ base size. pure base;
  release = λ mem size. pure tt;
  commit = λ mem size. pure tt;
  decommit = λ mem size. pure tt;
  set_access = λ mem size access. pure tt;
  copy_from = λ mem size m. (ok (load_bytes m mem size), m);
  copy_into = λ buffer size mem m. (ok size, store_bytes m mem (take size buffer));
}

abbrev pub flat-CopiesBytes : CopiesBytes flat_manager
flat-CopiesBytes = record {
  view = λ m. m;
  copy_from_lem = λ mem size s. refl;
  copy_into_value = λ buffer size mem s h. refl;
  copy_into_view = λ buffer size mem s h. refl;
}

-- Every address holds its low byte.
abbrev pub counting : Bytes
counting a = a % 256
