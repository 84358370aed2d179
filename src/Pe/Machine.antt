-- ===== src/Pe/Machine.antt =====
-- A machine for the tests: a memory, and the map of a cache of imports, which keeps what is assigned to it.
use Prim.Native.String.{String}
use libload.Common.{refl, true, List, Option, ok, pure, take}
use libload.Memory.Bytes.{Bytes, load_bytes, store_bytes}
use libload.Memory.Manager.{MemoryManager, CopiesBytes}
use libload.Module.Provider.{MapCell}

pub record Machine : Type 0 where
  pub memory : Bytes
  pub modules : List (String × Option String)

abbrev pub machine_manager : MemoryManager Machine
machine_manager = record {
  allows_direct_addressing = true;
  allocate = λ base size. pure base;
  release = λ mem size. pure tt;
  commit = λ mem size. pure tt;
  decommit = λ mem size. pure tt;
  set_access = λ mem size access. pure tt;
  copy_from = λ mem size s. (ok (load_bytes s.memory mem size), s);
  copy_into = λ buffer size mem s.
      (ok size, record s { memory = store_bytes s.memory mem (take size buffer) });
}

abbrev pub machine-CopiesBytes : CopiesBytes machine_manager
machine-CopiesBytes = record {
  view = λ s. s.memory;
  copy_from_lem = λ mem size s. refl;
  copy_into_value = λ buffer size mem s h. refl;
  copy_into_view = λ buffer size mem s h. refl;
}

abbrev pub modules_cell : MapCell Machine (Option String)
modules_cell = record {
  entries = λ s. s.modules;
  assign = λ entries s. record s { modules = entries };
}
