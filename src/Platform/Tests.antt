-- ===== src/Platform/Tests.antt =====
-- The theorems on processes at two small models of Windows.
use libload.Common.{
  refl, some, ◌≢◌, ℕ, true, ◌-◌, ◌^◌, ◌≡◌, List, [], ok, throw, Error, false, none, arith,
}
use libload.Memory.Scope.{LocalMemory}
use libload.Platform.Win32.{MemoryCalls}
use libload.Platform.ProcessMemory.{local_process_memory}
use libload.Platform.Rights.{ChecksRights, open_process-refused}
use libload.Platform.Handles.{IdentityCalls, local_process_modules, methods, open_process-handle}
use libload.Platform.Processes.{
  machine_amd64, LocalProcess, LocalProcessModuleProvider, ProcessCodeGenerator, local_process,
  local_process_with, provider_for, th32cs_snapmodule, ProcessRight, access, x64_codegen,
  destroy_local_process, ProcessCalls, open_process,
}

-- The state holds the rights of the one handle, 64, while it is open.
abbrev wow64_fails : ProcessCalls (List ProcessRight)
wow64_fails = record {
  get_current_process_id = 1;
  runtime_function_size = 12;
  open_process_handle = λ rights process_id s. (64, rights);
  is_wow64_process2 = λ handle s. (none, s);
  close_handle = λ handle s. [];
  rtl_add_function_table = λ table count base s. (true, s);
  rtl_delete_function_table = λ table s. (true, s);
  get_last_error = λ s. 5;
}

checks : ChecksRights wow64_fails (λ handle s. s)
checks = record {
  opened_with = λ rights process_id handle s s' got set. cc;
  query_refused = λ handle s refused. refl;
}

open_process-refused_example :
    open_process wow64_fails true true 500 7 [] ≡ (throw (Error.system_error 5), access)
open_process-refused_example =
    open_process-refused wow64_fails (λ handle s. s) checks true true 500 7 [] (omega arith)

-- Windows tells the machine of the process, an AMD64 one.
abbrev amd64_found : ProcessCalls (List ProcessRight)
amd64_found = record wow64_fails {
  is_wow64_process2 = λ handle s. (some (machine_amd64, machine_amd64), s);
}

abbrev ids : IdentityCalls (List ProcessRight)
ids = record { get_current_process = 2 ^ 64 - 1; get_process_id = λ handle s. 7 }

abbrev refuses : MemoryCalls (List ProcessRight)
refuses = record {
  virtual_alloc = λ mem size kind protect s. (0, s);
  virtual_free = λ mem size kind s. (false, s);
  virtual_protect = λ mem size protect s. (false, s);
  read_process_memory = λ mem size s. (none, s);
  write_process_memory = λ mem buffer size s. (none, s);
  get_last_error = λ s. 5;
}

abbrev no_memory : LocalMemory (List ProcessRight)
no_memory = record { load = λ p n s. []; store = λ p bs s. s }

abbrev opened : LocalProcess
opened = local_process_with 64 (provider_for 64 500 th32cs_snapmodule) x64_codegen

open_process-handle_example :
    let m = methods amd64_found ids (λ handle. refuses) no_memory (local_process opened) in
    (◌≢◌ {A = ℕ} 64 0)
    × (m.native_handle ≡ 64)
    × (m.process.memory_manager ≡ local_process_memory refuses)
    × ((provider : LocalProcessModuleProvider) × (m.module_provider
          ≡ ok (local_process_modules provider))
        × (provider.process ≡ 500))
    × ((generator : ProcessCodeGenerator) × (m.code_generator ≡ ok generator))
    × (destroy_local_process amd64_found opened access ≡ (ok tt, []))
unfolding open_process
open_process-handle_example =
    open_process-handle amd64_found ids (λ handle. refuses) no_memory true true 500 7 64 opened []
      access access refl refl
