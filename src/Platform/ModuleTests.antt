-- ===== src/Platform/ModuleTests.antt =====
-- The theorems on system modules and mapped files at small examples.
use libload.Common.{
  ℕ, ◌+◌, ◌-◌, ◌≡◌, refl, ap, ◌∙◌, [], ◌∷◌, some, none, throw, Error, arith, ◌>>=◌,
}
use libload.Platform.Win32.{ModuleCalls}
use libload.Platform.SystemModules.{do_load_system_module, get_process_module}
use libload.Platform.References.{
  CountsReferences, moved_and_destroyed, reference_to, system_module-balanced,
}
use libload.Platform.MappedFile.{read_mapped, read_mapped_lem}

-- Windows with one module, whose handle is 64; the state has the references to each handle.
abbrev References : Type 0
References = ℕ → ℕ

abbrev one_module : ModuleCalls References
one_module = record {
  get_module_handle_ex = λ name s. (some 64, λ h. s h + reference_to 64 h);
  load_library = λ name s. (64, λ h. s h + reference_to 64 h);
  get_proc_address = λ handle name s. (0, s);
  free_library = λ handle s h. s h - reference_to handle h;
  get_last_error = λ s. 126;
}

found_one :
    (handle h : ℕ) (s s' : References)
    → one_module.get_module_handle_ex "ntdll" s ≡ (some handle, s')
    → s' h ≡ s h + reference_to handle h
found_one handle h s s' found =
    let is : 64 ≡ handle = cc in
    let counted : s' ≡ (λ k. s k + reference_to 64 k) = cc in
    ap (λ c. c h) counted ∙ ap (λ k. s h + reference_to k h) is

not_none : (s s' : References) → one_module.get_module_handle_ex "ntdll" s ≡ (none, s') → ⊥
not_none s s' found = cc

abbrev one_module-CountsReferences : CountsReferences one_module
one_module-CountsReferences = record {
  count = λ s. s;
  load_lem = λ name h s. refl;
  found_lem = λ name handle h s s' found. found_one handle h s s' found;
  not_found_lem = λ name h s s' found. absurd (not_none s s' found);
  free_lem = λ handle h s. refl;
}

system_module-balanced_example :
    (((do_load_system_module one_module "ntdll" >>= moved_and_destroyed one_module) (λ h. 2)).1 64
      ≡ 2)
    × (((get_process_module one_module "ntdll" >>= moved_and_destroyed one_module) (λ h. 2)).1 64
        ≡ 2)
system_module-balanced_example =
    system_module-balanced one_module one_module-CountsReferences 64 "ntdll" (λ h. 2)

read_mapped_lem_example : read_mapped (1 ∷ 2 ∷ 3 ∷ []) 4 1 (7 ∷ []) ≡ throw Error.undefined
read_mapped_lem_example = read_mapped_lem (1 ∷ 2 ∷ 3 ∷ []) 4 1 (7 ∷ []) (omega arith)
