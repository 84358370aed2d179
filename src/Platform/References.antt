-- ===== src/Platform/References.antt =====
-- The references that the system modules of src/platform/windows/system_module.cpp and the provider of
-- src/platform/windows/current_process.cpp hold: a module that is made of a handle owns one.
use Prim.Native.String.{String}
use libload.Common.{
  ℕ, ◌+◌, ◌-◌, ◌≡◌, refl, Option, none, some, Eff, arith, ◌==◌, if◌then◌else◌, Bool-cases, inl, inr,
  ◌>>=◌, ◌>>◌, pure, and_then,
}
use libload.Platform.Win32.{ModuleCalls}
use libload.Platform.SystemModules.{
  destroy_system_module, move_system_module, do_load_system_module, get_process_module,
  found_handle, handle_or_null,
}

-- One, for the module of the handle, if it is not null.
abbrev pub reference_to : ℕ → ℕ → ℕ
reference_to handle h = if handle == 0 then 0 else if handle == h then 1 else 0

-- What Windows documents of the reference counts of modules.
pub record CountsReferences {S : Type 0} (calls : ModuleCalls S) : Type 0 where
  pub count : S → ℕ → ℕ
  pub load_lem :
      (name : String) (h : ℕ) (s : S)
      → count (calls.load_library name s).1 h
        ≡ count s h + reference_to (calls.load_library name s).0 h
  pub found_lem :
      (name : String) (handle h : ℕ) (s s' : S)
      → calls.get_module_handle_ex name s ≡ (some handle, s')
      → count s' h ≡ count s h + reference_to handle h
  pub not_found_lem :
      (name : String) (h : ℕ) (s s' : S)
      → calls.get_module_handle_ex name s ≡ (none, s')
      → count s' h ≡ count s h
  pub free_lem :
      (handle h : ℕ) (s : S)
      → count (calls.free_library handle s) h ≡ count s h - reference_to handle h

module _ {S : Type 0} (calls : ModuleCalls S) where
  -- A module is moved, and both objects are destroyed, first the one that was moved from.
  abbrev pub moved_and_destroyed : Option ℕ → Eff S (Unit {0})
  moved_and_destroyed none = pure tt
  moved_and_destroyed (some handle) =
      let (target, source) = move_system_module calls handle in
      destroy_system_module calls source >> destroy_system_module calls target

  module _ (counts : CountsReferences calls) (h : ℕ) where
    destroyed :
        (handle : ℕ) (s : S)
        → counts.count (moved_and_destroyed (handle_or_null calls handle) s).1 h
          ≡ counts.count s h - reference_to handle h
    unfolding move_system_module destroy_system_module
    destroyed handle s = elim (Bool-cases (handle == 0)) [
      | inl null ↦ rw null (omega arith)
      | inr set ↦ let freed = counts.free_lem handle h s in rw set (rw set (rw set at freed))
    ]

    loaded :
        (found : ℕ × S) (s : S)
        → counts.count found.1 h ≡ counts.count s h + reference_to found.0 h
        → counts.count (moved_and_destroyed (handle_or_null calls found.0) found.1).1 h
          ≡ counts.count s h
    loaded (handle, s') s held = omega (arith, destroyed handle s', held)

    process_module :
        (told : Option ℕ × S) (s : S)
        → ((handle : ℕ)
            → told.0 ≡ some handle
            → counts.count told.1 h ≡ counts.count s h + reference_to handle h)
        → (told.0 ≡ none → counts.count told.1 h ≡ counts.count s h)
        → counts.count (and_then (found_handle calls told) moved_and_destroyed).1 h
          ≡ counts.count s h
    process_module (none, s') s held kept = kept refl
    process_module (some handle, s') s held kept =
        omega (arith, destroyed handle s', held handle refl)

    -- If Windows counts the references to a module, one more for a handle that LoadLibrary or
    -- GetModuleHandleEx gives, one less for FreeLibrary: when a module is looked for by either
    -- provider, and the one that is found, if any, is moved and both objects are destroyed, every
    -- module has as many references as before, also if the search throws.
    pub system_module-balanced :
        (name : String) (s : S)
        → (counts.count ((do_load_system_module calls name >>= moved_and_destroyed) s).1 h
            ≡ counts.count s h)
          × (counts.count ((get_process_module calls name >>= moved_and_destroyed) s).1 h
              ≡ counts.count s h)
    unfolding do_load_system_module get_process_module
    system_module-balanced name s = (
      loaded (calls.load_library name s) s (counts.load_lem name h s),
      process_module (calls.get_module_handle_ex name s) s
          (λ handle e.
            counts.found_lem name handle h s _ (λ i. (e i, (calls.get_module_handle_ex name s).1)))
          (λ e.
            counts.not_found_lem name h s _ (λ i. (e i, (calls.get_module_handle_ex name s).1))),
    )
