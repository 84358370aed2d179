-- ===== src/Platform/MadeFor.antt =====
-- The processes that the constructor of LocalProcess in src/platform/windows/local_process.cpp makes.
use libload.Common.{
  ℕ, ◌≡◌, ◌≢◌, refl, inl, inr, Bool-cases, ◌==◌, Option, none, some, Result, ok, throw, Bool, true,
  false, arith,
}
use libload.Platform.Processes.{
  ProcessCalls, LocalProcessModuleProvider, LocalProcess, ImageFileMachine, machine_unknown,
  machine_i386, machine_ia64, machine_amd64, machine_other, opened, with_machines, with_handle,
  local_process_with, provider_for, th32cs_snapmodule, th32cs_snapmodule32, x86_process,
  x64_process, native_process, x86_codegen, x64_codegen, local_process, ProcessCodeGenerator,
  native_code_generator, access, open_process, make_local_process, by_machine,
  make_local_process_module_provider,
}

-- A process of this handle, with a provider that was made for the object at this address.
abbrev pub MadeFor : ℕ → ℕ → LocalProcess → Type 0
MadeFor this handle self =
    (provider : LocalProcessModuleProvider) × (generator : ProcessCodeGenerator) × (self
      ≡ local_process_with handle provider generator)
    × (provider.process ≡ this)

x86_process-MadeFor :
    (x86 : Bool) (this handle : ℕ) (self : LocalProcess)
    → x86_process x86 this handle ≡ ok self
    → MadeFor this handle self
x86_process-MadeFor true this handle self h =
    (provider_for 32 this th32cs_snapmodule32, x86_codegen, cc, refl)
x86_process-MadeFor false this handle self h = absurd (cc)

x64_process-MadeFor :
    (x64 : Bool) (this handle : ℕ) (self : LocalProcess)
    → x64_process x64 this handle ≡ ok self
    → MadeFor this handle self
x64_process-MadeFor true this handle self h =
    (provider_for 64 this th32cs_snapmodule, x64_codegen, cc, refl)
x64_process-MadeFor false this handle self h = absurd (cc)

native_process-MadeFor :
    (this handle : ℕ) (native : ImageFileMachine) (self : LocalProcess)
    → native_process handle (make_local_process_module_provider this native) ≡ ok self
    → MadeFor this handle self
unfolding make_local_process_module_provider
native_process-MadeFor this handle machine_unknown self h = absurd (cc)
native_process-MadeFor this handle machine_i386 self h =
    (provider_for 32 this th32cs_snapmodule, native_code_generator, cc, refl)
native_process-MadeFor this handle machine_ia64 self h =
    (provider_for 64 this th32cs_snapmodule, native_code_generator, cc, refl)
native_process-MadeFor this handle machine_amd64 self h =
    (provider_for 64 this th32cs_snapmodule, native_code_generator, cc, refl)
native_process-MadeFor this handle (machine_other n) self h = absurd (cc)

pub by_machine-MadeFor :
    (x86 x64 : Bool) (this handle : ℕ) (process native : ImageFileMachine) (self : LocalProcess)
    → by_machine x86 x64 this handle process native ≡ ok self
    → MadeFor this handle self
unfolding by_machine
by_machine-MadeFor x86 x64 this handle machine_unknown native self h =
    native_process-MadeFor this handle native self h
by_machine-MadeFor x86 x64 this handle machine_i386 native self h =
    x86_process-MadeFor x86 this handle self h
by_machine-MadeFor x86 x64 this handle machine_ia64 native self h =
    x64_process-MadeFor x64 this handle self h
by_machine-MadeFor x86 x64 this handle machine_amd64 native self h =
    x64_process-MadeFor x64 this handle self h
by_machine-MadeFor x86 x64 this handle (machine_other n) native self h = absurd (cc)

module _ {S : Type 0} (calls : ProcessCalls S) where
  opened-ok :
      (r : Result LocalProcess) (self : LocalProcess) (s s₂ : S)
      → opened calls (r, s) ≡ (ok (local_process self), s₂)
      → r ≡ ok self
  opened-ok (ok q) self s s₂ h = cc
  opened-ok (throw e) self s s₂ h = absurd (cc)

  with_machines-ok :
      (x86 x64 : Bool) (this handle : ℕ) (self : LocalProcess)
      (told : Option (ImageFileMachine × ImageFileMachine) × S) (s₂ : S)
      → opened calls (with_machines calls x86 x64 this handle told) ≡ (ok (local_process self), s₂)
      → (process : ImageFileMachine) × (native : ImageFileMachine) × (by_machine x86 x64 this handle
            process native
          ≡ ok self)
  with_machines-ok x86 x64 this handle self (none, s) s₂ h = absurd (cc)
  with_machines-ok x86 x64 this handle self (some (process, native), s) s₂ h =
      (process, native, opened-ok (by_machine x86 x64 this handle process native) self s s₂ h)

  with_handle-ok :
      (x86 x64 : Bool) (this handle : ℕ) (self : LocalProcess) (s₁ s₂ : S)
      → with_handle calls x86 x64 this (handle, s₁) ≡ (ok (local_process self), s₂)
      → (handle ≢ 0)
        × ((process : ImageFileMachine) × (native : ImageFileMachine) × (by_machine x86 x64 this
                handle process native
              ≡ ok self))
  unfolding make_local_process
  with_handle-ok x86 x64 this handle self s₁ s₂ h = elim (Bool-cases (handle == 0)) [
    | inl null ↦ absurd (let e = rw null at h in cc)
    | inr set ↦ (
      ground arith,
      with_machines-ok x86 x64 this handle self (calls.is_wow64_process2 handle s₁) s₂
          (rw set at h),
    )
  ]

  -- Only a handle that is not null makes a process.
  pub open_process-MadeFor :
      (x86 x64 : Bool) (this process_id handle : ℕ) (self : LocalProcess) (s s₁ s₂ : S)
      → calls.open_process_handle access process_id s ≡ (handle, s₁)
      → open_process calls x86 x64 this process_id s ≡ (ok (local_process self), s₂)
      → (handle ≢ 0)
        × ((process : ImageFileMachine) × (native : ImageFileMachine) × (by_machine x86 x64 this
                handle process native
              ≡ ok self))
  unfolding open_process make_local_process
  open_process-MadeFor x86 x64 this process_id handle self s s₁ s₂ got done =
      elim (Bool-cases (process_id == calls.get_current_process_id)) [
        | inl current ↦ absurd (let e = rw current at done in cc)
        | inr other ↦ with_handle-ok x86 x64 this handle self s₁ s₂ (rw (other, got) at done)
      ]
