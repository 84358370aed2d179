-- ===== src/Platform/Rights.antt =====
-- The rights of the handles that open_process of src/platform/windows/local_process.cpp asks for.
use libload.Common.{
  refl, Bool-cases, if◌then◌else◌, ℕ, ◌≡◌, ◌≢◌, List, [], ◌∷◌, ◌⊎◌, inl, inr, arith, Bool, false,
  none, throw, Error, ◌==◌,
}
use libload.Platform.Processes.{
  ProcessRight, process_query_limited_information, access, ProcessCalls, open_process,
  make_local_process,
}

-- What Windows documents of the rights of a handle: it has those that it was opened with, and the call that
-- tells the machine of a process refuses a handle without the right to query it.
abbrev pub Allows : ProcessRight → List ProcessRight → Type 0
Allows right [] = ⊥
Allows right (r ∷ rights) = (r ≡ right) ⊎ Allows right rights

pub record ChecksRights {S : Type 0} (calls : ProcessCalls S) (granted : ℕ → S → List ProcessRight)
    : Type 0 where
  pub opened_with :
      (rights : List ProcessRight) (process_id handle : ℕ) (s s' : S)
      → calls.open_process_handle rights process_id s ≡ (handle, s')
      → handle ≢ 0
      → granted handle s' ≡ rights
  pub query_refused :
      (handle : ℕ) (s : S)
      → ¬ Allows process_query_limited_information (granted handle s)
      → (calls.is_wow64_process2 handle s).0 ≡ none

not_allowed : ¬ Allows process_query_limited_information access
not_allowed (inl e) = cc
not_allowed (inr (inl e)) = cc
not_allowed (inr (inr h)) = h

module _ {S : Type 0} (calls : ProcessCalls S) where
  -- If Windows does not tell the machine of a process that is opened, the handle is not closed.
  open_process-unclosed :
      (x86 x64 : Bool) (this process_id handle : ℕ) (s s₁ s₂ : S)
      → process_id ≢ calls.get_current_process_id
      → handle ≢ 0
      → calls.open_process_handle access process_id s ≡ (handle, s₁)
      → calls.is_wow64_process2 handle s₁ ≡ (none, s₂)
      → open_process calls x86 x64 this process_id s
        ≡ (throw (Error.system_error (calls.get_last_error s₂)), s₂)
  unfolding open_process make_local_process
  open_process-unclosed x86 x64 this process_id handle s s₁ s₂ other set got untold =
      let not_current : (process_id == calls.get_current_process_id) ≡ false = ground arith in
      let nonzero : (handle == 0) ≡ false = ground arith in rw (not_current, got, nonzero, untold)

  -- If Windows gives no handle of the process, nothing else is done.
  open_process-null :
      (x86 x64 : Bool) (this process_id : ℕ) (s s₁ : S)
      → process_id ≢ calls.get_current_process_id
      → calls.open_process_handle access process_id s ≡ (0, s₁)
      → open_process calls x86 x64 this process_id s
        ≡ (throw (Error.system_error (calls.get_last_error s₁)), s₁)
  unfolding open_process
  open_process-null x86 x64 this process_id s s₁ other got =
      let not_current : (process_id == calls.get_current_process_id) ≡ false = ground arith in
      rw (not_current, got) refl

  -- If a handle has just the rights that it was opened with, and Windows does not tell the machine of a
  -- process to a handle without the right to query it: open_process opens no process but the current one.
  -- For any other process it throws a system_error: in the state that OpenProcess has left, if that
  -- gives a null handle; and if not, in the state that the next call has left, so that the handle stays
  -- open, since open_process does not ask for the right to query.
  pub open_process-refused :
      (granted : ℕ → S → List ProcessRight)
      → ChecksRights calls granted
      → (x86 x64 : Bool) (this process_id : ℕ) (s : S) → process_id ≢ calls.get_current_process_id
      → let (handle, s₁) = calls.open_process_handle access process_id s in
        let s₂ = if handle == 0 then s₁ else (calls.is_wow64_process2 handle s₁).1 in
        open_process calls x86 x64 this process_id s
        ≡ (throw (Error.system_error (calls.get_last_error s₂)), s₂)
  open_process-refused granted checks x86 x64 this process_id s other =
      let (handle, s₁) = calls.open_process_handle access process_id s in
      elim (Bool-cases (handle == 0)) [
        | inl null ↦
            let is : handle ≡ 0 = ground arith in
            rw null (open_process-null x86 x64 this process_id s s₁ other (λ i. (is i, s₁)))
        | inr set ↦
            let not_null : handle ≢ 0 = ground arith in
            let untold =
              checks.query_refused handle s₁
                (rw (checks.opened_with access process_id handle s s₁ refl not_null) not_allowed) in
            rw set (
              open_process-unclosed x86 x64 this process_id handle s s₁ _ other not_null refl
                (λ i. (untold i, (calls.is_wow64_process2 handle s₁).1)))
      ]
