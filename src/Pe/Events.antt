-- ===== src/Pe/Events.antt =====
-- Which calls src/pe/image.hpp makes of a DLL and its process, and in which order.
use mathlib.Core.List.{append_assoc}
use libload.Common.{
  and_then, ℕ, ◌+◌, ◌≡◌, refl, ap, ◌∙◌, sym, List, [], ◌∷◌, ◌++◌, append-nil, ok, Option, none,
  some, true, not, ◌==◌, ◌&&◌, if◌then◌else◌, Bool-cases, inl, inr,
}
use libload.Memory.Manager.{MemoryManager}
use libload.Memory.Block.{OwnedMemoryBlock, memory_block}
use libload.Pe.Format.{VirtualImage}
use libload.Pe.Process.{
  pe_image_exception_table_size, registered, deregistered, callbacks_of,
  invoke_dll_entry_point_direct, initialize_dll_direct, deinitialize_dll_direct, Process, DllEvent,
  dll_process_attach, dll_thread_attach, dll_thread_detach, dll_process_detach, DllCode,
  invoke_callbacks, notify_dll_event_direct, initialize_dll, deinitialize_dll,
  register_pe_image_exception_table, deregister_pe_image_exception_table,
}

pub data Call : Type 0 where
  tls_call : (fn image_base : ℕ) → DllEvent → Call
  main_call : (entry_point image_base : ℕ) → DllEvent → Call
  table_added : (image_base table size : ℕ) → Call
  table_removed : (table : ℕ) → Call

-- A DLL that answers each event, and writes down the calls.
abbrev pub log_code : (DllEvent → ℕ) → DllCode (List Call)
log_code answer = record {
  tls_fn = λ fn base event reserved log. (ok tt, log ++ tls_call fn base event ∷ []);
  dll_main =
      λ entry base event reserved log. (ok (answer event), log ++ main_call entry base event ∷ []);
}

-- A process that writes down the calls.
abbrev pub log_process : MemoryManager (List Call) → Process (List Call)
log_process manager = record {
  memory_manager = manager;
  register_exception_table =
      λ base table size log. (ok tt, log ++ table_added base table size ∷ []);
  deregister_exception_table = λ table log. (ok tt, log ++ table_removed table ∷ []);
}

-- The calls for one event: each callback in order, then the entry point.
unfoldable pub notified : (base entry : ℕ) → List ℕ → DllEvent → List Call
notified base entry [] event = main_call (base + entry) base event ∷ []
notified base entry (fn_rva ∷ callbacks) event =
    tls_call (base + fn_rva) base event ∷ notified base entry callbacks event

abbrev pub or_nil : Option (List ℕ) → List ℕ
or_nil none = []
or_nil (some callbacks) = callbacks

module _ (answer : DllEvent → ℕ) (image : VirtualImage (List Call)) (base entry : ℕ)
    (tls : Option (List ℕ))
    (entry_view : (s : List Call) → (image.optional_header s).address_of_entry_point ≡ entry)
    (tls_view : (s : List Call) → image.tls_directory s ≡ tls) where
  callbacks_then_main :
      (event : DllEvent) (callbacks : List ℕ) (log : List Call)
      → and_then
          (invoke_callbacks (log_code answer) image base event 0 callbacks log)
          (λ x. invoke_dll_entry_point_direct (log_code answer) image base event 0)
        ≡ (ok (answer event), log ++ notified base entry callbacks event)
  unfolding invoke_callbacks notified invoke_dll_entry_point_direct
  callbacks_then_main event [] log = rw entry_view refl
  callbacks_then_main event (fn_rva ∷ callbacks) log =
      callbacks_then_main event callbacks (log ++ tls_call (base + fn_rva) base event ∷ [])
      ∙ ap (λ l. (ok (answer event), l))
          (append_assoc log (tls_call (base + fn_rva) base event ∷ []) _)

  notify_dll_event_direct-notified :
      (event : DllEvent) (log : List Call)
      → notify_dll_event_direct (log_code answer) image base event 0 log
        ≡ (ok (answer event), log ++ notified base entry (or_nil tls) event)
  unfolding notify_dll_event_direct notified invoke_dll_entry_point_direct
  notify_dll_event_direct-notified event log = rw tls_view (by_directory tls)
    where
      by_directory :
          (o : Option (List ℕ))
          → and_then
              (callbacks_of (log_code answer) image base event 0 o log)
              (λ x. invoke_dll_entry_point_direct (log_code answer) image base event 0)
            ≡ (ok (answer event), log ++ notified base entry (or_nil o) event)
      by_directory none = rw entry_view refl
      by_directory (some callbacks) = callbacks_then_main event callbacks log

  -- Some names for the calls of the exception table.
  abbrev pub added : Option ℕ → ℕ → List Call
  added none size = []
  added (some offset) size = table_added base (base + offset) size ∷ []

  abbrev pub removed : Option ℕ → List Call
  removed none = []
  removed (some offset) = table_removed (base + offset) ∷ []

  module _ (manager : MemoryManager (List Call)) (direct : manager.allows_direct_addressing ≡ true)
      (size : ℕ) (exceptions : Option ℕ)
      (exceptions_view : (s : List Call) → image.exception_entries s ≡ exceptions) where
    abbrev image_mem : OwnedMemoryBlock (List Call)
    image_mem = memory_block manager base size

    register-added :
        (log : List Call)
        → register_pe_image_exception_table image (log_process manager) base log
          ≡ (ok tt, log ++ added exceptions (pe_image_exception_table_size image log))
    unfolding register_pe_image_exception_table pe_image_exception_table_size
    register-added log = rw exceptions_view (by_entries exceptions)
      where
        by_entries :
            (o : Option ℕ)
            → registered image (log_process manager) base o log
              ≡ (ok tt, log ++ added o (pe_image_exception_table_size image log))
        by_entries none = ap (λ l. (ok tt, l)) (sym (append-nil log))
        by_entries (some offset) = refl

    deregister-removed :
        (log : List Call)
        → deregister_pe_image_exception_table image (log_process manager) base log
          ≡ (ok tt, log ++ removed exceptions)
    unfolding deregister_pe_image_exception_table
    deregister-removed log = rw exceptions_view (by_entries exceptions)
      where
        by_entries :
            (o : Option ℕ)
            → deregistered image (log_process manager) base o log ≡ (ok tt, log ++ removed o)
        by_entries none = ap (λ l. (ok tt, l)) (sym (append-nil log))
        by_entries (some offset) = refl

    -- In directly addressable memory, initialize_dll registers the exception table, if there is one,
    -- then sends DLL_PROCESS_ATTACH to each TLS callback, in order, and to the entry point, and, if
    -- the entry point answers other than 0, DLL_THREAD_ATTACH in the same way; it returns whether
    -- both answers are other than 0. The image's views do not change while the DLL runs.
    pub initialize_dll-notified :
        (log : List Call)
        → initialize_dll (log_code answer) image (log_process manager) image_mem log ≡ (
          ok (not (answer dll_process_attach == 0) && not (answer dll_thread_attach == 0)),
          ((log ++ added exceptions (pe_image_exception_table_size image log))
                ++ notified base entry (or_nil tls) dll_process_attach)
              ++ (if answer dll_process_attach == 0
                  then []
                  else notified base entry (or_nil tls) dll_thread_attach),
        )
    unfolding initialize_dll initialize_dll_direct
    initialize_dll-notified log =
        rw (register-added log, direct, notify_dll_event_direct-notified)
          (elim (Bool-cases (answer dll_process_attach == 0)) [
            | inl refused ↦ rw (refused, append-nil) refl
            | inr attached ↦ rw (attached, notify_dll_event_direct-notified) refl
          ])

    -- In directly addressable memory, deinitialize_dll sends DLL_THREAD_DETACH and then
    -- DLL_PROCESS_DETACH to each TLS callback, in order, and to the entry point, whatever it
    -- answers, and then deregisters the exception table, if there is one. The image's views do not
    -- change while the DLL runs.
    pub deinitialize_dll-notified :
        (log : List Call)
        → deinitialize_dll (log_code answer) image (log_process manager) image_mem log ≡ (
          ok tt,
          ((log ++ notified base entry (or_nil tls) dll_thread_detach)
                ++ notified base entry (or_nil tls) dll_process_detach)
              ++ removed exceptions,
        )
    unfolding deinitialize_dll deinitialize_dll_direct
    deinitialize_dll-notified log =
        rw
          (
            direct, notify_dll_event_direct-notified, notify_dll_event_direct-notified,
            deregister-removed,
          )
          refl
