-- ===== src/Pe/Bound.antt =====
-- What the resolution of imports of src/pe/image.hpp leaves in the import table.
use Prim.Native.String.{String}
use libload.Common.{
  ◌⊎◌, subst, sym, Result, inl, ℕ, ◌+◌, ◌<◌, ◌≤◌, ◌≡◌, refl, ap, ◌∙◌, List, [], ◌∷◌, ok, throw,
  Error, arith, and_then-ok, IsU64, ◌==◌, false,
}
use libload.Memory.Bytes.{Bytes, load_bytes, load_bytes-agree}
use libload.Memory.Manager.{MemoryManager, CopiesBytes, Tells}
use libload.Memory.Block.{MemoryOwnership, MutableMemoryBuffer, memory_block, as_buffer}
use libload.Memory.Endian.{le_value, write_le_value_into, write_le_value_into_lem}
use libload.Pe.Format.{ImportEntry, by_ordinal, by_name}
use libload.Module.Provider.{Module}
use libload.Pe.Imports.{resolve_entries}

-- The end of the last thunk, or the start where there is none.
unfoldable pub past : ℕ → List ImportEntry → List ℕ → ℕ
past low [] thunks = low
past low (entry ∷ entries) [] = low
past low (entry ∷ entries) (t ∷ thunks) = past (t + 8) entries thunks

module _ (mo : MemoryOwnership) {S : Type 0} {manager : MemoryManager S} (c : CopiesBytes manager)
    (ptr mem_size : ℕ) (w : IsU64 mem_size) (mod_ : Module S) (symbol : String → ℕ)
    (known : (name : String) (s : S) → Tells c s (symbol name) (mod_.get_data name s)) where
  abbrev image_mem : MutableMemoryBuffer S
  image_mem = as_buffer (memory_block {mo = mo} manager ptr mem_size)

  -- Each entry has a name that the module knows, and a thunk of 8 bytes in the image; the thunks
  -- ascend from the offset `low` on.
  abbrev pub Resolvable : ℕ → List ImportEntry → List ℕ → Type 0
  Resolvable low [] thunks = Unit
  Resolvable low (by_ordinal n ∷ entries) thunks = ⊥
  Resolvable low (by_name name ∷ entries) [] = ⊥
  Resolvable low (by_name name ∷ entries) (t ∷ thunks) =
      ((0 < symbol name) × IsU64 (symbol name) × (low ≤ t) × (t + 8 ≤ mem_size))
      × Resolvable (t + 8) entries thunks

  -- Each thunk holds the address of its entry's symbol.
  abbrev pub Bound : Bytes → List ImportEntry → List ℕ → Type 0
  Bound m [] thunks = Unit
  Bound m (by_ordinal n ∷ entries) thunks = ⊥
  Bound m (by_name name ∷ entries) [] = ⊥
  Bound m (by_name name ∷ entries) (t ∷ thunks) =
      (le_value (load_bytes m (ptr + t) 8) ≡ symbol name) × Bound m entries thunks

  resolve_entries_step :
      (name : String) (entries : List ImportEntry) (t : ℕ) (thunks : List ℕ) (s : S)
      → 0 < symbol name
      → let s₁ = (mod_.get_data name s).1 in
        (write_le_value_into 8 (symbol name) image_mem t s₁).0 ≡ ok tt
        → resolve_entries (by_name name ∷ entries) (t ∷ thunks) mod_ image_mem s
          ≡ resolve_entries entries thunks mod_ image_mem
              (write_le_value_into 8 (symbol name) image_mem t s₁).1
  unfolding resolve_entries
  resolve_entries_step name entries t thunks s known_name done =
      let set : (symbol name == 0) ≡ false = ground arith in
      and_then-ok _ (known name s).0 ∙ rw (set, done)

  pub low-le-past :
      (low : ℕ) (entries : List ImportEntry) (thunks : List ℕ)
      → Resolvable low entries thunks
      → low ≤ past low entries thunks
  unfolding past
  low-le-past low [] thunks h = omega arith
  low-le-past low (by_ordinal n ∷ entries) thunks h = elim h [ ]
  low-le-past low (by_name name ∷ entries) [] h = elim h [ ]
  low-le-past low (by_name name ∷ entries) (t ∷ thunks) (here, there) =
      omega (arith, here.2, low-le-past (t + 8) entries thunks there)

  -- An outcome that binds the entries and leaves the bytes below and behind them.
  abbrev pub Resolved : ℕ → List ImportEntry → List ℕ → S → Result (Unit {0}) × S → Type 0
  Resolved low entries thunks s r =
      (r.0 ≡ ok tt)
      × Bound (c.view r.1) entries thunks
      × ((a : ℕ)
          → (a < ptr + low) ⊎ (ptr + past low entries thunks ≤ a)
          → c.view r.1 a ≡ c.view s a)

  pub resolve_entries-low :
      (low : ℕ) (entries : List ImportEntry) (thunks : List ℕ) (s : S)
      → Resolvable low entries thunks
      → Resolved low entries thunks s (resolve_entries entries thunks mod_ image_mem s)
  unfolding resolve_entries past
  resolve_entries-low low [] thunks s h = (refl, tt, λ a out. refl)
  resolve_entries-low low (by_ordinal n ∷ entries) thunks s h = elim h [ ]
  resolve_entries-low low (by_name name ∷ entries) [] s h = elim h [ ]
  resolve_entries-low low (by_name name ∷ entries) (t ∷ thunks) s (here, there) =
      let s₁ = (mod_.get_data name s).1 in
      let (done, held, same) =
        write_le_value_into_lem mo c ptr mem_size 8 t (symbol name) s₁ w here.3 (omega arith) in
      let s' = (write_le_value_into 8 (symbol name) image_mem t s₁).1 in
      let (done', bound, same') = resolve_entries-low (t + 8) entries thunks s' there in
      subst (Resolved low (by_name name ∷ entries) (t ∷ thunks) s)
        (sym (resolve_entries_step name entries t thunks s here.0 done))
        (
          done',
          (
            ap le_value (load_bytes-agree _ _ (ptr + t) 8 (λ a r. same' a (inl (omega arith))))
                ∙ held,
            bound,
          ),
          λ a out.
              let end = low-le-past (t + 8) entries thunks there in
              same' a (omega (arith, out))
              ∙ same a (omega (arith, out, end))
              ∙ ap (λ m. m a) (known name s).1,
        )

  -- What is bound stays bound where the bytes up to the last thunk stay.
  pub Bound-agree :
      (m m' : Bytes) (low : ℕ) (entries : List ImportEntry) (thunks : List ℕ)
      → Resolvable low entries thunks
      → ((a : ℕ) → a < ptr + past low entries thunks → m' a ≡ m a)
      → Bound m entries thunks
      → Bound m' entries thunks
  unfolding past
  Bound-agree m m' low [] thunks h same b = tt
  Bound-agree m m' low (by_ordinal n ∷ entries) thunks h same b = elim h [ ]
  Bound-agree m m' low (by_name name ∷ entries) [] h same b = elim h [ ]
  Bound-agree m m' low (by_name name ∷ entries) (t ∷ thunks) (here, there) same (b, bound) = (
    ap le_value (
          load_bytes-agree _ _ (ptr + t) 8
            (λ a r. same a (omega (arith, low-le-past (t + 8) entries thunks there))))
        ∙ b,
    Bound-agree m m' (t + 8) entries thunks there same bound,
  )

  -- If the manager copies bytes, and the module answers each name with an address and changes
  -- no byte: a descriptor whose entries have all names, with 64-bit addresses other than 0, and
  -- ascending thunks of 8 bytes within the image, is resolved. Each thunk then holds its symbol's
  -- address, also after the later ones are written.
  pub resolve_entries-Bound :
      (entries : List ImportEntry) (thunks : List ℕ) (s : S)
      → Resolvable 0 entries thunks
      → let r = resolve_entries entries thunks mod_ image_mem s in
        (r.0 ≡ ok tt) × Bound (c.view r.1) entries thunks
  resolve_entries-Bound entries thunks s h =
      let (done, bound, _) = resolve_entries-low 0 entries thunks s h in (done, bound)

  -- An entry that is imported by a name for which the module has no address makes the resolution throw
  -- runtime_error before any thunk is written, also if there is no thunk left.
  pub resolve_entries-unresolved :
      (name : String) (entries : List ImportEntry) (thunks : List ℕ) (s : S)
      → symbol name ≡ 0
      → resolve_entries (by_name name ∷ entries) thunks mod_ image_mem s
        ≡ (throw Error.runtime_error, (mod_.get_data name s).1)
  unfolding resolve_entries
  resolve_entries-unresolved name entries [] s h = and_then-ok _ (known name s).0 ∙ rw h
  resolve_entries-unresolved name entries (t ∷ thunks) s h = and_then-ok _ (known name s).0 ∙ rw h
