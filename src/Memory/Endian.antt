-- ===== src/Memory/Endian.antt =====
-- The little-endian accesses of src/memory_block.hpp: read_le_value_from, write_le_value_into and
-- modify_le_value_at. `n` is sizeof(T). On every host the boost conversion and the bytes of the
-- value together are the little-endian ones, so a value is written as `le_bytes`.
use native.Mathlib.Nat.{pow-suc}
use libload.Common.{
  ℕ, zero, suc, ◌+◌, ◌*◌, ◌/◌, ◌%◌, ◌^◌, ◌≤◌, ◌<◌, ◌≡◌, refl, ap, ◌∙◌, List, [], ◌∷◌, arith, ok,
  IsU64, IsByte, All, Eff, ◌>>=◌, ◌>>◌, pure, length,
}
use libload.Memory.Bytes.{load_bytes, Outside}
use libload.Memory.Manager.{MemoryManager, CopiesBytes}
use libload.Memory.Block.{MemoryOwnership, MutableMemoryBuffer, as_buffer, memory_block}
use libload.Memory.Access.{write_fits, read_fits}

-- The bytes of a value of `n` bytes, lowest first.
unfoldable pub le_bytes : ℕ → ℕ → List ℕ
le_bytes zero v = []
le_bytes (suc n) v = v % 256 ∷ le_bytes n (v / 256)

unfoldable pub le_value : List ℕ → ℕ
le_value [] = 0
le_value (b ∷ bs) = b + 256 * le_value bs

pub length-le_bytes : (n v : ℕ) → length (le_bytes n v) ≡ n
unfolding le_bytes
length-le_bytes zero v = refl
length-le_bytes (suc n) v = ap suc (length-le_bytes n (v / 256))

pub le_bytes-IsByte : (n v : ℕ) → All IsByte (le_bytes n v)
unfolding le_bytes
le_bytes-IsByte zero v = tt
le_bytes-IsByte (suc n) v = (omega arith, le_bytes-IsByte n (v / 256))

pub le_value-le_bytes : (n v : ℕ) → v < 256 ^ n → le_value (le_bytes n v) ≡ v
unfolding le_bytes le_value
le_value-le_bytes zero v h = omega arith
le_value-le_bytes (suc n) v h =
    omega (arith, le_value-le_bytes n (v / 256) (omega (arith, pow-suc 256 n)))

pub le_value-lt : (bs : List ℕ) → All IsByte bs → le_value bs < 256 ^ length bs
unfolding le_value
le_value-lt [] h = omega arith
le_value-lt (b ∷ bs) (hb, hbs) = omega (arith, pow-suc 256 (length bs), le_value-lt bs hbs)

module _ {S : Type 0} (n : ℕ) where
  -- `T value;` is uninitialised: its old bytes are an argument.
  unfoldable pub read_le_value_from : List ℕ → MutableMemoryBuffer S → ℕ → Eff S ℕ
  read_le_value_from value mem_buffer offset = do
    (count, value') ← mem_buffer.read offset n value
    pure (le_value value')

  unfoldable pub write_le_value_into : ℕ → MutableMemoryBuffer S → ℕ → Eff S (Unit {0})
  write_le_value_into value mem_buffer offset = do
    count ← mem_buffer.write offset (le_bytes n value) n
    pure tt

  unfoldable pub modify_le_value_at :
      List ℕ → MutableMemoryBuffer S → ℕ → (ℕ → ℕ) → Eff S (Unit {0})
  unfolding read_le_value_from write_le_value_into
  modify_le_value_at uninit mem_buffer offset fn = do
    value ← read_le_value_from uninit mem_buffer offset
    write_le_value_into (fn value) mem_buffer offset

module _ (mo : MemoryOwnership) {S : Type 0} {manager : MemoryManager S} (c : CopiesBytes manager)
    (ptr mem_size n offset : ℕ) (uninit : List ℕ) (s : S) (w : IsU64 mem_size)
    (fits : offset + n ≤ mem_size) (sized : length uninit ≡ n) where
  abbrev buffer : MutableMemoryBuffer S
  buffer = as_buffer (memory_block {mo = mo} manager ptr mem_size)

  -- The value that the memory holds at the offset.
  abbrev stored : ℕ
  stored = le_value (load_bytes (c.view s) (ptr + offset) n)

  -- If the manager copies bytes: within a block of 64-bit size, a value that fits its type is
  -- read back as it was written.
  pub read_le-write_le :
      (v : ℕ)
      → v < 256 ^ n
      → ((write_le_value_into n v buffer offset >> read_le_value_from n uninit buffer offset) s).0
        ≡ ok v
  unfolding write_le_value_into read_le_value_from
  read_le-write_le v h =
      let sized_v = length-le_bytes n v in
      let (done, held, same) =
        write_fits mo c ptr mem_size offset n (le_bytes n v) s w fits sized_v in
      rw (done, read_fits mo c ptr mem_size offset n uninit _ w fits sized, held)
        (ap ok (le_value-le_bytes n v h))

  -- If the manager copies bytes: at a value within a block of 64-bit size, a modification
  -- replaces the stored value by its image under the function, if that fits the type, and changes
  -- no byte outside the value.
  pub modify_le_value_at_lem :
      (fn : ℕ → ℕ) (a : ℕ)
      → fn stored < 256 ^ n
      → Outside (ptr + offset) n a
      → let s' = (modify_le_value_at n uninit buffer offset fn s).1 in
        ((modify_le_value_at n uninit buffer offset fn s).0 ≡ ok tt)
        × (le_value (load_bytes (c.view s') (ptr + offset) n) ≡ fn stored)
        × (c.view s' a ≡ c.view s a)
  unfolding modify_le_value_at
  modify_le_value_at_lem fn a h o =
      let sized_v = length-le_bytes n (fn stored) in
      let (done, held, same) =
        write_fits mo c ptr mem_size offset n (le_bytes n (fn stored)) s w fits sized_v in
      rw (read_fits mo c ptr mem_size offset n uninit s w fits sized, done)
        (refl, ap le_value held ∙ le_value-le_bytes n (fn stored) h, same a o)

-- The write alone, anywhere in the block.
pub write_le_value_into_lem :
    (mo : MemoryOwnership) {S : Type 0} {manager : MemoryManager S} (c : CopiesBytes manager)
    (ptr mem_size n offset v : ℕ) (s : S)
    → IsU64 mem_size
    → offset + n ≤ mem_size
    → v < 256 ^ n
    → let r =
        write_le_value_into n v
          (as_buffer (memory_block {mo = mo} manager ptr mem_size))
          offset
          s in
      (r.0 ≡ ok tt)
      × (le_value (load_bytes (c.view r.1) (ptr + offset) n) ≡ v)
      × ((a : ℕ) → Outside (ptr + offset) n a → c.view r.1 a ≡ c.view s a)
unfolding write_le_value_into
write_le_value_into_lem mo c ptr mem_size n offset v s w fits h =
    let (done, held, same) =
      write_fits mo c ptr mem_size offset n (le_bytes n v) s w fits (length-le_bytes n v) in
    rw done (refl, ap le_value held ∙ le_value-le_bytes n v h, same)
