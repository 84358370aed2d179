-- ===== src/Memory/Identity.antt =====
-- Modifications of src/memory_block.hpp that keep the value: not a byte of the memory changes.
use libload.Common.{
  ◌^◌, ◌<◌, ◌⊎◌, ℕ, zero, suc, ◌+◌, ◌*◌, ◌/◌, ◌%◌, ◌≤◌, ◌≡◌, refl, sym, ap, ◌∙◌, List, [], ◌∷◌, All,
  IsByte, IsU64, ok, arith, length, Result, inl, inr, fun_ext,
}
use native.Mathlib.Decide.{dec_lt}
use libload.Memory.Bytes.{Bytes, load_bytes, Within, Outside, length-load_bytes}
use libload.Memory.Manager.{MemoryManager, CopiesBytes, Tells}
use libload.Memory.Block.{write, MemoryOwnership, MutableMemoryBuffer, memory_block, as_buffer}
use libload.Memory.Access.{write_fits, read_fits}
use libload.Memory.Endian.{
  le_value-lt, le_bytes, le_value, length-le_bytes, modify_le_value_at, read_le_value_from,
  write_le_value_into,
}

le_bytes-le_value : (bs : List ℕ) → All IsByte bs → le_bytes (length bs) (le_value bs) ≡ bs
unfolding le_bytes le_value
le_bytes-le_value [] h = refl
le_bytes-le_value (b ∷ bs) (hb, hbs) =
    let low : (b + 256 * le_value bs) % 256 ≡ b = omega arith in
    let high : (b + 256 * le_value bs) / 256 ≡ le_value bs = omega arith in
    rw (low, high) (ap (λ xs. b ∷ xs) (le_bytes-le_value bs hbs))

-- The bytes of a range.
abbrev pub HoldsBytes : Bytes → ℕ → ℕ → Type 0
HoldsBytes m p n = (a : ℕ) → Within p n a → IsByte (m a)

pub load_range-IsByte : (m : Bytes) (p n : ℕ) → HoldsBytes m p n → All IsByte (load_bytes m p n)
unfolding load_bytes
load_range-IsByte m p zero h = tt
load_range-IsByte m p (suc n) h =
    (h p (omega arith), load_range-IsByte m (p + 1) n (λ a r. h a (omega arith)))

pub load_range-HoldsBytes : (m : Bytes) (p n : ℕ) → All IsByte (load_bytes m p n) → HoldsBytes m p n
unfolding load_bytes
load_range-HoldsBytes m p zero h a r = absurd (omega arith)
load_range-HoldsBytes m p (suc n) (here, there) a r =
    ground (arith, here, load_range-HoldsBytes m (p + 1) n there a)

pub le_value-load_bytes-lt :
    (m : Bytes) (p n : ℕ) → HoldsBytes m p n → le_value (load_bytes m p n) < 256 ^ n
le_value-load_bytes-lt m p n h =
    rw length-load_bytes at (le_value-lt (load_bytes m p n) (load_range-IsByte m p n h))

-- Equal ranges have equal bytes.
load_bytes-at :
    (m k : Bytes) (p n a : ℕ) → load_bytes m p n ≡ load_bytes k p n → Within p n a → m a ≡ k a
unfolding load_bytes
load_bytes-at m k p zero a e h = absurd (omega arith)
load_bytes-at m k p (suc n) a e h = ground (arith, load_bytes-at m k (p + 1) n a)

Within-or_out : (p n a : ℕ) → Within p n a ⊎ Outside p n a
Within-or_out p n a = elim (dec_lt a p) [
  | yes below ↦ inr (inl below)
  | no not_below ↦ elim (dec_lt a (p + n)) [
    | yes above ↦ inl (omega arith, above)
    | no beyond ↦ inr (inr (omega arith))
  ]
]

-- To write the bytes that are there changes none.
pub write-same :
    (mo : MemoryOwnership) {S : Type 0} {manager : MemoryManager S} (c : CopiesBytes manager)
    (ptr mem_size offset n : ℕ) (bytes : List ℕ) (s : S)
    → IsU64 mem_size
    → offset + n ≤ mem_size
    → bytes ≡ load_bytes (c.view s) (ptr + offset) n
    → Tells c s n (write (memory_block {mo = mo} manager ptr mem_size) offset bytes n s)
write-same mo c ptr mem_size offset n bytes s w fits same =
    let (done, held, outside) =
      write_fits mo c ptr mem_size offset n bytes s w fits
        (ap length same ∙ length-load_bytes (c.view s) (ptr + offset) n) in
    (
      done,
      fun_ext λ a. elim (Within-or_out (ptr + offset) n a) [
        | inl i ↦ load_bytes-at _ (c.view s) (ptr + offset) n a (held ∙ same) i
        | inr o ↦ outside a o
      ],
    )

module _ (mo : MemoryOwnership) {S : Type 0} {manager : MemoryManager S} (c : CopiesBytes manager)
    (ptr mem_size n offset : ℕ) (uninit : List ℕ) (s : S) (w : IsU64 mem_size)
    (fits : offset + n ≤ mem_size) (sized : length uninit ≡ n)
    (bytes : HoldsBytes (c.view s) (ptr + offset) n) where
  abbrev buffer : MutableMemoryBuffer S
  buffer = as_buffer (memory_block {mo = mo} manager ptr mem_size)

  abbrev old : List ℕ
  old = load_bytes (c.view s) (ptr + offset) n

  -- The state after the old value is written again.
  abbrev after : Result ℕ × S
  after = write (memory_block {mo = mo} manager ptr mem_size) offset (le_bytes n (le_value old)) n s

  rewritten :
      (after.0 ≡ ok n)
      × (load_bytes (c.view after.1) (ptr + offset) n ≡ le_bytes n (le_value old))
      × ((a : ℕ) → Outside (ptr + offset) n a → c.view after.1 a ≡ c.view s a)
  rewritten =
      write_fits mo c ptr mem_size offset n (le_bytes n (le_value old)) s w fits
        (length-le_bytes n (le_value old))

  restored : le_bytes n (le_value old) ≡ old
  restored =
      ap (λ k. le_bytes k (le_value old)) (sym (length-load_bytes (c.view s) (ptr + offset) n))
      ∙ le_bytes-le_value old (load_range-IsByte (c.view s) (ptr + offset) n bytes)

  unchanged : (a : ℕ) → c.view after.1 a ≡ c.view s a
  unchanged a = elim (Within-or_out (ptr + offset) n a) [
    | inl i ↦
        load_bytes-at (c.view after.1) (c.view s) (ptr + offset) n a (rewritten.1 ∙ restored) i
    | inr o ↦ rewritten.2 a o
  ]

  -- Where the function keeps the stored value, the modification succeeds and changes no byte.
  pub modify_le-same :
      (fn : ℕ → ℕ)
      → fn (le_value old) ≡ le_value old
      → let r = modify_le_value_at n uninit buffer offset fn s in
        (r.0 ≡ ok tt) × ((a : ℕ) → c.view r.1 a ≡ c.view s a)
  unfolding modify_le_value_at read_le_value_from write_le_value_into
  modify_le-same fn same =
      let (done, _, _) = rewritten in
      rw (read_fits mo c ptr mem_size offset n uninit s w fits sized, same, done) (refl, unchanged)
