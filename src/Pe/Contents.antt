-- ===== src/Pe/Contents.antt =====
-- The bytes of a loaded image of src/pe/image.hpp, one by one: what a section's place holds once all the
-- sections are copied.
use libload.Common.{ℕ, zero, suc, ◌+◌, ◌<◌, ◌≡◌, refl, ◌∙◌, List, [], ◌∷◌, ◌++◌, All, arith}
use libload.Memory.Bytes.{
  Bytes, load_bytes, store_bytes, update, Outside, store_bytes-Outside, length-load_bytes,
}
use libload.Pe.Format.{SectionHeader}
use libload.Pe.Agreement.{image_bytes}

store-load_bytes-at :
    (m file : Bytes) (p o n i : ℕ)
    → i < n
    → store_bytes m p (load_bytes file o n) (p + i) ≡ file (o + i)
unfolding store_bytes load_bytes
store-load_bytes-at m file p o zero i h = absurd (omega arith)
store-load_bytes-at m file p o (suc n) zero h =
    let front : p + 0 ≡ p = omega arith in
    let front' : o + 0 ≡ o = omega arith in
    rw (front, front')
      (store_bytes-Outside (update m p (file o)) (p + 1) (load_bytes file (o + 1) n) p (omega arith)
        ∙ ground arith)
store-load_bytes-at m file p o (suc n) (suc i) h =
    let step : p + suc i ≡ p + 1 + i = omega arith in
    let step' : o + suc i ≡ o + 1 + i = omega arith in
    rw (step, step')
      (store-load_bytes-at (update m p (file o)) file (p + 1) (o + 1) n i (omega arith))

pub load_bytes-shift :
    (m k : Bytes) (p o n : ℕ)
    → ((i : ℕ) → i < n → m (p + i) ≡ k (o + i))
    → load_bytes m p n ≡ load_bytes k o n
unfolding load_bytes
load_bytes-shift m k p o zero h = refl
load_bytes-shift m k p o (suc n) h =
    let front : p + 0 ≡ p = omega arith in
    let front' : o + 0 ≡ o = omega arith in
    let head : m p ≡ k o = rw (front, front') at (h 0 (omega arith)) in
    ground (
      arith,
      head,
      load_bytes-shift m k (p + 1) (o + 1) n λ i less.
          let step : p + 1 + i ≡ p + suc i = omega arith in
          let step' : o + 1 + i ≡ o + suc i = omega arith in
          rw (step, step') (h (suc i) (omega arith)),
    )

module _ (file : Bytes) (ptr : ℕ) where
  -- The raw data of a section do not cover the address.
  abbrev pub Misses : ℕ → SectionHeader → Type 0
  Misses a h = Outside (ptr + h.virtual_address) h.size_of_raw_data a

  image_bytes-Misses :
      (headers : List SectionHeader) (m : Bytes) (a : ℕ)
      → All (Misses a) headers
      → image_bytes file ptr headers m a ≡ m a
  unfolding image_bytes
  image_bytes-Misses [] m a out = refl
  image_bytes-Misses (h ∷ headers) m a (here, there) =
      image_bytes-Misses headers _ a there
      ∙ store_bytes-Outside m (ptr + h.virtual_address) _ a
          (omega (arith, here, length-load_bytes file h.pointer_to_raw_data h.size_of_raw_data))

  -- A byte of a section that no later section covers is the file's.
  pub image_bytes-section :
      (before : List SectionHeader) (h : SectionHeader) (after : List SectionHeader) (m : Bytes)
      (i : ℕ)
      → i < h.size_of_raw_data
      → All (Misses (ptr + h.virtual_address + i)) after
      → image_bytes file ptr (before ++ h ∷ after) m (ptr + h.virtual_address + i)
        ≡ file (h.pointer_to_raw_data + i)
  unfolding image_bytes
  image_bytes-section [] h after m i within out =
      image_bytes-Misses after _ _ out
      ∙ store-load_bytes-at m file (ptr + h.virtual_address) h.pointer_to_raw_data
          h.size_of_raw_data i within
  image_bytes-section (x ∷ before) h after m i within out =
      image_bytes-section before h after _ i within out
