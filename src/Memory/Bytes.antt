-- ===== src/Memory/Bytes.antt =====
-- Byte-addressed memory as a function from addresses to bytes.
use Prim.Native.Nat.add
use libload.Common.{
  All, IsByte, length-take, sym, ℕ, zero, suc, ◌+◌, ◌≤◌, ◌<◌, ◌≡◌, ◌⊎◌, refl, ap, ◌∙◌, List, [],
  ◌∷◌, ◌++◌, arith, ◌==◌, if◌then◌else◌, length, take,
}

abbrev pub Bytes : Type 0
Bytes = ℕ → ℕ

-- The `n` bytes from the address `p` on.
unfoldable pub load_bytes : Bytes → ℕ → ℕ → List ℕ
load_bytes m p zero = []
load_bytes m p (suc n) = m p ∷ load_bytes m (p + 1) n

abbrev pub update : Bytes → ℕ → ℕ → Bytes
update m p b a = if p == a then b else m a

-- The memory after the bytes of a list are stored from the address `p` on.
unfoldable pub store_bytes : Bytes → ℕ → List ℕ → Bytes
store_bytes m p [] = m
store_bytes m p (b ∷ bs) = store_bytes (update m p b) (p + 1) bs

-- The address lies in the `n` bytes from `p` on.
abbrev pub Within : ℕ → ℕ → ℕ → Type 0
Within p n a = (p ≤ a) × (a < p + n)

abbrev pub Outside : ℕ → ℕ → ℕ → Type 0
Outside p n a = (a < p) ⊎ (p + n ≤ a)

pub store_bytes-Outside :
    (m : Bytes) (p : ℕ) (bs : List ℕ) (a : ℕ) → Outside p (length bs) a → store_bytes m p bs a ≡ m a
unfolding store_bytes
store_bytes-Outside m p [] a h = refl
store_bytes-Outside m p (b ∷ bs) a h =
    ground (arith, store_bytes-Outside (update m p b) (p + 1) bs a)

pub length-load_bytes : (m : Bytes) (p n : ℕ) → length (load_bytes m p n) ≡ n
unfolding load_bytes
length-load_bytes m p zero = refl
length-load_bytes m p (suc n) = ap suc (length-load_bytes m (p + 1) n)

-- Reading depends on the bytes of the range alone.
pub load_bytes-agree :
    (m k : Bytes) (p n : ℕ)
    → ((a : ℕ) → Within p n a → m a ≡ k a)
    → load_bytes m p n ≡ load_bytes k p n
unfolding load_bytes
load_bytes-agree m k p zero h = refl
load_bytes-agree m k p (suc n) h =
    ground (arith, h p, load_bytes-agree m k (p + 1) n λ a r. h a (omega arith))

pub load_bytes-store_self :
    (m : Bytes) (p : ℕ) (bs : List ℕ) → load_bytes (store_bytes m p bs) p (length bs) ≡ bs
unfolding load_bytes store_bytes
load_bytes-store_self m p [] = refl
load_bytes-store_self m p (b ∷ bs) = ground (
  arith,
  store_bytes-Outside (update m p b) (p + 1) bs p,
  load_bytes-store_self (update m p b) (p + 1) bs,
)

pub store_bytes-append :
    (m : Bytes) (p : ℕ) (xs ys : List ℕ)
    → store_bytes m p (xs ++ ys) ≡ store_bytes (store_bytes m p xs) (p + length xs) ys
unfolding store_bytes
store_bytes-append m p [] ys = ap (λ q. store_bytes m q ys) (omega arith)
store_bytes-append m p (x ∷ xs) ys =
    store_bytes-append (update m p x) (p + 1) xs ys
    ∙ ap (λ q. store_bytes (store_bytes (update m p x) (p + 1) xs) q ys) (omega arith)

pub load_bytes-append :
    (m : Bytes) (p n k : ℕ) → load_bytes m p (n + k) ≡ load_bytes m p n ++ load_bytes m (p + n) k
unfolding load_bytes
load_bytes-append m p zero k =
    ap (load_bytes m p) (omega arith) ∙ ap (λ q. load_bytes m q k) (omega arith)
load_bytes-append m p (suc n) k =
    ap (load_bytes m p) (add.suc n k)
    ∙ ap (λ bs. m p ∷ bs) (load_bytes-append m (p + 1) n k)
    ∙ ap (λ q. m p ∷ (load_bytes m (p + 1) n ++ load_bytes m q k)) (omega arith)

-- The front of a list, stored and seen again.
module _ (m : Bytes) (p n : ℕ) (bs : List ℕ) (h : n ≤ length bs) where
  length-take_le : length (take n bs) ≡ n
  length-take_le = length-take n bs ∙ omega arith

  pub load_bytes-store_take : load_bytes (store_bytes m p (take n bs)) p n ≡ take n bs
  load_bytes-store_take =
      ap (load_bytes (store_bytes m p (take n bs)) p) (sym length-take_le)
      ∙ load_bytes-store_self m p (take n bs)

  pub store_take-Outside : (a : ℕ) → Outside p n a → store_bytes m p (take n bs) a ≡ m a
  store_take-Outside a o = store_bytes-Outside m p (take n bs) a (rw length-take_le o)

-- Bytes stay bytes.
pub store_bytes-IsByte :
    (m : Bytes) (p : ℕ) (bs : List ℕ)
    → ((a : ℕ) → IsByte (m a))
    → All IsByte bs
    → (a : ℕ) → IsByte (store_bytes m p bs a)
unfolding store_bytes
store_bytes-IsByte m p [] h k a = h a
store_bytes-IsByte m p (b ∷ bs) h (kb, k) a =
    store_bytes-IsByte (update m p b) (p + 1) bs (λ x. ground (arith, h x)) k a

pub load_bytes-IsByte :
    (m : Bytes) (p n : ℕ) → ((a : ℕ) → IsByte (m a)) → All IsByte (load_bytes m p n)
unfolding load_bytes
load_bytes-IsByte m p zero h = tt
load_bytes-IsByte m p (suc n) h = (h p, load_bytes-IsByte m (p + 1) n h)
