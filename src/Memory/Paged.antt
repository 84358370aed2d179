-- ===== src/Memory/Paged.antt =====
-- Which addresses are committed, for the tests with a memory of pages.
use libload.Common.{
  ℕ, zero, suc, ◌+◌, ◌≡◌, refl, true, false, Bool, arith, leb, ltb, ◌&&◌, if◌then◌else◌,
}
use libload.Memory.Bytes.{Within}

-- The addresses that are committed.
abbrev pub Committed : Type 0
Committed = ℕ → Bool

abbrev pub all_in : Committed → ℕ → ℕ → Bool
all_in committed mem zero = true
all_in committed mem (suc n) = committed mem && all_in committed (mem + 1) n

pub all_in-true :
    (committed : Committed) (mem n : ℕ)
    → ((a : ℕ) → Within mem n a → committed a ≡ true)
    → all_in committed mem n ≡ true
all_in-true committed mem zero h = refl
all_in-true committed mem (suc n) h =
    rw (h mem (omega arith), all_in-true committed (mem + 1) n (λ a r. h a (omega arith))) refl

abbrev pub commit_range : ℕ → ℕ → Committed → Committed
commit_range mem size s a = if leb mem a && ltb a (mem + size) then true else s a

pub inside :
    (mem size a : ℕ) (rest : Bool)
    → Within mem size a
    → (if leb mem a && ltb a (mem + size) then true else rest) ≡ true
inside mem size a rest h = ground (arith, h)

pub kept : (b rest : Bool) → rest ≡ true → (if b then true else rest) ≡ true
kept true rest h = refl
kept false rest h = h
