-- ===== src/Memory/Ledger.antt =====
-- A manager whose state is the list of its live allocations, for the tests: it shows that what is assumed
-- of a manager that tracks or counts its allocations can be met.
use mathlib.Core.Path.{refl}
use libload.Common.{
  Bool, ap, ℕ, suc, ◌+◌, ◌<◌, ◌≡◌, ◌≢◌, List, [], ◌∷◌, ok, pure, arith, ◌==◌, ◌&&◌, if◌then◌else◌,
  replicate, Leaves-pure,
}
use libload.Memory.Manager.{MemoryManager}
use libload.Memory.Tracks.{Tracks}
use libload.Memory.Owners.{Counts, handed, one_at}

abbrev pub Ledger : Type 0
Ledger = List (ℕ × ℕ)

-- The ledger without the youngest entry of that address and size.
abbrev pub remove : ℕ → ℕ → Ledger → Ledger
remove mem size [] = []
remove mem size ((m, k) ∷ s) = if (m == mem) && (k == size) then s else (m, k) ∷ remove mem size s

-- It allocates behind the address that is asked for.
abbrev pub ledger_manager : Bool → MemoryManager Ledger
ledger_manager direct = record {
  allows_direct_addressing = direct;
  allocate = λ base size s. (ok (suc base), (suc base, size) ∷ s);
  release = λ mem size s. (ok tt, remove mem size s);
  commit = λ mem size. pure tt;
  decommit = λ mem size. pure tt;
  set_access = λ mem size access. pure tt;
  copy_from = λ mem size. pure (replicate size 0);
  copy_into = λ buffer size mem. pure size;
}

-- What an allocation gives.
pub suc_of_ok : (base mem : ℕ) → ok (suc base) ≡ ok mem → mem ≡ suc base
suc_of_ok base mem h = cc

pub allocated-set : (base mem : ℕ) → ok (suc base) ≡ ok mem → mem ≢ 0
allocated-set base mem h = λ zero_mem. omega (arith, suc_of_ok base mem h)

pub handed-allocated :
    (direct : Bool) (base size mem a n : ℕ) (s s' : Ledger)
    → (ledger_manager direct).allocate base size s ≡ (ok mem, s')
    → handed (ledger_manager direct) a n s'
      ≡ one_at (ledger_manager direct) a n mem size + handed (ledger_manager direct) a n s
unfolding handed
handed-allocated direct base size mem a n s s' e =
    let grown : s' ≡ (suc base, size) ∷ s = cc in
    let at_mem : mem ≡ suc base = suc_of_ok base mem (ap (λ r. r.0) e) in rw (grown, at_mem)

pub remove-head :
    (mem size : ℕ) (older s : Ledger) → s ≡ (mem, size) ∷ older → remove mem size s ≡ older
remove-head mem size older s h = rw h (ground arith)

unfoldable pub ledger-Tracks : (direct : Bool) → Tracks (λ s. s) (ledger_manager direct)
ledger-Tracks direct = record {
  allocate_set = λ base size mem s h. allocated-set base mem h;
  allocate_ok = λ base size mem s h. rw (suc_of_ok base mem h);
  allocate_throw = λ base size e s h. absurd (cc);
  release_ok = λ mem size older s h. refl;
  release_live = λ mem size older s h. remove-head mem size older s h;
  commit_lem = λ mem size. Leaves-pure _;
  decommit_lem = λ mem size. Leaves-pure _;
  set_access_lem = λ mem size access. Leaves-pure _;
  copy_from_lem = λ mem size. Leaves-pure _;
  copy_into_lem = λ buffer size mem. Leaves-pure _;
}

pub handed-remove :
    (direct : Bool) (mem size a n : ℕ) (s : Ledger)
    → 0 < handed (ledger_manager direct) mem size s
    → one_at (ledger_manager direct) a n mem size
        + handed (ledger_manager direct) a n (remove mem size s)
      ≡ handed (ledger_manager direct) a n s
unfolding handed
handed-remove direct mem size a n [] h = absurd (omega arith)
handed-remove direct mem size a n ((m, k) ∷ s) h =
    ground (arith, handed-remove direct mem size a n s)

unfoldable pub ledger-Counts : (direct : Bool) → Counts (ledger_manager direct)
ledger-Counts direct = record {
  live = λ s a n. handed (ledger_manager direct) a n s;
  allocate_set = λ base size mem s s' e. allocated-set base mem (ap (λ r. r.0) e);
  allocate_lem = λ base size mem s s' e a n. handed-allocated direct base size mem a n s s' e;
  release_ok = λ mem size s h. refl;
  release_lem = λ mem size s h a n. handed-remove direct mem size a n s h;
}
