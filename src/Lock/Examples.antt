-- ===== src/Lock/Examples.antt =====
-- Two threads and a lock at address 8.
use emi.Prelude.{[], ◌∷◌, ◌≡◌, ◌≢◌, refl, arith}
use emi.Lock.{
  Memory, emi_lock_init, x86_try, arm_try, outside, spinning, holding, arrive, fail, take, holders,
  Reach, start, later,
}
use emi.Lock.Exclusion.{arm_lock-never}

abbrev empty : Memory
empty q = 0

-- One thread takes the lock.
abbrev taken : Memory
unfolding emi_lock_init x86_try
taken = (x86_try 8 (emi_lock_init 8 empty)).1

one_holds : Reach x86_try 8 empty taken (holding ∷ outside ∷ [])
unfolding emi_lock_init x86_try
one_holds = later (later (start (outside ∷ outside ∷ []) refl) arrive) (take refl)

-- One thread spins.
abbrev tried : Memory
unfolding emi_lock_init arm_try
tried = (arm_try 8 (emi_lock_init 8 empty)).1

one_spins : Reach arm_try 8 empty tried (spinning ∷ outside ∷ [])
unfolding emi_lock_init arm_try
one_spins = later (later (start (outside ∷ outside ∷ []) refl) arrive) (fail refl)

arm_lock-never_example : (tried 8 ≡ 1) × (tried 1 ≢ 1) × (holders (spinning ∷ outside ∷ []) ≡ 0)
arm_lock-never_example =
    arm_lock-never 8 empty tried (spinning ∷ outside ∷ []) (omega arith) (omega arith) one_spins
