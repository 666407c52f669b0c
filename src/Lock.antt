-- ===== src/Lock.antt =====
-- The spin locks of include/emi_semaphore.h, which are there for builds without SYSTEM_LOCK: the
-- word is 1 while the lock is free. The memory is a function on addresses; one try of the loop of
-- `__emi_lock` is atomic, as `lock cmpxchg` and `swp` are.
pub mod Exclusion
pub mod Daemon
mod Examples
use emi.Prelude.{ℕ, ◌+◌, Bool, true, false, List, [], ◌∷◌, ◌==◌, if◌then◌else◌, ◌≡◌}

abbrev pub Memory : Type 0
Memory = ℕ → ℕ

abbrev pub store_word : ℕ → ℕ → Memory → Memory
store_word p v mem q = if q == p then v else mem q

-- `emi_lock_init`
unfoldable pub emi_lock_init : ℕ → Memory → Memory
emi_lock_init p mem = store_word p 1 mem

-- `__emi_unlock`, on both machines.
unfoldable pub emi_unlock : ℕ → Memory → Memory
emi_unlock p mem = store_word p 1 mem

-- One try: does the loop end, and the memory.
abbrev pub Try : Type 0
Try = ℕ → Memory → Bool × Memory

-- x86: `cmpxchgl` stores 0 if the word is 1.
unfoldable pub x86_try : Try
x86_try p mem = if mem p == 1 then (true, store_word p 0 mem) else (false, mem)

-- arm: `ldr r1,[p]` first loads the word of the lock, and `swp` takes that for the address. The load
-- stands before the loop; here each try loads again.
unfoldable pub arm_try : Try
arm_try p mem = let r1 = mem p in (mem r1 == 1, store_word r1 0 mem)

-- Where a thread stands.
pub data Place : Type 0 where
  outside spinning holding : Place

-- One step of one of the threads that share the lock at `p`.
pub data Turn (try : Try) (p : ℕ) (mem : Memory) : List Place → Memory → List Place → Type 0 where
  arrive : {l : List Place} → Turn try p mem (outside ∷ l) mem (spinning ∷ l)
  fail :
      {l : List Place}
      → (try p mem).0 ≡ false
      → Turn try p mem (spinning ∷ l) (try p mem).1 (spinning ∷ l)
  take :
      {l : List Place}
      → (try p mem).0 ≡ true
      → Turn try p mem (spinning ∷ l) (try p mem).1 (holding ∷ l)
  leave : {l : List Place} → Turn try p mem (holding ∷ l) (emi_unlock p mem) (outside ∷ l)
  other :
      {x : Place} {l k : List Place} {mem' : Memory}
      → Turn try p mem l mem' k
      → Turn try p mem (x ∷ l) mem' (x ∷ k)

abbrev pub holders : List Place → ℕ
holders [] = 0
holders (holding ∷ l) = 1 + holders l
holders (outside ∷ l) = holders l
holders (spinning ∷ l) = holders l

-- From where the lock is initialised and nobody holds it.
pub data Reach (try : Try) (p : ℕ) (mem : Memory) : Memory → List Place → Type 0 where
  start : (l : List Place) → holders l ≡ 0 → Reach try p mem (emi_lock_init p mem) l
  later :
      {m n : Memory} {l k : List Place}
      → Reach try p mem m l
      → Turn try p m l n k
      → Reach try p mem n k
