-- ===== src/Lock/Exclusion.antt =====
-- What the locks exclude.
use emi.Prelude.{ℕ, ◌+◌, ◌≤◌, true, List, ◌==◌, ◌≡◌, ◌≢◌, refl, arith}
use emi.Lock.{
  Memory, emi_lock_init, emi_unlock, x86_try, arm_try, Place, outside, spinning, holding, Turn,
  arrive, fail, take, leave, other, holders, Reach, start, later,
}

-- A turn of the x86 lock moves a one between the word and the holders.
pub Turn-word :
    {p : ℕ} {m n : Memory} {l k : List Place}
    → Turn x86_try p m l n k
    → m p + holders l ≤ 1
    → n p + holders k ≡ m p + holders l
unfolding x86_try emi_unlock
Turn-word arrive h = refl
Turn-word (fail e) h = ground arith
Turn-word (take e) h = ground arith
Turn-word leave h = ground arith
Turn-word (other {x = holding} t) h = omega (arith, Turn-word t (omega arith))
Turn-word (other {x = outside} t) h = omega (arith, Turn-word t (omega arith))
Turn-word (other {x = spinning} t) h = omega (arith, Turn-word t (omega arith))

-- On x86, from a lock that is initialised and held by nobody on, in whatever order the threads run,
-- the word of the lock and the number of threads that hold it add up to one: the word is 1 while
-- nobody holds the lock and 0 while one thread does, and never do two.
pub x86_lock-excludes :
    (p : ℕ) (start_mem mem : Memory) (threads : List Place)
    → Reach x86_try p start_mem mem threads
    → mem p + holders threads ≡ 1
unfolding emi_lock_init
x86_lock-excludes p start_mem mem threads (start l e) = ground arith
x86_lock-excludes p start_mem mem threads (later r t) =
    let before = x86_lock-excludes p start_mem _ _ r in omega (arith, Turn-word t (omega arith))

pub Turn-elsewhere :
    {p q : ℕ} {m n : Memory} {l k : List Place} → Turn x86_try p m l n k → q ≢ p → n q ≡ m q
unfolding x86_try emi_unlock
Turn-elsewhere arrive h = refl
Turn-elsewhere (fail e) h = ground arith
Turn-elsewhere (take e) h = ground arith
Turn-elsewhere leave h = ground arith
Turn-elsewhere (other t) h = Turn-elsewhere t h

-- Nobody gets the arm lock while the word at address 1 is not one.
Turn-arm :
    {p : ℕ} {m n : Memory} {l k : List Place}
    → Turn arm_try p m l n k
    → p ≢ 1
    → m p ≡ 1
    → m 1 ≢ 1
    → holders l ≡ 0
    → (n p ≡ 1) × (n 1 ≢ 1) × (holders k ≡ 0)
unfolding arm_try emi_unlock
Turn-arm arrive a w o h = (w, o, h)
Turn-arm (fail e) a w o h = (ground arith, ground arith, h)
Turn-arm {m = m} (take e) a w o h =
    let found : (m 1 == 1) ≡ true = rw w at e in absurd (o (ground arith))
Turn-arm leave a w o h = absurd (omega arith)
Turn-arm (other {x = holding} t) a w o h = absurd (omega (arith, h))
Turn-arm (other {x = outside} t) a w o h = Turn-arm t a w o h
Turn-arm (other {x = spinning} t) a w o h = Turn-arm t a w o h

-- On arm, from a lock that is initialised and held by nobody on, where the lock is not at address 1
-- and the word at address 1 is not one, the lock stays free and nobody ever holds it.
pub arm_lock-never :
    (p : ℕ) (start_mem mem : Memory) (threads : List Place)
    → p ≢ 1
    → start_mem 1 ≢ 1
    → Reach arm_try p start_mem mem threads
    → (mem p ≡ 1) × (mem 1 ≢ 1) × (holders threads ≡ 0)
unfolding emi_lock_init
arm_lock-never p start_mem mem threads a o (start l e) = (ground arith, ground arith, e)
arm_lock-never p start_mem mem threads a o (later r t) =
    let (w, o', h) = arm_lock-never p start_mem _ _ a o r in Turn-arm t a w o' h

-- On x86, a lock that nobody holds goes to the next who tries.
pub x86_lock-free :
    (p : ℕ) (start_mem mem : Memory) (threads : List Place)
    → Reach x86_try p start_mem mem threads
    → holders threads ≡ 0
    → (x86_try p mem).0 ≡ true
unfolding x86_try
x86_lock-free p start_mem mem threads r h =
    let e = x86_lock-excludes p start_mem mem threads r in ground arith
