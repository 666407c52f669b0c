-- ===== src/Lock/Daemon.antt =====
-- The locks of the daemon: `emi_init_locks` (emi_shmem.c), and the threads that use all three.
mod Examples
use emi.Prelude.{ℕ, ◌+◌, ◌≤◌, ◌≡◌, ◌≢◌, refl, sym, List, ◌==◌, if◌then◌else◌, arith}
use emi.Lock.{Memory, emi_lock_init, x86_try, Place, Turn, holders}
use emi.Lock.Exclusion.{Turn-word, Turn-elsewhere}

-- Where `__emi_msg_space_lock`, `msg_map_lock` and `critical_shmem_lock` are.
pub record Locks : Type 0 where
  pub space : ℕ
  pub map : ℕ
  pub critical : ℕ

unfoldable pub emi_init_locks : Locks → Memory → Memory
unfolding emi_lock_init
emi_init_locks k mem = emi_lock_init k.critical (emi_lock_init k.map (emi_lock_init k.space mem))

-- The memory, and where each thread stands with each lock.
pub record Places : Type 0 where
  pub mem : Memory
  pub at_space : List Place
  pub at_map : List Place
  pub at_critical : List Place

pub data Round (k : Locks) (s : Places) : Places → Type 0 where
  on_space :
      {m : Memory} {l : List Place}
      → Turn x86_try k.space s.mem s.at_space m l
      → Round k s (record s { mem = m; at_space = l })
  on_map :
      {m : Memory} {l : List Place}
      → Turn x86_try k.map s.mem s.at_map m l
      → Round k s (record s { mem = m; at_map = l })
  on_critical :
      {m : Memory} {l : List Place}
      → Turn x86_try k.critical s.mem s.at_critical m l
      → Round k s (record s { mem = m; at_critical = l })

-- Nobody holds a lock.
abbrev pub NoHolders : Places → Type 0
NoHolders s = (holders s.at_space ≡ 0) × (holders s.at_map ≡ 0) × (holders s.at_critical ≡ 0)

-- From what `emi_init_locks` makes of the memory of `s`.
pub data Reach (k : Locks) (s : Places) : Places → Type 0 where
  start : Reach k s (record s { mem = emi_init_locks k s.mem })
  later : {t u : Places} → Reach k s t → Round k t u → Reach k s u

pub record AreApart (k : Locks) : Type 0 where
  pub space_map : k.space ≢ k.map
  pub space_critical : k.space ≢ k.critical
  pub map_critical : k.map ≢ k.critical

-- For each lock, its word and the number of its holders add up to one.
pub record Exclude (k : Locks) (s : Places) : Type 0 where
  pub space : s.mem k.space + holders s.at_space ≡ 1
  pub map : s.mem k.map + holders s.at_map ≡ 1
  pub critical : s.mem k.critical + holders s.at_critical ≡ 1

module _ (k : Locks) (apart : AreApart k) where
  init-Exclude : (s : Places) → NoHolders s → Exclude k (record s { mem = emi_init_locks k s.mem })
  unfolding emi_init_locks
  init-Exclude s (a, b, c) = record {
    space = ground (arith, apart.space_map, apart.space_critical);
    map = ground (arith, apart.map_critical);
    critical = ground arith;
  }

  Round-Exclude : {s t : Places} → Round k s t → Exclude k s → Exclude k t
  Round-Exclude (on_space t) e = record {
    space = omega (arith, Turn-word t (omega (arith, e.space)), e.space);
    map = omega (arith, Turn-elsewhere t (λ h. apart.space_map (sym h)), e.map);
    critical = omega (arith, Turn-elsewhere t (λ h. apart.space_critical (sym h)), e.critical);
  }
  Round-Exclude (on_map t) e = record {
    space = omega (arith, Turn-elsewhere t apart.space_map, e.space);
    map = omega (arith, Turn-word t (omega (arith, e.map)), e.map);
    critical = omega (arith, Turn-elsewhere t (λ h. apart.map_critical (sym h)), e.critical);
  }
  Round-Exclude (on_critical t) e = record {
    space = omega (arith, Turn-elsewhere t apart.space_critical, e.space);
    map = omega (arith, Turn-elsewhere t apart.map_critical, e.map);
    critical = omega (arith, Turn-word t (omega (arith, e.critical)), e.critical);
  }

-- On x86, from what `emi_init_locks` leaves on, with three addresses and nobody holding a lock, in
-- whatever order the threads use the three locks: for each of them the word and the number of threads
-- that hold it add up to one, so never do two threads hold the same lock, and a lock that nobody holds
-- is free.
pub emi_init_locks-Exclude :
    (k : Locks) (s t : Places) → AreApart k → NoHolders s → Reach k s t → Exclude k t
emi_init_locks-Exclude k s t apart none start = init-Exclude k apart s none
emi_init_locks-Exclude k s t apart none (later r round) =
    Round-Exclude k apart round (emi_init_locks-Exclude k s _ apart none r)
