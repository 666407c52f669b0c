-- ===== src/Lock/Daemon/Examples.antt =====
-- A thread takes two of the three locks.
use emi.Prelude.{[], ◌∷◌, refl, arith}
use emi.Lock.{Memory, x86_try, outside, holding, arrive, take}
use emi.Lock.Daemon.{
  Locks, Places, emi_init_locks, on_map, on_critical, Reach, start, later, Exclude,
  emi_init_locks-Exclude,
}

abbrev words : Locks
words = record { space = 8; map = 12; critical = 16 }

abbrev idle : Places
idle = record {
  mem = λ q. 0;
  at_space = outside ∷ outside ∷ [];
  at_map = outside ∷ outside ∷ [];
  at_critical = outside ∷ outside ∷ [];
}

abbrev with_map : Memory
unfolding emi_init_locks x86_try
with_map = (x86_try 12 (emi_init_locks words idle.mem)).1

abbrev with_both : Memory
unfolding emi_init_locks x86_try
with_both = (x86_try 16 with_map).1

abbrev two_held : Places
two_held = record idle {
  mem = with_both;
  at_map = holding ∷ outside ∷ [];
  at_critical = holding ∷ outside ∷ [];
}

both : Reach words idle two_held
unfolding emi_init_locks x86_try
both =
    later (later (later (later start (on_map arrive)) (on_map (take refl))) (on_critical arrive))
      (on_critical (take refl))

emi_init_locks-Exclude_example : Exclude words two_held
emi_init_locks-Exclude_example =
    emi_init_locks-Exclude words idle two_held
      (record { space_map = omega arith; space_critical = omega arith; map_critical = omega arith })
      (refl, refl, refl) both
