-- ===== src/Space/Race/Examples.antt =====
-- Two slots and two threads.
use emi.Prelude.{◌≡◌, refl, [], ◌∷◌}
use emi.Space.{Space}
use emi.Space.Init.{new_slot}
use emi.Space.Race.{Threads, Reach, all_in, obtain-twice}

abbrev pool : Space
pool = record { bufs = new_slot 100 ∷ new_slot 200 ∷ []; num = 0 }

obtain-twice_example : (t : Threads) × Reach 1000 (all_in pool) t × (t.got ≡ 1100 ∷ 1100 ∷ [])
obtain-twice_example = obtain-twice 1000 pool (new_slot 100) (new_slot 200 ∷ []) refl refl
