-- ===== src/Core/Race/Examples.antt =====
-- Runs of the daemon and its handlers.
use emi.Prelude.{◌≡◌, [], ◌∷◌, refl}
use emi.Core.Race.{called, System, Reach, Inevitable, init, signal, act, here, later}
use emi.Core.Race.Lost.{init-not_Inevitable}

-- One process: its handler is called.
signalled_one : (s : System) × Reach 64 (init 1) s × (s.handlers ≡ called ∷ []) × (s.mem.cell ≡ 64)
signalled_one = (_, later here (act signal), refl, refl)

init-not_Inevitable_example : ¬ Inevitable 64 (init 1)
init-not_Inevitable_example = init-not_Inevitable 64 0
