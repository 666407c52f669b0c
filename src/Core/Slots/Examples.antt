-- ===== src/Core/Slots/Examples.antt =====
-- Slots at concrete inputs.
use emi.Prelude.{◌≡◌, List, [], ◌∷◌, arith}
use emi.Core.Race.{Handler, init, pending}
use emi.Core.Slots.{Slots, Reach, start}
use emi.Core.Slots.Safe.{start-shared}

start-shared_example :
    (hs : List Handler) × (s : Slots) × Reach (start (64 ∷ [])) s
    × (s.busy ≡ (64, init 5) ∷ [])
    × (s.past ≡ (64, hs) ∷ [])
    × (pending hs ≡ 1)
start-shared_example = start-shared 64 0 5 [] (omega arith) (omega arith)
