-- ===== src/Bus/Delivery.antt =====
-- When the delivery of a message to the processes ends.
use emi.Prelude.{ℕ, ◌≡◌, refl, ap, ◌∙◌, true, List, [], ◌∷◌, ◌==◌, arith}
use emi.Client.Handler.{Shared, func_sterotype}
use emi.Bus.{Processes, left_by, put_cell, run_handlers}
use emi.Bus.Handlers.{signals}

-- Shared memory after the handlers holds what `left_by` says.
pub run_handlers-left_by :
    (p : Processes) (nth : ℕ) (ps : List ℕ) (s : Shared)
    → (run_handlers p (signals nth ps) s).slot nth ≡ left_by p (signals nth ps) (s.slot nth)
unfolding run_handlers func_sterotype
run_handlers-left_by p nth [] s = refl
run_handlers-left_by p nth (pid ∷ ps) s =
    let hit : (pid == pid) ≡ true = ground arith in
    let there : (nth == nth) ≡ true = ground arith in
    let s1 = func_sterotype p.exclusive_msg (p.run pid) (p.funcs pid) pid (put_cell pid nth s) in
    run_handlers-left_by p nth ps s1 ∙ ap (left_by p (signals nth ps)) (rw (hit, there) refl)
