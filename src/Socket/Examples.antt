-- ===== src/Socket/Examples.antt =====
-- Three rounds of the accept loop.
use emi.Prelude.{◌+◌, ◌≡◌, refl, true, if◌then◌else◌, ◌==◌, [], ◌∷◌, pos, minus_one}
use emi.Socket.{emi_close}
use emi.Socket.Server.{
  accept_round, emi_accept, hand_over, Kernel, Server, Adds, accept_loop, accept_loop-Adds,
}

-- The second connection fails, and the others are descriptors 4 and up.
abbrev kernel : Kernel
kernel = record {
  malloc = λ t. true;
  accept = λ t. (if t == 6 then minus_one else pos (t + 4), 2);
  pthread_create = λ t. pos 0;
  pthread_detach = λ t. pos 0;
  bind = λ t d port. pos 0;
  listen = λ t d. pos 0;
}

abbrev idle : Server
idle = record { world = record { time = 0; fds = pos 3 ∷ []; log = [] }; blocks = 1; threads = [] }

two_served : (accept_loop kernel 3 idle).world.fds ≡ pos 12 ∷ pos 5 ∷ pos 3 ∷ []
unfolding accept_loop accept_round emi_accept hand_over emi_close
two_served = refl

accept_loop-Adds_example :
    Adds 3
      (record { d = pos 12; af = 0 } ∷ record { d = pos 5; af = 0 } ∷ [])
      idle
      (accept_loop kernel 3 idle)
accept_loop-Adds_example = accept_loop-Adds kernel 3 idle (λ t. refl, λ t. refl)
