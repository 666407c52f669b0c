-- ===== src/Bus/Registration/Examples.antt =====
-- Process 5 registers function 7 for number 1 with a daemon whose table is empty.
use emi.Prelude.{ℕ, ◌≡◌, refl, true, false, some, List, [], ◌∷◌, ◌++◌, arith, pos}
use emi.MsgTable.{msg_map, emi_hash}
use emi.MsgTable.Registry.{registered, IsWellFormed}
use emi.Core.Dispatch.{deliver}
use emi.Core.Dispatch.Alive.{any_eq, after}
use emi.Core.Receive.{Daemon, Around, serve}
use emi.Message.{Host, zero_msg}
use emi.Message.Flag
use emi.Socket.{Os, World, wrote_msg, emi_connect}
use emi.Client.{FuncList, Local, connect, register}
use emi.Client.Handler.Order.{funcs_for}
use emi.Bus.Registration.{request, Answers, opened, with_socket, fresh, register-reaches}

abbrev host : Host
host = record {
  inet_addr = λ l. 0x0100007f;
  htons = λ n. n;
  getpid = 5;
  emi_port = 361;
  emi_data_size_per_msg = 1024;
}

abbrev here : Local
here = record { exclusive_msg = false; memory = true; sigaction = pos 0; junk = zero_msg [] }

abbrev kernel : Os
kernel = record {
  malloc = λ t. true;
  socket = λ t. pos 3;
  connect = λ t addr. pos 0;
  write = λ t n. pos n;
  read_msg = λ t m. (pos 68, record m { flag = Flag.cmd_succeeded });
  read_data = λ t n room. (pos n, room);
}

abbrev around : Around
around = record {
  os = record kernel { read_msg = λ t m. (pos 68, request host (zero_msg []) 1) };
  memory = true;
  kill = λ num pid. pos 0;
  wait = λ sent m. some (record m { count = 0 });
  data_size = 1024;
  base = 1000;
  junk = zero_msg [];
}

abbrev daemon : Daemon
daemon = record {
  table = λ i. [];
  space = record { bufs = []; num = 0 };
  index = λ pid. 0;
  slot = λ addr. zero_msg [];
}

abbrev start : World
start = record { time = 0; fds = []; log = [] }

empty-IsWellFormed : IsWellFormed (λ i. [])
empty-IsWellFormed = record { distinct = λ i lt. tt; placed = λ i lt. tt }

kernel-Answers :
    Answers kernel (opened kernel start) (request host (zero_msg []) 1) (with_socket kernel start)
unfolding connect emi_connect
kernel-Answers = record { connects = refl; sends = refl; reads = refl }

register-reaches_example :
    (r : Daemon × World) × (l' : List FuncList) × (w' : World) × (rounds : ℕ) × (ps : List ℕ)
    × (serve around 9 1108 daemon start ≡ some r)
    × IsWellFormed r.0.table
    × (registered r.0.table (msg_map 1 5) ≡ true)
    × (r.1.log
        ≡ []
          ++ wrote_msg (record (request host (zero_msg []) 1) { flag = Flag.cmd_succeeded }) ∷ [])
    × (register kernel host here 1 7 0 [] start ≡ some ((pos 0, l'), w'))
    × (funcs_for 1 l' ≡ 7 ∷ [])
    × (deliver around.kill 108 rounds (msg_map 1 0) 0 (fresh r.0) ≡ some (after 108 ps (fresh r.0)))
    × (any_eq 5 ps ≡ true)
unfolding emi_hash
register-reaches_example =
    register-reaches kernel host here 1 7 0 [] start around 9 1108 daemon start 108
      (record {
        keeps = refl;
        memory = refl;
        signals = refl;
        known = refl;
        allocates = refl;
        opens = refl;
      })
      kernel-Answers refl refl refl (λ n q h. refl) empty-IsWellFormed (omega arith)
