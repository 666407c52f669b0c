-- ===== src/Bus/Examples.antt =====
-- One process with one function, a message to it, and the sender.
use emi.Prelude.{◌≡◌, refl, arith, true, false, [], ◌∷◌, ◌==◌, if◌then◌else◌, pos}
use emi.MsgTable.{msg_map, emi_hash}
use emi.Core.Receive.{Daemon, Around}
use emi.Message.{EmiMsg, zero_msg}
use emi.Message.Flag
use emi.Socket.{Os, World}
use emi.Client.Handler.{Shared}
use emi.Bus.{Processes, work_of, wait_of, run_handlers}
use emi.Bus.Handlers.{signals, counted, run_handlers-work_of}
use emi.Bus.Answer.{answered}

-- Function 7 of process 5 answers 0 and leaves three bytes.
abbrev processes : Processes
processes = record {
  exclusive_msg = false;
  run = λ pid f m. (pos 0, record m { size = 3; payload = 1 ∷ 2 ∷ 3 ∷ [] });
  funcs = λ pid. record { func = 7; msg = 1 } ∷ [];
}

abbrev question : EmiMsg
question = record (zero_msg []) { flag = Flag.flag_block_return; msg = 1 }

abbrev answer : EmiMsg
answer = answered 1024 (pos 0, record question { count = 1; size = 3; payload = 1 ∷ 2 ∷ 3 ∷ [] })

-- The kernel of the daemon, and of the sender, who reads the answer.
abbrev kernel : Os
kernel = record {
  malloc = λ t. true;
  socket = λ t. pos 3;
  connect = λ t addr. pos 0;
  write = λ t n. pos n;
  read_msg = λ t m. (pos 68, answer);
  read_data = λ t n room. (pos n, room);
}

abbrev around : Around
around = record {
  os = kernel;
  memory = true;
  kill = λ num pid. pos 0;
  wait = wait_of processes;
  data_size = 1024;
  base = 1000;
  junk = zero_msg [];
}

abbrev daemon : Daemon
unfolding emi_hash
daemon = record {
  table = λ i. if i == emi_hash (msg_map 1 0) then msg_map 1 5 ∷ [] else [];
  space = record { bufs = []; num = 0 };
  index = λ pid. 0;
  slot = λ addr. zero_msg [];
}

abbrev start : World
start = record { time = 0; fds = []; log = [] }

-- Two processes that were signalled.
abbrev memory : Shared
memory = record { index = λ q. 0; slot = λ a. counted 2 question }

run_handlers-work_of_example :
    (run_handlers processes (signals 108 (5 ∷ 6 ∷ [])) memory).slot 108
    ≡ work_of processes (signals 108 (5 ∷ 6 ∷ [])) (counted 0 question)
run_handlers-work_of_example =
    run_handlers-work_of processes 108 (5 ∷ 6 ∷ []) question memory (λ pid f m c. refl)
      (omega arith) refl
