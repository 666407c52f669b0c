-- ===== src/Core/Receive/Examples.antt =====
-- The theorems on `emi_recieve_operation` at concrete requests.
use emi.Prelude.{refl, true, none, some, [], ◌∷◌, arith, pos, inl}
use emi.Prelude.Bits.{has}
use emi.MsgTable.{emi_hinsert}
use emi.MsgTable.Examples.{mixed_table}
use emi.Space.{Buf, obtain_space}
use emi.Space.Pool.{Splits, taken}
use emi.Space.Init.{new_slot}
use emi.Message.{EmiMsg, zero_msg}
use emi.Message.Flag
use emi.Socket.{World, SkDpr, read_msg}
use emi.Core.Receive.{Daemon, Around, register_request, serve, receive}
use emi.Core.Receive.Paths.{Closed, receive-closes}

abbrev registration : EmiMsg
registration = record (zero_msg []) {
  flag = Flag.cmd_register;
  msg = 1;
  src_addr = record { ip = 1; port = 1; family = 2; pid = 5; id = 0 };
}

-- The peer sends a registration, and every process is there.
abbrev around : Around
around = record {
  os = record {
    malloc = λ t. true;
    socket = λ t. pos 3;
    connect = λ t addr. pos 0;
    write = λ t n. pos n;
    read_msg = λ t m. (pos 68, registration);
    read_data = λ t n room. (pos n, room);
  };
  memory = true;
  kill = λ num pid. pos 0;
  wait = λ sent m. some (record m { count = 0 });
  data_size = 1024;
  base = 1000;
  junk = zero_msg [];
}

abbrev free_slot : Buf
free_slot = new_slot 108

abbrev daemon : Daemon
daemon = record {
  table = mixed_table;
  space = record { bufs = free_slot ∷ []; num = 0 };
  index = λ pid. 0;
  slot = λ addr. zero_msg [];
}

one_free : Splits 1000 1 daemon.space (free_slot ∷ []) []
one_free = record {
  whole = refl;
  free = ((refl, inl refl), tt);
  held = tt;
  apart = (tt, tt);
  small = (omega arith, tt);
  counted = refl;
  room = refl;
  few = omega arith;
}

abbrev start : World
start = record { time = 0; fds = pos 4 ∷ pos 3 ∷ []; log = [] }

abbrev client : SkDpr
client = record { d = pos 4; af = 0 }

abbrev ended : Daemon × World
ended = elim (receive around 9 client daemon start) [ none ↦ (daemon, start) | some r ↦ r ]

receive-closes_example : Closed around 1 (pos 3 ∷ []) free_slot [] [] ended
unfolding receive serve obtain_space read_msg has register_request emi_hinsert
receive-closes_example =
    receive-closes around 9 1 client (pos 3 ∷ []) free_slot [] [] daemon start ended one_free
      (omega arith) refl refl refl

abbrev busy : Daemon
busy = record daemon { space = record { bufs = taken 1000 free_slot ∷ []; num = 1 } }

none_free : Splits 1000 1 busy.space [] (taken 1000 free_slot ∷ [])
none_free = record {
  whole = refl;
  free = tt;
  held = ((refl, refl), tt);
  apart = (tt, tt);
  small = (omega arith, tt);
  counted = refl;
  room = refl;
  few = omega arith;
}
