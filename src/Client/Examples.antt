-- ===== src/Client/Examples.antt =====
-- The theorems on sending and registering, at concrete kernels.
use emi.Prelude.{
  ℤ, Option, replicate, ◌==◌, if◌then◌else◌, ℕ, ◌≡◌, refl, true, false, none, some, List, [], ◌∷◌,
  ◌++◌, arith, pos, minus_one,
}
use emi.Message.{EmiMsg, Host, zero_msg, af_inet}
use emi.Prelude.Bits.{has}
use emi.Message.Flag
use emi.Socket.{Os, World, SkDpr, connected}
use emi.Client.{FuncList, Local, emi_msg_send, emi_msg_register}
use emi.Message.Fill.{Filled}
use emi.Client.Highlevel.{Machine, send_highlevel, flags_for, highlevel_nonblock}
use emi.Client.Highlevel.Outcome.{highlevel_nonblock-sends}
use emi.Client.Handler.{Run, judge, handle}
use emi.Client.Handler.Order.{handle-first}
use emi.Client.Send.{Mute, emi_msg_send-unsent, Quiet, sent_events}
use emi.Client.Descriptors.{emi_msg_send-fds}

-- A kernel that gives socket 3, writes everything, and reads a reply that says success.
abbrev kind : Os
kind = record {
  malloc = λ t. true;
  socket = λ t. pos 3;
  connect = λ t addr. pos 0;
  write = λ t n. pos n;
  read_msg = λ t m. (pos 68, record m { flag = Flag.cmd_succeeded });
  read_data = λ t n room. (pos n, room);
}

kind-Quiet : Quiet kind
kind-Quiet = record {
  malloc = λ t. refl;
  socket = λ t. refl;
  connect = λ t addr. refl;
  write = λ t n. refl;
}

abbrev machine : Host
machine = record {
  inet_addr = λ l. 0x0100007f;
  htons = λ n. n;
  getpid = 42;
  emi_port = 1361;
  emi_data_size_per_msg = 3;
}

abbrev start : World
start = record { time = 0; fds = pos 9 ∷ []; log = [] }

abbrev sent_data : EmiMsg
sent_data = record (zero_msg (1 ∷ 2 ∷ [])) { size = 2; flag = Flag.type_data }

abbrev sent_block : EmiMsg
sent_block = record (zero_msg []) { flag = 0x101 }

emi_msg_send-fds_example : (emi_msg_send kind sent_block start).1.fds ≡ pos 9 ∷ []
emi_msg_send-fds_example = emi_msg_send-fds kind sent_block start (λ t h. refl)

-- Every write fails.
abbrev mute : Os
mute = record kind { write = λ t n. minus_one }

mute-Mute : Mute mute
mute-Mute = record {
  malloc = λ t. refl;
  socket = λ t. refl;
  connect = λ t addr. refl;
  write = λ t n. refl;
}

emi_msg_send-unsent_example :
    ((emi_msg_send mute sent_data start).0 ≡ (pos 0, sent_data))
    × ((emi_msg_send mute sent_data start).1.log ≡ connected sent_data.dest_addr ∷ [])
unfolding has
emi_msg_send-unsent_example =
    emi_msg_send-unsent mute sent_data start refl refl (omega arith) mute-Mute

-- Nobody takes the connection.
abbrev deaf : Os
deaf = record kind { connect = λ t addr. minus_one }

abbrev sd : SkDpr
sd = record { d = pos 3; af = af_inet }

abbrev here : Local
here = record { exclusive_msg = false; memory = true; sigaction = pos 0; junk = zero_msg [] }

abbrev left : World
left = elim (emi_msg_register kind machine here 77 5 [] start) [ none ↦ start | some r ↦ r.1 ]

abbrev entries : List FuncList
entries = record { func = 5; msg = 77 } ∷ record { func = 6; msg = 78 } ∷ []

-- The high-level senders and the handler.
abbrev machine_of : Machine
machine_of = record { os = kind; host = machine; memory = true; fresh = λ n. replicate n 0 }

abbrev told : (ℤ × Option (List ℕ)) × World
told = elim (send_highlevel machine_of [] 77 1 (some (4 ∷ [])) 0 none 5 0x102 start) [
  | none ↦ ((minus_one, none), start)
  | some r ↦ r
]

highlevel_nonblock-sends_example :
    (m : EmiMsg) × (r : (ℤ × Option (List ℕ)) × World) × Filled
      (record (zero_msg (0 ∷ [])) { size = 1 })
      (some (4 ∷ []))
      5
      77
      (flags_for Flag.flag_nonblock (some (4 ∷ [])))
      m
    × (highlevel_nonblock machine_of [] 77 1 (some (4 ∷ [])) 5 start ≡ some r)
    × (r.0 ≡ (pos 0, none))
    × (r.1.log ≡ [] ++ sent_events m)
highlevel_nonblock-sends_example =
    highlevel_nonblock-sends machine_of [] 77 1 (some (4 ∷ [])) 5 start kind-Quiet refl (refl, refl)
      (omega arith, omega arith) (omega arith)

-- Function 5 refuses, and the others accept.
abbrev refuse_five : Run
refuse_five f m = (if f == 5 then minus_one else pos 0, m)

abbrev wanted : EmiMsg
wanted = record (zero_msg []) { msg = 78; flag = Flag.flag_block_return }

handle-first_example :
    (handle false refuse_five entries wanted ≡ judge (refuse_five 6 wanted))
    × (has (handle false refuse_five entries wanted).flag Flag.cmd_succeeded ≡ true)
unfolding has
handle-first_example = handle-first false refuse_five entries wanted 6 [] refl refl

abbrev plain : EmiMsg
plain = record (zero_msg []) { msg = 78 }
