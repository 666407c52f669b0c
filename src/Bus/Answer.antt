-- ===== src/Bus/Answer.antt =====
-- What a sender in the BLOCK_RETURN mode learns of the function that took its message.
use emi.Prelude.{ℕ, ◌+◌, ◌≡◌, true, false, ◌&&◌, List, [], ◌++◌, ltb, if◌then◌else◌, ℤ, lt_size}
use emi.Prelude.Bits.{has}
use emi.Core.Receive.{Around, return_flag}
use emi.Space.Bounds.{sizeof_emi_msg}
use emi.Message.{EmiMsg}
use emi.Message.Flag
use emi.Socket.{World, Event, msg_events, data_events}
use emi.Client.Handler.{judge}
use emi.Bus.{Processes}

-- The daemon's answer when the only function that took the message answered and left `r`.
abbrev pub answered : ℕ → ℤ × EmiMsg → EmiMsg
answered data_size r = record (judge r) { flag = return_flag data_size (judge r); count = 0 }

-- The message blocks for an answer, and in no other way.
abbrev pub Returns : EmiMsg → Type 0
Returns m =
    (has m.flag Flag.flag_nonblock ≡ false)
    × (has m.flag Flag.flag_block ≡ false)
    × (has m.flag Flag.flag_block_return ≡ true)

-- What the daemon writes, as far as `write` takes it: the message, and its data on a success, unless
-- the write of the message is seen to be short.
abbrev pub answer_events : Around → EmiMsg → World → List Event
answer_events x back w =
    let r = x.os.write w.time sizeof_emi_msg in
    msg_events r sizeof_emi_msg back
    ++ (if lt_size r sizeof_emi_msg
        then []
        else if has back.flag Flag.cmd_succeeded && ltb 0 back.size
        then data_events (x.os.write (w.time + 1) back.size) back.size back.payload
        else [])

-- A process, its functions for the number, and a sender.
module _ (p : Processes) (x : Around) (m : EmiMsg) (pid f : ℕ) (fs : List ℕ) where
  -- What the function answers and leaves.
  abbrev pub outcome : ℤ × EmiMsg
  outcome = p.run pid f (record m { count = 1 })
