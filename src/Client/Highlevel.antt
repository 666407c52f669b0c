-- ===== src/Client/Highlevel.antt =====
-- `emi_msg_send_highlevel` (emi_if.c) and the three functions over it. A pointer for data is an
-- optional byte list; the one for returned data gives back what it points to.
pub mod Outcome
use Prim.Native.Nat.{bit_or, max}
use emi.Prelude.{
  ℕ, Bool, true, false, ◌&&◌, Option, none, some, List, ◌++◌, ltb, leb, if◌then◌else◌, length, take,
  drop, ℤ, pos, minus_one, is_nonzero,
}
use emi.MsgTable.{◌>>=◌}
use emi.Message.{EmiMsg, Host, memcpy, emi_msg_alloc, emi_fill_msg}
use emi.Message.Flag
use emi.Socket.{Os, World}
use emi.Client.{emi_msg_send}

-- The machine: `fresh` says what new memory of a size holds.
pub record Machine : Type 0 where
  pub os : Os
  pub host : Host
  pub memory : Bool
  pub fresh : ℕ → List ℕ

-- `if(ret_data&&msg->size) memcpy(ret_data,msg->data,msg->size)`
unfoldable pub give_back : Option (List ℕ) → EmiMsg → Option (Option (List ℕ))
unfolding memcpy
give_back none m = some none
give_back (some room) m =
    if ltb 0 m.size then memcpy room m.payload m.size >>= (λ r. some (some r)) else some (some room)

-- `none` is a copy beyond the end of a buffer. What `emi_fill_msg` answers does not count.
unfoldable pub send_highlevel :
    Machine
    → List ℕ
    → (msgnum send_size : ℕ) → Option (List ℕ)
    → (ret_size : ℕ) → Option (List ℕ)
    → (cmd flags : ℕ) → World
    → Option ((ℤ × Option (List ℕ)) × World)
send_highlevel x ipaddr msgnum send_size send_data ret_size ret_data cmd flags w =
    let size = if ltb ret_size send_size then send_size else ret_size in
    elim (emi_msg_alloc x.memory (x.fresh size) size) [
      | none ↦ some ((minus_one, ret_data), w)
      | some msg ↦
          emi_fill_msg x.host (record msg { size = send_size }) (some ipaddr) send_data cmd msgnum
            flags
          >>= λ filled.
              let (sent, w1) = emi_msg_send x.os filled.1 w in
              if is_nonzero sent.0
              then some ((minus_one, ret_data), w1)
              else give_back ret_data sent.1 >>= (λ r. some ((pos 0, r), w1))
    ]

-- The flags: a command in the mode, and data if they are given.
unfoldable pub flags_for : ℕ → Option (List ℕ) → ℕ
flags_for mode none = bit_or Flag.type_cmd mode
flags_for mode (some send_data) = bit_or (bit_or Flag.type_cmd mode) Flag.type_data

unfoldable pub highlevel_blockreturn :
    Machine
    → List ℕ
    → (msgnum send_size : ℕ) → Option (List ℕ)
    → (ret_size : ℕ) → Option (List ℕ)
    → (cmd : ℕ) → World
    → Option ((ℤ × Option (List ℕ)) × World)
unfolding flags_for
highlevel_blockreturn x ipaddr msgnum send_size send_data ret_size ret_data cmd =
    send_highlevel x ipaddr msgnum send_size send_data ret_size ret_data cmd
      (flags_for Flag.flag_block_return send_data)

unfoldable pub highlevel_block :
    Machine
    → List ℕ
    → (msgnum send_size : ℕ) → Option (List ℕ)
    → (cmd : ℕ) → World
    → Option ((ℤ × Option (List ℕ)) × World)
unfolding flags_for
highlevel_block x ipaddr msgnum send_size send_data cmd =
    send_highlevel x ipaddr msgnum send_size send_data 0 none cmd
      (flags_for Flag.flag_block send_data)

unfoldable pub highlevel_nonblock :
    Machine
    → List ℕ
    → (msgnum send_size : ℕ) → Option (List ℕ)
    → (cmd : ℕ) → World
    → Option ((ℤ × Option (List ℕ)) × World)
unfolding flags_for
highlevel_nonblock x ipaddr msgnum send_size send_data cmd =
    send_highlevel x ipaddr msgnum send_size send_data 0 none cmd
      (flags_for Flag.flag_nonblock send_data)
