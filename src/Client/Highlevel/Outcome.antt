-- ===== src/Client/Highlevel/Outcome.antt =====
-- How the high-level senders end.
use emi.Prelude.{
  ℕ, ◌^◌, ◌<◌, ◌≡◌, refl, true, false, ◌||◌, Option, none, some, List, ◌++◌, ltb, if◌then◌else◌,
  arith, ℤ, pos, Option-cases, inl, inr,
}
use emi.Prelude.Bits.{has}
use emi.Message.{EmiMsg, zero_msg, emi_msg_alloc, emi_fill_msg}
use emi.Message.Flag
use emi.Message.Fill.{Resolves, Copies, Filled, emi_fill_msg-Filled}
use emi.Socket.{World}
use emi.Client.{emi_msg_send}
use emi.Client.Send.{Quiet, sent_events, emi_msg_send-nonblock}
use emi.Client.Descriptors.{NoZero, emi_msg_send-fds}
use emi.Client.Highlevel.{Machine, give_back, send_highlevel, flags_for, highlevel_nonblock}

-- If `socket` never gives descriptor 0, then whenever a high-level sender returns, the open
-- descriptors are those from before.
pub send_highlevel-fds :
    (x : Machine) (ipaddr : List ℕ) (msgnum send_size : ℕ) (send_data : Option (List ℕ))
    (ret_size : ℕ)
    → (ret_data : Option (List ℕ)) (cmd flags : ℕ) (w : World) (r : (ℤ × Option (List ℕ)) × World)
    → NoZero x.os
    → send_highlevel x ipaddr msgnum send_size send_data ret_size ret_data cmd flags w ≡ some r
    → r.1.fds ≡ w.fds
unfolding send_highlevel emi_msg_alloc
send_highlevel-fds x ipaddr msgnum send_size send_data ret_size ret_data cmd flags w r up h =
    let size = if ltb ret_size send_size then send_size else ret_size in
    let msg : EmiMsg = record (zero_msg (x.fresh size)) { size = send_size } in
    elim (Option-cases (emi_fill_msg x.host msg (some ipaddr) send_data cmd msgnum flags)) [
      | inl e ↦ ground arith
      | inr (filled, e) ↦ ground (arith, emi_msg_send-fds x.os filled.1 w up)
    ]

chosen : (n : ℕ) → (if ltb 0 n then n else 0) ≡ n
chosen n = ground arith

-- The bits of a message that was filled for a mode without blocking.
module _ (m : EmiMsg) (junk : List ℕ) (size cmd msgnum : ℕ) where
  abbrev IsFilled : Option (List ℕ) → Type 0
  IsFilled send_data =
      Filled (record (zero_msg junk) { size = size }) send_data cmd msgnum
        (flags_for Flag.flag_nonblock send_data) m

  typed_flags :
      (send_data : Option (List ℕ))
      → IsFilled send_data
      → (has m.flag Flag.type_data || has m.flag Flag.type_cmd) ≡ true
  unfolding flags_for has
  typed_flags none made = rw (made.bits Flag.type_data, made.bits Flag.type_cmd) refl
  typed_flags (some l) made = rw (made.bits Flag.type_data) refl

  free_flags :
      (send_data : Option (List ℕ))
      → IsFilled send_data
      → (has m.flag Flag.flag_block || has m.flag Flag.flag_block_return) ≡ false
  unfolding flags_for has
  free_flags none made = rw (made.bits Flag.flag_block, made.bits Flag.flag_block_return) refl
  free_flags (some l) made = rw (made.bits Flag.flag_block, made.bits Flag.flag_block_return) refl

-- Without blocking, and on a quiet network, a message with memory, a destination that resolves and
-- data as long as the size says is answered 0: the peer gets the header, and the data if there are
-- any, of the message that `emi_fill_msg` makes.
pub highlevel_nonblock-sends :
    (x : Machine) (ipaddr : List ℕ) (msgnum send_size : ℕ) (send_data : Option (List ℕ)) (cmd : ℕ)
    (w : World)
    → Quiet x.os
    → x.memory ≡ true
    → Resolves x.host (some ipaddr)
    → Copies send_data send_size (x.fresh send_size)
    → send_size < 2 ^ 32
    → (m : EmiMsg) × (r : (ℤ × Option (List ℕ)) × World) × Filled
        (record (zero_msg (x.fresh send_size)) { size = send_size })
        send_data
        cmd
        msgnum
        (flags_for Flag.flag_nonblock send_data)
        m
      × (highlevel_nonblock x ipaddr msgnum send_size send_data cmd w ≡ some r)
      × (r.0 ≡ (pos 0, none))
      × (r.1.log ≡ w.log ++ sent_events m)
unfolding highlevel_nonblock send_highlevel emi_msg_alloc give_back
highlevel_nonblock-sends x ipaddr msgnum send_size send_data cmd w quiet mem res cop small =
    let msg : EmiMsg = record (zero_msg (x.fresh send_size)) { size = send_size } in
    let flags = flags_for Flag.flag_nonblock send_data in
    let (m, filled, made) =
      emi_fill_msg-Filled x.host msg (some ipaddr) send_data cmd msgnum flags res cop in
    let (answer, log) =
      emi_msg_send-nonblock x.os m w
        (typed_flags m (x.fresh send_size) send_size cmd msgnum send_data made)
        (free_flags m (x.fresh send_size) send_size cmd msgnum send_data made)
        (rw made.size_kept small) quiet in
    (
      m,
      ((pos 0, none), (emi_msg_send x.os m w).1),
      made,
      rw (mem, chosen send_size, filled, answer) refl,
      refl,
      log,
    )
