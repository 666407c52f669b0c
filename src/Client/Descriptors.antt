-- ===== src/Client/Descriptors.antt =====
-- Which descriptors stay open.
use emi.Prelude.{
  ℕ, zero, suc, ◌*◌, ◌%◌, ◌^◌, ◌≡◌, refl, ◌∙◌, true, false, not, ◌&&◌, none, some, List, [], ◌∷◌,
  ◌++◌, arith, ℤ, pos, negsuc, is_negative, lt_size, ◌⊎◌, inl, inr, Bool-cases,
}
use emi.Prelude.Bits.{has}
use emi.Message.{EmiAddr, EmiMsg, af_inet}
use emi.Message.Flag
use emi.Socket.{
  Os, World, SkDpr, refused, tick, same_fd, is_positive, connect_loop, emi_connect, emi_open,
  emi_close, write_msg, read_msg,
}
use emi.Space.Bounds.{sizeof_emi_msg}
use emi.Client.{connect, send_body, await, send_connected, send_opened, emi_msg_send}

connect_loop-fds :
    (os : Os) (fuel i : ℕ) (addr : EmiAddr) (retry : ℕ) (w : World) (r : ℤ × World)
    → connect_loop os fuel i addr retry w ≡ some r
    → r.1.fds ≡ w.fds
unfolding connect_loop
connect_loop-fds os zero i addr retry w r e = cc
connect_loop-fds os (suc fuel) i addr retry w r e =
    let w' : World = record (tick w) { log = w.log ++ refused addr ∷ [] } in
    ground (arith, connect_loop-fds os fuel ((i * 2) % 2 ^ 32) addr retry w' r)

pub connect-fds :
    (os : Os) (sd : SkDpr) (addr : EmiAddr) (w : World) → (connect os sd addr w).1.fds ≡ w.fds
unfolding connect emi_connect
connect-fds os sd addr w = ground (arith, connect_loop-fds os 3 1 addr 1 w)

same_fd_refl : (d : ℤ) → same_fd d d ≡ true
same_fd_refl (pos n) = ground arith
same_fd_refl (negsuc n) = ground arith

-- Closing the newest descriptor.
pub emi_close-newest :
    (sd : SkDpr) (l : List ℤ) (w : World)
    → is_positive sd.d ≡ true
    → w.fds ≡ sd.d ∷ l
    → (emi_close (some sd) w).fds ≡ l
unfolding emi_close
emi_close-newest sd l w up e = rw (up, e, same_fd_refl sd.d) refl

await-fds : (os : Os) (m : EmiMsg) (ret : ℤ) (w : World) → (await os m ret w).1.fds ≡ w.fds
unfolding await
await-fds os m ret w = ground arith

send_body-fds : (os : Os) (m : EmiMsg) (ret : ℤ) (w : World) → (send_body os m ret w).1.fds ≡ w.fds
unfolding send_body
send_body-fds os m ret w = ground arith

pub write_msg-fds :
    (os : Os) (size : ℕ) (m : EmiMsg) (w : World) → (write_msg os size m w).1.fds ≡ w.fds
unfolding write_msg
write_msg-fds os size m w = refl

pub read_msg-fds : (os : Os) (m : EmiMsg) (w : World) → (read_msg os m w).1.fds ≡ w.fds
unfolding read_msg
read_msg-fds os m w = refl

module _ (os : Os) (sd : SkDpr) (l : List ℤ) (up : is_positive sd.d ≡ true) where
  send_connected-fds :
      (m : EmiMsg) (w : World) → w.fds ≡ sd.d ∷ l → (send_connected os sd m w).1.fds ≡ l
  unfolding send_connected
  send_connected-fds m w e =
      let (r, w1) = write_msg os sizeof_emi_msg m w in
      let (ret, w2) = send_body os m r w1 in
      let (result, w3) = await os m ret w2 in
      let e1 : w1.fds ≡ sd.d ∷ l = write_msg-fds os sizeof_emi_msg m w ∙ e in
      let e3 : w3.fds ≡ sd.d ∷ l = await-fds os m ret w2 ∙ send_body-fds os m r w1 ∙ e1 in
      elim (Bool-cases (lt_size r sizeof_emi_msg)) [
        | inl short ↦ rw short (emi_close-newest sd l w1 up e1)
        | inr whole ↦ rw whole (emi_close-newest sd l w3 up e3)
      ]

  send_opened-fds : (m : EmiMsg) (w : World) → w.fds ≡ sd.d ∷ l → (send_opened os sd m w).1.fds ≡ l
  unfolding send_opened
  send_opened-fds m w e =
      let (r, w1) = connect os sd m.dest_addr w in
      let e1 : w1.fds ≡ sd.d ∷ l = connect-fds os sd m.dest_addr w ∙ e in
      elim (Bool-cases (is_negative r)) [
        | inl bad ↦ rw bad (emi_close-newest sd l w1 up e1)
        | inr good ↦ rw good (send_connected-fds m w1 e1)
      ]

-- The kernel hands out no descriptor 0: it stays with the standard input.
abbrev pub NoZero : Os → Type 0
NoZero os = (t : ℕ) → is_negative (os.socket t) ≡ false → is_positive (os.socket t) ≡ true

-- What `emi_open` does: a descriptor more and a socket that has it, or nothing.
emi_open-fds :
    (os : Os) (af : ℕ) (w : World)
    → NoZero os
    → (((emi_open os af w).0 ≡ none) × ((emi_open os af w).1.fds ≡ w.fds))
      ⊎ ((sd : SkDpr) × ((emi_open os af w).0 ≡ some sd)
          × (is_positive sd.d ≡ true)
          × ((emi_open os af w).1.fds ≡ sd.d ∷ w.fds))
unfolding emi_open
emi_open-fds os af w up = elim (Bool-cases (os.malloc w.time)) [
  | inr poor ↦ rw poor (inl (refl, refl))
  | inl rich ↦ elim (Bool-cases (is_negative (os.socket w.time))) [
    | inl bad ↦ rw (rich, bad) (inl (refl, refl))
    | inr good ↦ rw (rich, good) (inr (_, refl, up w.time good, refl))
  ]
]

-- If `socket` never gives descriptor 0, then whatever else the message, the kernel and the peer
-- do, `emi_msg_send` leaves open exactly the descriptors that were open before.
pub emi_msg_send-fds :
    (os : Os) (m : EmiMsg) (w : World) → NoZero os → (emi_msg_send os m w).1.fds ≡ w.fds
unfolding emi_msg_send
emi_msg_send-fds os m w up =
    elim (Bool-cases (not (has m.flag Flag.type_data) && not (has m.flag Flag.type_cmd))) [
      | inl untyped ↦ rw untyped refl
      | inr typed ↦ rw typed (elim (emi_open-fds os af_inet w up) [
        | inl (shut, e) ↦ rw shut e
        | inr (sd, opened, d, e) ↦
            rw opened (send_opened-fds os sd w.fds d m (emi_open os af_inet w).1 e)
      ])
    ]
