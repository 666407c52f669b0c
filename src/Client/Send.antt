-- ===== src/Client/Send.antt =====
-- What `emi_msg_send` answers.
use emi.Prelude.{
  ◌∙◌, lt_size, lt_u32, take, ltb, ℕ, ◌^◌, ◌<◌, ◌≡◌, refl, ap, true, false, not, ◌&&◌, ◌||◌, some,
  List, [], ◌∷◌, ◌++◌, if◌then◌else◌, arith, ℤ, pos, negsuc, minus_one, is_negative,
}
use mathlib.Core.List.{append_assoc, append-nil}
use emi.Prelude.Bits.{has}
use emi.Message.{EmiAddr, EmiMsg, zero_msg, af_inet}
use emi.Message.Flag
use emi.Socket.{
  Os, World, SkDpr, Event, connected, wrote_msg, wrote_data, msg_events, data_events, tick,
  is_positive, emi_open, emi_close, write_msg,
}
use emi.Socket.Connect.{emi_connect-two_tries}
use emi.Space.Bounds.{sizeof_emi_msg}
use emi.Client.{connect, send_body, await, send_connected, send_opened, emi_msg_send}

-- The answer that the daemon's reply leaves in the buffer that it is read into.
abbrev pub reply : Os → EmiMsg → World → EmiMsg
reply os m w =
    if has m.flag Flag.flag_block
    then (os.read_msg w.time (zero_msg [])).1
    else (os.read_msg w.time m).1

-- For a message that blocks, in either way, the result is 0 exactly if the buffer holds the bit
-- for success after the read: neither the result of that read nor that of reading the data counts.
pub await-flag :
    (os : Os) (m : EmiMsg) (ret : ℤ) (w : World)
    → (has m.flag Flag.flag_block || has m.flag Flag.flag_block_return) ≡ true
    → (await os m ret w).0.0
      ≡ (if has (reply os m w).flag Flag.cmd_succeeded then pos 0 else minus_one)
unfolding await
await-flag os m ret w h = ground arith

-- The kernel gives sockets, the peer takes the connection, and a write of `n` bytes is answered with
-- `answer n`.
pub record Reachable (answer : ℕ → ℤ) (os : Os) : Type 0 where
  pub malloc : (t : ℕ) → os.malloc t ≡ true
  pub socket : (t : ℕ) → is_positive (os.socket t) ≡ true
  pub connect : (t : ℕ) (addr : EmiAddr) → os.connect t addr ≡ pos 0
  pub write : (t n : ℕ) → os.write t n ≡ answer n

-- Every write takes all that it is given, or every write fails.
abbrev pub Quiet : Os → Type 0
Quiet os = Reachable (λ n. pos n) os

abbrev pub Mute : Os → Type 0
Mute os = Reachable (λ n. minus_one) os

-- A message that does not block: the connection, the header, and the data if the flag says so.
abbrev pub sent_events : EmiMsg → List Event
sent_events m =
    connected m.dest_addr
    ∷ wrote_msg m
    ∷ (if has m.flag Flag.type_data then wrote_data (take m.size m.payload) ∷ [] else [])

-- What is sent where writes are answered with `answer`.
abbrev body_events : (answer : ℕ → ℤ) → EmiMsg → List Event
body_events answer m =
    if has m.flag Flag.type_data then data_events (answer m.size) m.size m.payload else []

abbrev events_by : (answer : ℕ → ℤ) → EmiMsg → List Event
events_by answer m =
    connected m.dest_addr ∷ msg_events (answer sizeof_emi_msg) sizeof_emi_msg m
    ++ body_events answer m

-- No answer is seen to be short.
record Passes (answer : ℕ → ℤ) : Type 0 where
  size : lt_size (answer sizeof_emi_msg) sizeof_emi_msg ≡ false
  u32 : (n : ℕ) → n < 2 ^ 32 → lt_u32 (answer n) n ≡ false

positive-not_negative : (z : ℤ) → is_positive z ≡ true → is_negative z ≡ false
positive-not_negative (pos n) h = refl
positive-not_negative (negsuc n) h = ground arith

module _ (answer : ℕ → ℤ) (os : Os) (q : Reachable answer os) (p : Passes answer) where
  quiet_connect :
      (sd : SkDpr) (addr : EmiAddr) (w : World)
      → sd.af ≡ af_inet
      → connect os sd addr w ≡ (pos 0, record (tick w) { log = w.log ++ connected addr ∷ [] })
  unfolding connect
  quiet_connect sd addr w e =
      rw (emi_connect-two_tries os 0 sd addr w e, connect, q.connect w.time addr) refl

  quiet_body :
      (m : EmiMsg) (ret : ℤ) (w : World)
      → (has m.flag Flag.type_data || has m.flag Flag.type_cmd) ≡ true
      → m.size < 2 ^ 32
      → ((send_body os m ret w).0 ≡ pos 0)
        × ((send_body os m ret w).1.log ≡ w.log ++ body_events answer m)
  unfolding send_body
  quiet_body m ret w h small =
      rw (q.write w.time m.size) (ground (arith, p.u32 m.size small, append-nil w.log))

  emi_close-log : (sd : SkDpr) (w : World) → (emi_close (some sd) w).log ≡ w.log
  unfolding emi_close
  emi_close-log sd w = ground arith

  quiet_await :
      (m : EmiMsg) (ret : ℤ) (w : World)
      → (has m.flag Flag.flag_block || has m.flag Flag.flag_block_return) ≡ false
      → await os m ret w ≡ ((ret, m), w)
  unfolding await
  quiet_await m ret w h = ground arith

  quiet_connected :
      (sd : SkDpr) (m : EmiMsg) (w : World)
      → (has m.flag Flag.type_data || has m.flag Flag.type_cmd) ≡ true
      → (has m.flag Flag.flag_block || has m.flag Flag.flag_block_return) ≡ false
      → m.size < 2 ^ 32
      → ((send_connected os sd m w).0 ≡ (pos 0, m))
        × ((send_connected os sd m w).1.log
            ≡ (w.log ++ msg_events (answer sizeof_emi_msg) sizeof_emi_msg m)
              ++ body_events answer m)
  unfolding send_connected write_msg
  quiet_connected sd m w typed free small =
      let w1 : World = record (tick w) {
        log = w.log ++ msg_events (answer sizeof_emi_msg) sizeof_emi_msg m;
      } in
      let r : ℤ = answer sizeof_emi_msg in
      let (ret, log) = quiet_body m r w1 typed small in
      rw
        (
          q.write w.time sizeof_emi_msg,
          p.size,
          quiet_await m (send_body os m r w1).0 (send_body os m r w1).1 free,
          emi_close-log sd (send_body os m r w1).1,
          ret,
          log,
        )
        (refl, refl)

  quiet_open :
      (w : World)
      → emi_open os af_inet w ≡ (
        some (record { d = os.socket w.time; af = af_inet }),
        record (tick w) { fds = os.socket w.time ∷ w.fds },
      )
  unfolding emi_open
  quiet_open w =
      ground (arith, q.malloc w.time, q.socket w.time, positive-not_negative (os.socket w.time))

  quiet_opened :
      (sd : SkDpr) (m : EmiMsg) (w : World)
      → sd.af ≡ af_inet
      → (has m.flag Flag.type_data || has m.flag Flag.type_cmd) ≡ true
      → (has m.flag Flag.flag_block || has m.flag Flag.flag_block_return) ≡ false
      → m.size < 2 ^ 32
      → ((send_opened os sd m w).0 ≡ (pos 0, m))
        × ((send_opened os sd m w).1.log ≡ w.log ++ events_by answer m)
  unfolding send_opened
  quiet_opened sd m w e typed free small =
      let w1 : World = record (tick w) { log = w.log ++ connected m.dest_addr ∷ [] } in
      let (told, log) = quiet_connected sd m w1 typed free small in
      let header = msg_events (answer sizeof_emi_msg) sizeof_emi_msg m in
      rw
        (
          quiet_connect sd m.dest_addr w e,
          told,
          log,
          append_assoc w.log (connected m.dest_addr ∷ []) header,
          append_assoc w.log (connected m.dest_addr ∷ header) (body_events answer m),
        )
        (refl, refl)

  emi_msg_send-answered :
      (m : EmiMsg) (w : World)
      → (has m.flag Flag.type_data || has m.flag Flag.type_cmd) ≡ true
      → (has m.flag Flag.flag_block || has m.flag Flag.flag_block_return) ≡ false
      → m.size < 2 ^ 32
      → ((emi_msg_send os m w).0 ≡ (pos 0, m))
        × ((emi_msg_send os m w).1.log ≡ w.log ++ events_by answer m)
  unfolding emi_msg_send
  emi_msg_send-answered m w typed free small =
      let sd : SkDpr = record { d = os.socket w.time; af = af_inet } in
      let w1 : World = record (tick w) { fds = os.socket w.time ∷ w.fds } in
      let (zero_told, log) = quiet_opened sd m w1 refl typed free small in
      let told : (not (has m.flag Flag.type_data) && not (has m.flag Flag.type_cmd)) ≡ false =
        ground arith in
      rw (told, quiet_open w, ap (λ x. x.1) (quiet_open w), zero_told, log) (refl, refl)

whole-Passes : Passes (λ n. pos n)
whole-Passes = record { size = refl; u32 = λ n h. ground arith }

failed-Passes : Passes (λ n. minus_one)
failed-Passes = record { size = refl; u32 = λ n h. ground arith }

events_by-whole : (m : EmiMsg) → events_by (λ n. pos n) m ≡ sent_events m
events_by-whole m = let whole : ltb m.size m.size ≡ false = ground arith in rw whole refl

events_by-failed : (m : EmiMsg) → events_by (λ n. minus_one) m ≡ connected m.dest_addr ∷ []
events_by-failed m = ground arith

module _ (os : Os) (m : EmiMsg) (w : World)
    (typed : (has m.flag Flag.type_data || has m.flag Flag.type_cmd) ≡ true)
    (free : (has m.flag Flag.flag_block || has m.flag Flag.flag_block_return) ≡ false)
    (small : m.size < 2 ^ 32) where
  -- On a quiet network, a message that has a type, does not block and is smaller than 2^32 bytes
  -- is answered 0, and the peer was sent the header and, if the flag says that there are data,
  -- the data.
  pub emi_msg_send-nonblock :
      Quiet os
      → ((emi_msg_send os m w).0 ≡ (pos 0, m))
        × ((emi_msg_send os m w).1.log ≡ w.log ++ sent_events m)
  emi_msg_send-nonblock q =
      let (told, log) = emi_msg_send-answered (λ n. pos n) os q whole-Passes m w typed free small in
      (told, log ∙ ap (λ l. w.log ++ l) (events_by-whole m))

  -- Where the peer takes the connection and every write fails with -1, a message that has a type, does
  -- not block and is smaller than 2^32 bytes is answered 0 all the same, and nothing was sent.
  pub emi_msg_send-unsent :
      Mute os
      → ((emi_msg_send os m w).0 ≡ (pos 0, m))
        × ((emi_msg_send os m w).1.log ≡ w.log ++ connected m.dest_addr ∷ [])
  emi_msg_send-unsent q =
      let (told, log) =
        emi_msg_send-answered (λ n. minus_one) os q failed-Passes m w typed free small in
      (told, log ∙ ap (λ l. w.log ++ l) (events_by-failed m))
