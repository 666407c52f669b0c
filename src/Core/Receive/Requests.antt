-- ===== src/Core/Receive/Requests.antt =====
-- What the daemon answers.
use emi.Prelude.{ℕ, ◌<◌, ◌≡◌, refl, true, false, some, ◌++◌, ℤ}
use emi.Prelude.Bits.{has}
use emi.MsgTable.{msg_map, emi_max_msg, emi_hash}
use emi.MsgTable.Registry.{IsWellFormed, Inserts, emi_hinsert-Inserts}
use emi.Message.{EmiMsg}
use emi.Message.Flag
use emi.Socket.{World, msg_events, write_msg}
use emi.Space.Bounds.{sizeof_emi_msg}
use emi.Core.Receive.{set_slot, Daemon, Around, register_request, answer_request}

-- On a well-formed table, a registration without BLOCK_RETURN, with memory and with a number that
-- has a bucket, adds exactly the sender for its number, keeps the table well formed, and is
-- answered with a success, as far as `write` takes it.
pub register_request-Inserts :
    (x : Around) (addr : ℕ) (m : EmiMsg) (d : Daemon) (w : World)
    → x.memory ≡ true
    → IsWellFormed d.table
    → emi_hash (msg_map m.msg m.src_addr.pid) < emi_max_msg
    → has m.flag Flag.flag_block_return ≡ false
    → (code : ℤ) × (r : Daemon × World) × (register_request x addr m d w ≡ some r)
      × Inserts d.table (msg_map m.msg m.src_addr.pid) (code, r.0.table)
      × (r.1.log
          ≡ w.log
            ++ msg_events
                (x.os.write w.time sizeof_emi_msg)
                sizeof_emi_msg
                (record m { flag = Flag.cmd_succeeded }))
unfolding register_request write_msg
register_request-Inserts x addr m d w mem ok inside plain =
    let (q, run, ins) = emi_hinsert-Inserts d.table (msg_map m.msg m.src_addr.pid) ok inside in
    let answer = record m { flag = Flag.cmd_succeeded } in
    (
      q.0,
      (set_slot addr answer (record d { table = q.1 }), (write_msg x.os sizeof_emi_msg answer w).1),
      rw (mem, run, plain) refl,
      ins,
      refl,
    )

-- A message that blocks, and is not marked as not blocking too, is answered with a success,
-- whatever became of it, as far as `write` takes it.
pub answer_request-block :
    (x : Around) (m : EmiMsg) (w : World)
    → has m.flag Flag.flag_nonblock ≡ false
    → has m.flag Flag.flag_block ≡ true
    → (answer_request x m w).1.log
      ≡ w.log
        ++ msg_events
            (x.os.write w.time sizeof_emi_msg)
            sizeof_emi_msg
            (record x.junk { flag = Flag.cmd_succeeded })
unfolding answer_request write_msg
answer_request-block x m w waits blocks = rw (waits, blocks) refl
