-- ===== src/Core/Receive.antt =====
-- `emi_recieve_operation` (emi_core.c), which one thread runs for each connection. The memory of a
-- slot is a message by its address. What the other processes do to the slot is an argument: from the
-- signals that were sent, and the message with the count that the daemon raised, `wait` gives the
-- message that stands in the slot when the daemon sees the count at zero, or `none` if it never does.
pub mod Paths
pub mod Requests
mod Examples
use emi.Prelude.{
  ℕ, zero, suc, ◌+◌, ◌%◌, Bool, true, false, not, ◌&&◌, ◌||◌, Option, none, some, List, [], ◌∷◌,
  ltb, ◌==◌, if◌then◌else◌, length, ℤ, pos, lt_size, lt_u32,
}
use emi.Prelude.Bits.{has}
use Prim.Native.Nat.{bit_and, ◌-◌}
use emi.MsgTable.{
  MsgMap, msg_map, Chain, Table, emi_hash, hsearch, load_chain, store_chain, emi_hinsert, ◌>>=◌,
}
use emi.Core.Dispatch.{Delivery, Kill, deliver}
use emi.Space.{Space, null, u32_mod, obtain_space, return_space, obtain_space_num}
use emi.Space.Bounds.{sizeof_emi_msg}
use emi.Message.{EmiMsg}
use emi.Message.Flag
use emi.Socket.{Os, World, SkDpr, emi_close, write_msg, write_data, read_msg, read_data}

-- What the threads share: the table, the pool, the index cells, and the slots.
pub record Daemon : Type 0 where
  pub table : Table
  pub space : Space
  pub index : ℕ → ℕ
  pub slot : ℕ → EmiMsg

-- What surrounds the daemon: system calls, the receivers, the configuration, the base address, and
-- what the stack holds where `cmd` is put.
pub record Around : Type 0 where
  pub os : Os
  pub memory : Bool
  pub kill : Kill
  pub wait : List (ℕ × ℕ) → EmiMsg → Option EmiMsg
  pub data_size : ℕ
  pub base : ℕ
  pub junk : EmiMsg

abbrev pub set_slot : ℕ → EmiMsg → Daemon → Daemon
set_slot addr m d = record d { slot = λ a. if a == addr then m else d.slot a }

abbrev pub set_pid : ℕ → ℕ → Chain → Chain
set_pid at pid [] = []
set_pid zero pid (x ∷ c) = record x { pid = pid } ∷ c
set_pid (suc at) pid (x ∷ c) = x ∷ set_pid at pid c

-- `mp=__emi_hsearch(...); if(mp!=NULL) mp->pid=p.pid`
unfoldable pub claim_first : Table → MsgMap → Option Table
claim_first table p = do
  found ← hsearch table p 0
  elim found [
    | none ↦ some table
    | some f ↦
        load_chain table (emi_hash p) >>= λ c. store_chain table (emi_hash p) (set_pid f.at p.pid c)
  ]

-- A registration: what `emi_hinsert` answers does not count, and the answer is a success.
unfoldable pub register_request : Around → ℕ → EmiMsg → Daemon → World → Option (Daemon × World)
unfolding write_msg
register_request x addr m d w = do
  let p = msg_map m.msg m.src_addr.pid
  inserted ← emi_hinsert x.memory d.table p
  table ← (if has m.flag Flag.flag_block_return then claim_first inserted.1 p else some inserted.1)
  let answer = record m { flag = Flag.cmd_succeeded }
  some (
    set_slot addr answer (record d { table = table }),
    (write_msg x.os sizeof_emi_msg answer w).1,
  )

-- `flag & ~EMI_MSG_CMD_SUCCEEDED`
abbrev pub drop_succeeded : ℕ → ℕ
drop_succeeded flag = bit_and flag (0xffff_ffff - Flag.cmd_succeeded)

-- The flag that goes back in the BLOCK_RETURN mode.
unfoldable pub return_flag : ℕ → EmiMsg → ℕ
return_flag data_size m =
    if not (has m.flag Flag.cmd_succeeded)
    then m.flag
    else if ltb data_size m.size
    then drop_succeeded m.flag
    else Flag.cmd_succeeded

-- The answer once every process is done; the message as it then stands in the slot.
unfoldable pub answer_request : Around → EmiMsg → World → EmiMsg × World
unfolding write_msg write_data
answer_request x m w =
    let cmd = record x.junk { flag = Flag.cmd_succeeded } in
    let back = record m { flag = return_flag x.data_size m } in
    let (r, w1) = write_msg x.os sizeof_emi_msg back w in
    if has m.flag Flag.flag_nonblock
    then (m, w)
    else if has m.flag Flag.flag_block
    then (m, (write_msg x.os sizeof_emi_msg cmd w).1)
    else if has m.flag Flag.flag_block_return
    then (
      back,
      if lt_size r sizeof_emi_msg
          then w1
          else if has back.flag Flag.cmd_succeeded && ltb 0 back.size
          then (write_data x.os back.size back.payload w1).1
          else w1,
    )
    else (m, w)

-- The delivery with the data in the slot, and `while(msg_pos->count)`; `none` is a fault, the end of
-- the fuel, or a wait that does not end.
unfoldable pub deliver_request : Around → ℕ → ℕ → EmiMsg → Daemon → World → Option (Daemon × World)
deliver_request x fuel addr m d w =
    let nth = obtain_space_num x.base addr 1 in
    let start : Delivery = record {
      table = d.table;
      index = d.index;
      count = m.count;
      sent = [];
    } in
    deliver x.kill nth fuel (msg_map m.msg 0) 0 start >>= λ s.
    x.wait s.sent (record m { count = s.count }) >>= λ seen.
    let (final, w1) = answer_request x seen w in
    some (set_slot addr final (record d { table = s.table; index = s.index }), w1)

-- The data, if there are any and they are smaller than the configured size: `none` for a read that
-- is seen to be short.
unfoldable pub read_body : Around → EmiMsg → World → Option EmiMsg × World
unfolding read_data
read_body x m w =
    let (got, w1) = read_data x.os m.size m.payload w in
    if has m.flag Flag.type_data && ltb m.size x.data_size
    then (if lt_u32 got.0 m.size then (none, w1) else (some (record m { payload = got.1 }), w1))
    else (some m, w)

-- Everything between the slot and the label `e0`.
unfoldable pub serve : Around → ℕ → ℕ → Daemon → World → Option (Daemon × World)
serve x fuel addr d w =
    let (got, w1) = read_msg x.os (d.slot addr) w in
    let m = got.1 in
    let (body, w2) = read_body x m w1 in
    let d1 = set_slot addr m d in
    if lt_size got.0 sizeof_emi_msg
    then some (d1, w1)
    else if has m.flag Flag.cmd_register
    then register_request x addr m d1 w1
    else elim body [ none ↦ some (d1, w2) | some full ↦ deliver_request x fuel addr full d1 w2 ]

-- The label `e0`: the connection is closed and the slot, or NULL, is given back.
unfoldable pub finish : SkDpr → ℕ → Daemon → World → Daemon × World
finish sd addr d w = (record d { space = (return_space addr d.space).1 }, emi_close (some sd) w)

unfoldable pub receive : Around → ℕ → SkDpr → Daemon → World → Option (Daemon × World)
unfolding finish
receive x fuel sd d w = do
  obtained ← obtain_space x.base 1 d.space
  let addr = obtained.0
  let d1 = record d { space = obtained.1 }
  served ← (if addr == null then some (d1, w) else serve x fuel addr d1 w)
  some (finish sd addr served.0 served.1)
