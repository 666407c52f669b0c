-- ===== src/Bus/Registration.antt =====
-- A process registers a function (`__emi_msg_register` in emi_if.c) with the daemon
-- (`emi_recieve_operation` in emi_core.c), and then gets the messages of the number.
mod Examples
use emi.Prelude.{
  ℕ, ◌+◌, ◌<◌, ◌≡◌, refl, ap, ◌∙◌, sym, Bool, true, false, not, ◌||◌, some, none, List, [], ◌∷◌,
  ◌++◌, ◌==◌, if◌then◌else◌, length, suc, arith, ℤ, pos, minus_one, is_negative, lt_size,
}
use emi.Prelude.Bits.{has, has-bit_or, has_none}
use Prim.Native.Nat.{bit_or}
use mathlib.Core.Bool.{or-true}
use emi.MsgTable.{MsgMap, msg_map, emi_max_msg, emi_hash}
use emi.MsgTable.Registry.{registered, same, IsWellFormed, Inserts}
use emi.Core.Dispatch.{Delivery, deliver}
use emi.Core.Dispatch.Alive.{AliveFrom, any_eq, after}
use emi.Core.Dispatch.Receivers.{deliver-registered}
use emi.Core.Receive.{Daemon, Around, set_slot, serve}
use emi.Core.Receive.Requests.{register_request-Inserts}
use emi.Message.{
  EmiMsg, EmiAddr, Host, zero_msg, localhost, inaddr_none, af_inet, emi_fill_msg, emi_fill_addr,
  fill_dest, fill_fields, fill_data, or_keep,
}
use emi.Message.Flag
use emi.Socket.{Os, World, SkDpr, wrote_msg, msg_events, emi_open, tick, read_msg, write_msg}
use emi.Space.Bounds.{sizeof_emi_msg}
use emi.Client.{FuncList, Local, connect, register_msg, register_exchange, add_func, register}
use emi.Client.Handler.Order.{funcs_for}

-- What a process sends to register a number.
abbrev pub request : Host → EmiMsg → ℕ → EmiMsg
request host junk n = record (zero_msg junk.payload) {
  src_addr = record {
    ip = host.inet_addr localhost;
    port = host.htons host.emi_port;
    family = af_inet;
    pid = host.getpid;
    id = 0;
  };
  msg = n;
  flag = bit_or 0 Flag.cmd_register;
}

register_msg-request :
    (host : Host) (junk : EmiMsg) (n flag : ℕ)
    → (host.inet_addr localhost == inaddr_none) ≡ false
    → register_msg host junk n flag ≡ some (pos 0, request host junk n)
unfolding register_msg
register_msg-request host junk n flag known =
    let keep : or_keep n 0 ≡ n = ground arith in
    unfold emi_fill_msg emi_fill_addr in
    rw known (
      unfold fill_dest fill_fields fill_data in
      ap (λ (k : ℕ). some (pos 0, record (request host junk n) { msg = k })) keep)

request-flag :
    (host : Host) (junk : EmiMsg) (n bit : ℕ)
    → has (request host junk n).flag bit ≡ has Flag.cmd_register bit
request-flag host junk n bit = has-bit_or 0 Flag.cmd_register bit ∙ rw (has_none bit) refl

-- The daemon reads the request and takes it.
serve-registers :
    (x : Around) (fuel addr : ℕ) (d : Daemon) (w : World) (host : Host) (junk : EmiMsg) (n : ℕ)
    → x.os.read_msg w.time (d.slot addr) ≡ (pos sizeof_emi_msg, request host junk n)
    → x.os.write (w.time + 1) sizeof_emi_msg ≡ pos sizeof_emi_msg
    → x.memory ≡ true
    → IsWellFormed d.table
    → emi_hash (msg_map n host.getpid) < emi_max_msg
    → (r : Daemon × World) × (serve x fuel addr d w ≡ some r)
      × IsWellFormed r.0.table
      × (registered r.0.table (msg_map n host.getpid) ≡ true)
      × (r.1.log
          ≡ w.log ++ wrote_msg (record (request host junk n) { flag = Flag.cmd_succeeded }) ∷ [])
unfolding serve read_msg
serve-registers x fuel addr d w host junk n reads writes mem ok inside =
    let cmd = request host junk n in
    let registers : has cmd.flag Flag.cmd_register ≡ true =
      request-flag host junk n Flag.cmd_register ∙ (unfold has in refl) in
    let plain : has cmd.flag Flag.flag_block_return ≡ false =
      request-flag host junk n Flag.flag_block_return ∙ (unfold has in refl) in
    let (code, r, run, ins, log) =
      register_request-Inserts x addr cmd (set_slot addr cmd d) (tick w) mem ok inside plain in
    let self : same (msg_map n host.getpid) (msg_map n host.getpid) ≡ true = ground arith in
    let there : registered r.0.table (msg_map n host.getpid) ≡ true =
      ins.members (msg_map n host.getpid)
      ∙ rw self (or-true (registered d.table (msg_map n host.getpid))) in
    (
      r,
      rw (reads, registers) run,
      ins.well_formed,
      there,
      log
          ∙ ap
              (λ z. w.log ++ msg_events z sizeof_emi_msg (record cmd { flag = Flag.cmd_succeeded }))
              writes,
    )

-- The daemon is reached, the request is sent, and the answer is read.
pub record Answers (os : Os) (sd : SkDpr) (cmd : EmiMsg) (w : World) : Type 0 where
  pub connects : is_negative (connect os sd cmd.src_addr w).0 ≡ false
  pub sends :
      lt_size (os.write (connect os sd cmd.src_addr w).1.time sizeof_emi_msg) sizeof_emi_msg ≡ false
  pub reads :
      os.read_msg ((connect os sd cmd.src_addr w).1.time + 1) cmd
      ≡ (pos sizeof_emi_msg, record cmd { flag = Flag.cmd_succeeded })

exchange-ok :
    (os : Os) (sd : SkDpr) (cmd : EmiMsg) (w : World)
    → Answers os sd cmd w
    → (register_exchange os sd cmd w).0 ≡ pos 0
unfolding register_exchange write_msg read_msg
exchange-ok os sd cmd w a = rw (a.connects, a.sends, a.reads) (unfold has in refl)

-- The descriptor that the process opens, and the world with it.
abbrev pub opened : Os → World → SkDpr
opened os w = record { d = os.socket w.time; af = af_inet }

abbrev pub with_socket : Os → World → World
with_socket os w = record (tick w) { fds = os.socket w.time ∷ w.fds }

-- A build that keeps every function, with memory and signals.
pub record Plain (os : Os) (host : Host) (here : Local) (w : World) : Type 0 where
  pub keeps : here.exclusive_msg ≡ false
  pub memory : here.memory ≡ true
  pub signals : is_negative here.sigaction ≡ false
  pub known : (host.inet_addr localhost == inaddr_none) ≡ false
  pub allocates : os.malloc w.time ≡ true
  pub opens : is_negative (os.socket w.time) ≡ false

emi_open-ok :
    (os : Os) (host : Host) (here : Local) (w : World)
    → Plain os host here w
    → emi_open os af_inet w ≡ (some (opened os w), with_socket os w)
unfolding emi_open
emi_open-ok os host here w p = rw (p.allocates, p.opens) refl

register-ok :
    (os : Os) (host : Host) (here : Local) (n func flag : ℕ) (l : List FuncList) (w : World)
    → Plain os host here w
    → Answers os (opened os w) (request host here.junk n) (with_socket os w)
    → (w' : World) × (register os host here n func flag l w
        ≡ some ((pos 0, record { func = func; msg = n } ∷ l), w'))
unfolding register add_func
register-ok os host here n func flag l w p a =
    let cmd = request host here.junk n in
    let sd = emi_open-ok os host here w p in
    let after_open : (emi_open os af_inet w).1 ≡ with_socket os w = ap (λ r. r.1) sd in
    let made = register_msg-request host here.junk n flag p.known in
    let ok = exchange-ok os (opened os w) cmd (with_socket os w) a in
    (
      (register_exchange os (opened os w) cmd (with_socket os w)).1,
      rw (sd, register, made, after_open, ok, p.keeps, p.memory, p.signals) refl,
    )

-- The delivery of a message without a count, from the daemon as it stands.
abbrev pub fresh : Daemon → Delivery
fresh d = record { table = d.table; index = d.index; count = 0; sent = [] }

-- Let a process register a function for a number that has a bucket, on a machine with memory, sockets
-- and signals, in a build that keeps every function; let a daemon with memory and a well-formed table
-- read what the process sends and write its answer whole, and the process read what the daemon answers. Then the daemon keeps the
-- registration in a well-formed table and answers with a success, the process is told 0 and has the
-- function first in its list for the number, and a delivery of the number from this table ends, if
-- every process is there, with a signal to the process.
pub register-reaches :
    (os : Os) (host : Host) (here : Local) (n func flag : ℕ) (l : List FuncList) (w : World)
    (x : Around) (fuel addr : ℕ) (d : Daemon) (w2 : World) (nth : ℕ)
    → Plain os host here w
    → Answers os (opened os w) (request host here.junk n) (with_socket os w)
    → x.os.read_msg w2.time (d.slot addr) ≡ (pos sizeof_emi_msg, request host here.junk n)
    → x.os.write (w2.time + 1) sizeof_emi_msg ≡ pos sizeof_emi_msg
    → x.memory ≡ true
    → AliveFrom 0 x.kill
    → IsWellFormed d.table
    → emi_hash (msg_map n host.getpid) < emi_max_msg
    → (r : Daemon × World) × (l' : List FuncList) × (w' : World) × (rounds : ℕ) × (ps : List ℕ)
      × (serve x fuel addr d w2 ≡ some r)
      × IsWellFormed r.0.table
      × (registered r.0.table (msg_map n host.getpid) ≡ true)
      × (r.1.log
          ≡ w2.log
            ++ wrote_msg (record (request host here.junk n) { flag = Flag.cmd_succeeded }) ∷ [])
      × (register os host here n func flag l w ≡ some ((pos 0, l'), w'))
      × (funcs_for n l' ≡ func ∷ funcs_for n l)
      × (deliver x.kill nth rounds (msg_map n 0) 0 (fresh r.0) ≡ some (after nth ps (fresh r.0)))
      × (any_eq host.getpid ps ≡ true)
register-reaches os host here n func flag l w x fuel addr d w2 nth plain answers reads writes mem
      alive ok inside =
    let (r, run, well, there, log) =
      serve-registers x fuel addr d w2 host here.junk n reads writes mem ok inside in
    let (w', done) = register-ok os host here n func flag l w plain answers in
    let rounds : ℕ = suc (length (r.0.table (emi_hash (msg_map n 0)))) in
    let (ps, ends, all) =
      deliver-registered x.kill nth rounds (msg_map n 0) (fresh r.0) alive
        (unfold emi_hash in inside) (omega arith) in
    let own : (n == n) ≡ true = ground arith in
    (
      r,
      record { func = func; msg = n } ∷ l,
      w',
      rounds,
      ps,
      run,
      well,
      there,
      log,
      done,
      rw own refl,
      ends,
      all host.getpid ∙ there,
    )
