-- ===== src/Client.antt =====
-- The sending and registering functions of emi_if.c. A function that gives its message back does
-- so because the caller keeps the pointer.
pub mod Send
pub mod Register
pub mod Handler
pub mod Highlevel
pub mod Descriptors
pub mod Init
mod Examples
use Prim.Native.Nat.{bit_or}
use emi.Prelude.{
  ℕ, ◌+◌, Bool, true, false, not, ◌&&◌, ◌||◌, Option, none, some, List, [], ◌∷◌, ltb, ◌==◌,
  if◌then◌else◌, ℤ, pos, minus_one, is_negative, is_nonzero, lt_size, lt_u32,
}
use emi.Prelude.Bits.{has}
use emi.Message.{EmiAddr, EmiMsg, Host, zero_msg, af_inet, emi_fill_msg, emi_msg_alloc}
use emi.Message.Flag
use emi.Socket.{
  Os, World, SkDpr, emi_open, emi_close, emi_connect, write_msg, write_data, read_msg, read_data,
}
use emi.Space.Bounds.{sizeof_emi_msg}

-- `emi_connect(sd, addr, 1)`, which ends within three rounds.
unfoldable pub connect : Os → SkDpr → EmiAddr → World → ℤ × World
connect os sd addr w = elim (emi_connect os 3 sd addr 1 w) [ none ↦ (minus_one, w) | some r ↦ r ]

-- The data behind the message: `ret` is what `emi_msg_send` has in `ret` afterwards.
unfoldable pub send_body : Os → EmiMsg → ℤ → World → ℤ × World
unfolding write_data
send_body os m ret w =
    if has m.flag Flag.type_data
    then (let (r, w1) = write_data os m.size m.payload w in
        (if lt_u32 r m.size then minus_one else pos 0, w1))
    else (if has m.flag Flag.type_cmd then pos 0 else ret, w)

-- The answer to a message that blocks: only the flag that was read decides.
unfoldable pub await_block : Os → World → ℤ × World
unfolding read_msg
await_block os w =
    let (got, w1) = read_msg os (zero_msg []) w in
    (if has got.1.flag Flag.cmd_succeeded then pos 0 else minus_one, w1)

-- The answer to a message that blocks for data, read into the message itself; what `emi_read` says
-- of the data is overwritten.
unfoldable pub await_return : Os → EmiMsg → World → (ℤ × EmiMsg) × World
unfolding read_msg read_data
await_return os m w =
    let (got, w1) = read_msg os m w in
    let answer = got.1 in
    let (body, w2) = read_data os answer.size answer.payload w1 in
    if has answer.flag Flag.cmd_succeeded
    then (if ltb 0 answer.size
        then ((pos 0, record answer { payload = body.1 }), w2)
        else ((pos 0, answer), w1))
    else ((minus_one, answer), w1)

unfoldable pub await : Os → EmiMsg → ℤ → World → (ℤ × EmiMsg) × World
unfolding await_block await_return
await os m ret w =
    if has m.flag Flag.flag_block
    then (let (r, w1) = await_block os w in ((r, m), w1))
    else (if has m.flag Flag.flag_block_return then await_return os m w else ((ret, m), w))

-- `emi_msg_send` with the connection made.
unfoldable pub send_connected : Os → SkDpr → EmiMsg → World → (ℤ × EmiMsg) × World
send_connected os sd m w =
    let (r, w1) = write_msg os sizeof_emi_msg m w in
    let (ret, w2) = send_body os m r w1 in
    let (result, w3) = await os m ret w2 in
    if lt_size r sizeof_emi_msg
    then ((minus_one, m), emi_close (some sd) w1)
    else (result, emi_close (some sd) w3)

-- With the socket open.
unfoldable pub send_opened : Os → SkDpr → EmiMsg → World → (ℤ × EmiMsg) × World
send_opened os sd m w =
    let (r, w1) = connect os sd m.dest_addr w in
    if is_negative r then ((minus_one, m), emi_close (some sd) w1) else send_connected os sd m w1

-- `emi_msg_send`. `data` is an array in the struct, so its address is never NULL.
unfoldable pub emi_msg_send : Os → EmiMsg → World → (ℤ × EmiMsg) × World
emi_msg_send os m w =
    if not (has m.flag Flag.type_data) && not (has m.flag Flag.type_cmd)
    then ((minus_one, m), w)
    else (let (sd, w1) = emi_open os af_inet w in
        elim sd [ none ↦ ((minus_one, m), w1) | some s ↦ send_opened os s m w1 ])

-- `struct func_list`: a function by its address, and its number.
pub record FuncList : Type 0 where
  pub func : ℕ
  pub msg : ℕ

-- The message that `__emi_msg_register` sends: `cmd.flag` is set, and then all of `cmd` is zeroed
-- and filled.
unfoldable pub register_msg : Host → EmiMsg → (defined_msg flag : ℕ) → Option (ℤ × EmiMsg)
unfolding emi_fill_msg
register_msg host junk defined_msg flag =
    let cmd = record junk { flag = flag } in
    let zeroed = zero_msg cmd.payload in
    emi_fill_msg host zeroed none none 0 defined_msg Flag.cmd_register

-- `-ENOMEM`
abbrev pub minus_enomem : ℤ
minus_enomem = ℤ.negsuc 11

-- The list `__func_list`, with or without EXCLUSIVE_MSG: there a function for the same number
-- takes the place of the old one, and the answer is 1.
unfoldable pub replace_func : ℕ → ℕ → List FuncList → Option (List FuncList)
replace_func func msg [] = none
replace_func func msg (f ∷ l) = elim (f.msg == msg) [
  | true ↦ some (record f { func = func } ∷ l)
  | false ↦ elim (replace_func func msg l) [ none ↦ none | some l' ↦ some (f ∷ l') ]
]

-- `__emi_msg_register` after the daemon has accepted; `sigaction` stands for the last call.
unfoldable pub add_func :
    (exclusive_msg memory : Bool) (sigaction : ℤ) (func msg : ℕ) → List FuncList → ℤ × List FuncList
unfolding replace_func
add_func exclusive_msg memory sigaction func msg l =
    let front = record { func = func; msg = msg } ∷ l in
    let fresh : ℤ × List FuncList =
      if memory
      then (if is_negative sigaction then sigaction else pos 0, front)
      else (minus_enomem, l) in
    if exclusive_msg
    then (elim (replace_func func msg l) [ none ↦ fresh | some l' ↦ (pos 1, l') ])
    else fresh

-- The exchange with the daemon, with the socket open: 0, or -1. The socket is closed on the paths
-- that close it.
unfoldable pub register_exchange : Os → SkDpr → EmiMsg → World → ℤ × World
register_exchange os sd cmd w =
    let (r, w1) = connect os sd cmd.src_addr w in
    let (sent, w2) = write_msg os sizeof_emi_msg cmd w1 in
    let (got, w3) = read_msg os cmd w2 in
    if is_negative r
    then (minus_one, emi_close (some sd) w1)
    else (if lt_size sent sizeof_emi_msg
        then (minus_one, emi_close (some sd) w2)
        else (if lt_size got.0 sizeof_emi_msg
            then (minus_one, emi_close (some sd) w3)
            else (if has got.1.flag Flag.cmd_succeeded then (pos 0, w3) else (minus_one, w3))))

-- The build and the machine that a registration meets.
pub record Local : Type 0 where
  pub exclusive_msg : Bool
  pub memory : Bool
  pub sigaction : ℤ
  pub junk : EmiMsg

-- `__emi_msg_register`
unfoldable pub register :
    Os
    → Host
    → Local
    → (defined_msg func flag : ℕ) → List FuncList
    → World
    → Option ((ℤ × List FuncList) × World)
register os host here defined_msg func flag l w =
    let (opened, w1) = emi_open os af_inet w in
    elim opened [
      | none ↦ some ((minus_one, l), w1)
      | some sd ↦ elim (register_msg host here.junk defined_msg flag) [
        | none ↦ none
        | some (failed, cmd) ↦
            let (r, w2) = register_exchange os sd cmd w1 in
            if is_negative failed
            then some ((minus_one, l), emi_close (some sd) w1)
            else (if is_negative r
                then some ((minus_one, l), w2)
                else some
                    (add_func here.exclusive_msg here.memory here.sigaction func defined_msg l, w2))
      ]
    ]

unfoldable pub emi_msg_register :
    Os
    → Host
    → Local
    → (defined_msg func : ℕ) → List FuncList
    → World
    → Option ((ℤ × List FuncList) × World)
emi_msg_register os host here defined_msg func = register os host here defined_msg func 0

unfoldable pub emi_msg_register_exclusive :
    Os
    → Host
    → Local
    → (defined_msg func : ℕ) → List FuncList
    → World
    → Option ((ℤ × List FuncList) × World)
emi_msg_register_exclusive os host here defined_msg func =
    register os host here defined_msg func Flag.flag_block_return

-- `emi_msg_unregister` with a function: the first entry that has it and the number goes.
unfoldable pub unregister_one : (defined_msg func : ℕ) → List FuncList → List FuncList
unregister_one defined_msg func [] = []
unregister_one defined_msg func (f ∷ l) =
    if (f.msg == defined_msg) && (f.func == func) then l else f ∷ unregister_one defined_msg func l

-- With NULL for the function it frees the first entry with the number, and then reads the link of
-- that entry: `none`.
unfoldable pub unregister_all : (defined_msg : ℕ) → List FuncList → Option (List FuncList)
unregister_all defined_msg [] = some []
unregister_all defined_msg (f ∷ l) = elim (f.msg == defined_msg) [
  | true ↦ none
  | false ↦ elim (unregister_all defined_msg l) [ none ↦ none | some l' ↦ some (f ∷ l') ]
]

unfoldable pub emi_msg_unregister :
    (defined_msg : ℕ) (func : Option ℕ) → List FuncList → Option (List FuncList)
unfolding unregister_one unregister_all
emi_msg_unregister defined_msg none l = unregister_all defined_msg l
emi_msg_unregister defined_msg (some func) l = some (unregister_one defined_msg func l)
