-- ===== src/Message.antt =====
-- include/emi.h and the functions of emi_if.c that build messages. A `char *` that may be NULL is
-- an `Option`; `none` at the outside stands for a copy past the end of a buffer. What the C library
-- and the kernel supply is a `Host`.
pub mod Flag
pub mod Fill
pub mod Secret
mod Examples
use Prim.Native.Nat.{bit_or}
use emi.Prelude.{
  ℕ, zero, suc, ◌+◌, ◌≡◌, Bool, true, false, ◌&&◌, Option, none, some, List, [], ◌∷◌, ◌++◌, leb,
  ltb, ◌==◌, if◌then◌else◌, length, take, drop, ℤ, pos, negsuc, minus_one, is_nonzero, ◌||◌,
}
use emi.MsgTable.{◌>>=◌}
use Flag

-- `struct emi_addr`, the fields of `ipv4` in front.
pub record EmiAddr : Type 0 where
  pub ip : ℕ
  pub port : ℕ
  pub family : ℕ
  pub pid : ℕ
  pub id : ℕ

-- `struct emi_msg`; `payload` is the memory behind `data[]` that belongs to the message.
pub record EmiMsg : Type 0 where
  pub dest_addr : EmiAddr
  pub src_addr : EmiAddr
  pub flag : ℕ
  pub count : ℕ
  pub size : ℕ
  pub cmd : ℕ
  pub msg : ℕ
  pub payload : List ℕ

abbrev pub zero_addr : EmiAddr
zero_addr = record { ip = 0; port = 0; family = 0; pid = 0; id = 0 }

abbrev pub zero_msg : List ℕ → EmiMsg
zero_msg payload = record {
  dest_addr = zero_addr;
  src_addr = zero_addr;
  flag = 0;
  count = 0;
  size = 0;
  cmd = 0;
  msg = 0;
  payload = payload;
}

-- The C library, the kernel and `emi_config`, as far as messages need them.
pub record Host : Type 0 where
  pub inet_addr : List ℕ → ℕ
  pub htons : ℕ → ℕ
  pub getpid : ℕ
  pub emi_port : ℕ
  pub emi_data_size_per_msg : ℕ

-- `-1` as an `in_addr_t`, which `inet_addr` answers for a text that is no address.
abbrev pub inaddr_none : ℕ
inaddr_none = 0xffff_ffff

abbrev pub af_inet : ℕ
af_inet = 2

-- "127.0.0.1"
abbrev pub localhost : List ℕ
localhost = b'1' ∷ b'2' ∷ b'7' ∷ b'.' ∷ b'0' ∷ b'.' ∷ b'0' ∷ b'.' ∷ b'1' ∷ []

-- `memcpy(dst, src, n)`
unfoldable pub memcpy : List ℕ → List ℕ → ℕ → Option (List ℕ)
memcpy dst src n =
    if leb n (length src) && leb n (length dst) then some (take n src ++ drop n dst) else none

-- `emi_fill_addr`
unfoldable pub emi_fill_addr : Host → EmiAddr → List ℕ → ℤ × EmiAddr
emi_fill_addr host addr ip =
    let a = host.inet_addr ip in
    if a == inaddr_none then (minus_one, record addr { ip = a }) else (
      pos 0,
      record addr { ip = a; port = host.htons host.emi_port; family = af_inet; pid = host.getpid },
    )

-- `emi_msg_alloc`; `junk` is what the new memory behind the struct holds.
unfoldable pub emi_msg_alloc : (memory : Bool) (junk : List ℕ) → ℕ → Option EmiMsg
emi_msg_alloc true junk size = some (record (zero_msg junk) { size = size })
emi_msg_alloc false junk size = none

-- The destination of `emi_fill_msg` and `emi_obtain_msg`: filled if it is given.
unfoldable pub fill_dest : Host → Option (List ℕ) → EmiAddr → ℤ × EmiAddr
unfolding emi_fill_addr
fill_dest host none addr = (pos 0, addr)
fill_dest host (some ip) addr = emi_fill_addr host addr ip

-- `memcpy(msg->data, data, msg->size)` if there are data.
unfoldable pub fill_data : Option (List ℕ) → EmiMsg → Option (List ℕ)
unfolding memcpy
fill_data none m = some m.payload
fill_data (some src) m = memcpy m.payload src m.size

-- `if (v) field = v`
abbrev pub or_keep : ℕ → ℕ → ℕ
or_keep v old = if v == 0 then old else v

-- The part of `emi_fill_msg` behind the addresses.
unfoldable pub fill_fields :
    Option (List ℕ) → (cmd defined_msg flag : ℕ) → EmiMsg → Option (ℤ × EmiMsg)
unfolding fill_data
fill_fields src cmd defined_msg flag m = do
  payload ← fill_data src m
  some (
    pos 0,
    record m {
      payload = payload;
      cmd = or_keep cmd m.cmd;
      msg = or_keep defined_msg m.msg;
      flag = bit_or m.flag flag;
    },
  )

-- `emi_fill_msg`
unfoldable pub emi_fill_msg :
    Host
    → EmiMsg
    → (dest_ip src : Option (List ℕ)) → (cmd defined_msg flag : ℕ) → Option (ℤ × EmiMsg)
unfolding emi_fill_addr fill_dest fill_fields
emi_fill_msg host m dest_ip src cmd defined_msg flag =
    let (failed, from) = emi_fill_addr host m.src_addr localhost in
    let (failed_dest, to) = fill_dest host dest_ip m.dest_addr in
    if is_nonzero failed
    then some (minus_one, record m { src_addr = from })
    else (if is_nonzero failed_dest
        then some (negsuc 1, record m { src_addr = from; dest_addr = to })
        else fill_fields src cmd defined_msg flag (record m { src_addr = from; dest_addr = to }))

-- The part of `emi_obtain_msg` behind the addresses.
unfoldable pub obtain_fields : Option (List ℕ) → (cmd defined_msg flag : ℕ) → EmiMsg → Option EmiMsg
unfolding fill_data
obtain_fields src cmd defined_msg flag m = do
  payload ← fill_data src m
  let with_data : ℕ = elim src [ none ↦ m.flag | some s ↦ bit_or m.flag Flag.type_data ]
  let with_cmd : ℕ = if cmd == 0 then with_data else bit_or with_data Flag.type_cmd
  some (record m {
    payload = payload;
    cmd = or_keep cmd m.cmd;
    msg = or_keep defined_msg m.msg;
    flag = bit_or with_cmd flag;
  })

-- `emi_obtain_msg`: a fault, or NULL, or the message.
unfoldable pub emi_obtain_msg :
    Host
    → (memory : Bool) (junk : List ℕ) (dest_ip src : Option (List ℕ))
      (size cmd defined_msg flag : ℕ)
    → Option (Option EmiMsg)
unfolding emi_msg_alloc emi_fill_addr fill_dest obtain_fields
emi_obtain_msg host memory junk dest_ip src size cmd defined_msg flag =
    elim (emi_msg_alloc memory junk size) [
      | none ↦ some none
      | some m ↦
          let (failed, from) = emi_fill_addr host m.src_addr localhost in
          let (failed_dest, to) = fill_dest host dest_ip m.dest_addr in
          if is_nonzero failed || is_nonzero failed_dest
          then some none
          else (obtain_fields src cmd defined_msg flag
                (record m { src_addr = from; dest_addr = to })
              >>= (λ r. some (some r)))
    ]

-- `emi_msg_prepare_return_data`
unfoldable pub prepare_return_data : Host → EmiMsg → List ℕ → ℕ → Option (ℤ × EmiMsg)
unfolding memcpy
prepare_return_data host m src size =
    if ltb host.emi_data_size_per_msg size
    then some (minus_one, m)
    else (memcpy m.payload src size >>= λ payload.
        some (pos 0, record m { size = size; payload = payload }))
