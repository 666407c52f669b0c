-- ===== src/Message/Fill.antt =====
-- What the functions that build messages put into them.
use emi.Prelude.{
  ℕ, ◌≤◌, ◌≡◌, refl, Bool, true, false, not, ◌&&◌, ◌||◌, Option, none, some, List, ◌++◌, ◌==◌, leb,
  if◌then◌else◌, length, take, drop, arith, pos, minus_one, inl, inr, Bool-cases, ltb,
}
use Prim.Native.Nat.{bit_or}
use emi.Prelude.Bits.{has, has-bit_or, has_none}
use emi.Message.{
  EmiAddr, EmiMsg, Host, zero_addr, inaddr_none, localhost, zero_msg, memcpy, emi_fill_addr,
  fill_dest, fill_data, or_keep, fill_fields, emi_fill_msg, emi_msg_alloc, obtain_fields,
  emi_obtain_msg, prepare_return_data,
}
use emi.Message.Flag

-- Is a data pointer given?
abbrev pub given : Option (List ℕ) → Bool
given none = false
given (some s) = true

-- Are the data, if given, as long as the message says, and does it have room for them?
abbrev pub Copies : Option (List ℕ) → ℕ → List ℕ → Type 0
Copies none n room = Unit {0}
Copies (some src) n room = (n ≤ length src) × (n ≤ length room)

-- The payload after the copy.
abbrev pub copied : Option (List ℕ) → ℕ → List ℕ → List ℕ
copied none n room = room
copied (some src) n room = take n src ++ drop n room

memcpy-ok :
    (dst src : List ℕ) (n : ℕ)
    → n ≤ length src
    → n ≤ length dst
    → memcpy dst src n ≡ some (take n src ++ drop n dst)
unfolding memcpy
memcpy-ok dst src n p q =
    let e : leb n (length src) ≡ true = ground arith in
    let f : leb n (length dst) ≡ true = ground arith in rw (e, f) refl

fill_data-copied :
    (src : Option (List ℕ)) (m : EmiMsg)
    → Copies src m.size m.payload
    → fill_data src m ≡ some (copied src m.size m.payload)
unfolding fill_data
fill_data-copied none m c = refl
fill_data-copied (some src) m (p, q) = memcpy-ok m.payload src m.size p q

-- The machine's own address is known, and so is the destination, if one is given.
abbrev pub Resolves : Host → Option (List ℕ) → Type 0
Resolves host none = (host.inet_addr localhost == inaddr_none) ≡ false
Resolves host (some ip) =
    ((host.inet_addr localhost == inaddr_none) ≡ false)
    × ((host.inet_addr ip == inaddr_none) ≡ false)

-- What `emi_obtain_msg` builds. A bit of the flag stands if the caller gave it, or if it says that
-- there are data, or a command.
pub record Obtained (src : Option (List ℕ)) (junk : List ℕ) (size cmd defined_msg flag : ℕ)
    (m : EmiMsg) : Type 0 where
  pub size_kept : m.size ≡ size
  pub payload_copied : m.payload ≡ copied src size junk
  pub cmd_set : m.cmd ≡ cmd
  pub msg_set : m.msg ≡ defined_msg
  pub count_zero : m.count ≡ 0
  pub bits :
      (mask : ℕ)
      → has m.flag mask ≡ (
          (given src && has Flag.type_data mask)
          || (not (cmd == 0) && has Flag.type_cmd mask)
          || has flag mask)

-- An empty message with its addresses, as `emi_obtain_msg` fills it.
obtain_fields-Obtained :
    (src : Option (List ℕ)) (junk : List ℕ) (size cmd defined_msg flag : ℕ) (from to : EmiAddr)
    → Copies src size junk
    → (m : EmiMsg) × (obtain_fields src cmd defined_msg flag
          (record (zero_msg junk) { size = size; src_addr = from; dest_addr = to })
        ≡ some m)
      × Obtained src junk size cmd defined_msg flag m
unfolding obtain_fields fill_data
obtain_fields-Obtained none junk size cmd defined_msg flag from to cop = (
  _,
  refl,
  record {
    size_kept = refl;
    payload_copied = refl;
    cmd_set = ground arith;
    msg_set = ground arith;
    count_zero = refl;
    bits = λ mask. ground (arith, has-bit_or 0 flag mask, has-bit_or 1 flag mask, has_none mask);
  },
)
obtain_fields-Obtained (some src) junk size cmd defined_msg flag from to (p, q) =
    rw (memcpy-ok junk src size p q) (
      _,
      refl,
      record {
        size_kept = refl;
        payload_copied = refl;
        cmd_set = ground arith;
        msg_set = ground arith;
        count_zero = refl;
        bits = λ mask.
            ground (arith, has-bit_or 2 flag mask, has-bit_or 3 flag mask, has-bit_or 2 1 mask);
      },
    )

source-ok :
    (host : Host) (dest_ip : Option (List ℕ)) (addr : EmiAddr)
    → Resolves host dest_ip
    → (emi_fill_addr host addr localhost).0 ≡ pos 0
unfolding emi_fill_addr
source-ok host none addr res = rw res refl
source-ok host (some ip) addr res = rw res.0 refl

dest-ok :
    (host : Host) (dest_ip : Option (List ℕ)) (addr : EmiAddr)
    → Resolves host dest_ip
    → (fill_dest host dest_ip addr).0 ≡ pos 0
unfolding fill_dest
dest-ok host none addr res = refl
dest-ok host (some ip) addr res = rw res.1 refl

-- With memory, with addresses that resolve, and with data as long as the size says, the message
-- has the size, the data, the command and the number asked for. A bit of its flag is set exactly
-- if it is in the flag asked for, or is TYPE_DATA and data are given, or is TYPE_CMD and the
-- command is not 0.
pub emi_obtain_msg-Obtained :
    (host : Host) (junk : List ℕ) (dest_ip src : Option (List ℕ)) (size cmd defined_msg flag : ℕ)
    → Resolves host dest_ip
    → Copies src size junk
    → (m : EmiMsg) × (emi_obtain_msg host true junk dest_ip src size cmd defined_msg flag
        ≡ some (some m))
      × Obtained src junk size cmd defined_msg flag m
unfolding emi_obtain_msg emi_msg_alloc
emi_obtain_msg-Obtained host junk dest_ip src size cmd defined_msg flag res cop =
    let (m, e, o) =
      obtain_fields-Obtained src junk size cmd defined_msg flag
        (emi_fill_addr host zero_addr localhost).1 (fill_dest host dest_ip zero_addr).1 cop in
    (m, rw (source-ok host dest_ip zero_addr res, dest-ok host dest_ip zero_addr res, e) refl, o)

fill_fields-copied :
    (src : Option (List ℕ)) (cmd defined_msg flag : ℕ) (m : EmiMsg)
    → Copies src m.size m.payload
    → fill_fields src cmd defined_msg flag m
      ≡ some (
        pos 0,
        record m {
          payload = copied src m.size m.payload;
          cmd = or_keep cmd m.cmd;
          msg = or_keep defined_msg m.msg;
          flag = bit_or m.flag flag;
        },
      )
unfolding fill_fields
fill_fields-copied src cmd defined_msg flag m cop = rw (fill_data-copied src m cop) refl

-- What `emi_fill_msg` makes of `m`.
pub record Filled (m : EmiMsg) (src : Option (List ℕ)) (cmd defined_msg flag : ℕ) (r : EmiMsg)
    : Type 0 where
  pub size_kept : r.size ≡ m.size
  pub payload_copied : r.payload ≡ copied src m.size m.payload
  pub cmd_set : r.cmd ≡ or_keep cmd m.cmd
  pub msg_set : r.msg ≡ or_keep defined_msg m.msg
  pub bits : (mask : ℕ) → has r.flag mask ≡ (has m.flag mask || has flag mask)

-- `emi_fill_msg` copies the data and sets the command and the number if they are not 0; unlike
-- `emi_obtain_msg` it adds no bit to the flag but those that the caller gives.
pub emi_fill_msg-Filled :
    (host : Host) (m : EmiMsg) (dest_ip src : Option (List ℕ)) (cmd defined_msg flag : ℕ)
    → Resolves host dest_ip
    → Copies src m.size m.payload
    → (r : EmiMsg) × (emi_fill_msg host m dest_ip src cmd defined_msg flag ≡ some (pos 0, r))
      × Filled m src cmd defined_msg flag r
unfolding emi_fill_msg
emi_fill_msg-Filled host m dest_ip src cmd defined_msg flag res cop = (
  record m {
    src_addr = (emi_fill_addr host m.src_addr localhost).1;
    dest_addr = (fill_dest host dest_ip m.dest_addr).1;
    payload = copied src m.size m.payload;
    cmd = or_keep cmd m.cmd;
    msg = or_keep defined_msg m.msg;
    flag = bit_or m.flag flag;
  },
  rw (source-ok host dest_ip m.src_addr res, dest-ok host dest_ip m.dest_addr res)
      (fill_fields-copied src cmd defined_msg flag _ cop),
  record {
    size_kept = refl;
    payload_copied = refl;
    cmd_set = refl;
    msg_set = refl;
    bits = λ mask. has-bit_or m.flag flag mask;
  },
)

-- `emi_msg_prepare_return_data` accepts data up to the configured size: it stores them and their
-- size, and refuses more with -1, leaving the message as it was.
pub prepare_return_data_lem :
    (host : Host) (m : EmiMsg) (src : List ℕ) (size : ℕ)
    → size ≤ length src
    → host.emi_data_size_per_msg ≤ length m.payload
    → prepare_return_data host m src size
      ≡ some (
          if leb size host.emi_data_size_per_msg
          then (pos 0, record m { size = size; payload = take size src ++ drop size m.payload })
          else (minus_one, m))
unfolding prepare_return_data
prepare_return_data_lem host m src size p q =
    elim (Bool-cases (leb size host.emi_data_size_per_msg)) [
      | inl e ↦
          let small : ltb host.emi_data_size_per_msg size ≡ false = ground arith in
          rw (e, small, memcpy-ok m.payload src size p (ground arith)) refl
      | inr e ↦
          let large : ltb host.emi_data_size_per_msg size ≡ true = ground arith in
          rw (e, large) refl
    ]
