-- ===== src/Socket.antt =====
-- emi_sock.c over the system calls. What the kernel answers is an `Os`, call by call: each answer
-- may depend on how many calls went before. The world counts the calls and keeps the descriptors
-- that are open, the newest first, and what was written, the oldest first.
pub mod Connect
pub mod Server
mod Examples
use Prim.Native.Nat.{bit_xor}
use emi.Prelude.{
  ℕ, zero, suc, ◌+◌, ◌*◌, ◌%◌, ◌^◌, Bool, true, false, Option, none, some, List, [], ◌∷◌, ◌++◌, leb,
  ltb, take, ◌==◌, if◌then◌else◌, ℤ, pos, negsuc, minus_one, is_negative,
}
use emi.Message.{EmiAddr, EmiMsg, af_inet}

pub data Event : Type 0 where
  connected : EmiAddr → Event
  refused : EmiAddr → Event
  wrote_msg : EmiMsg → Event
  cut_msg : (bytes : ℕ) → EmiMsg → Event  -- only the first bytes of a message
  wrote_data : List ℕ → Event

pub record World : Type 0 where
  pub time : ℕ
  pub fds : List ℤ
  pub log : List Event

-- `malloc`, `socket`, `connect`, `write` and `read`. The two kinds of `read` give the buffer that
-- they leave, for a `struct emi_msg` and for data.
pub record Os : Type 0 where
  pub malloc : ℕ → Bool
  pub socket : ℕ → ℤ
  pub connect : ℕ → EmiAddr → ℤ
  pub write : ℕ → ℕ → ℤ
  pub read_msg : ℕ → EmiMsg → ℤ × EmiMsg
  pub read_data : ℕ → ℕ → List ℕ → ℤ × List ℕ

-- `struct sk_dpr`
pub record SkDpr : Type 0 where
  pub d : ℤ
  pub af : ℕ

abbrev pub same_fd : ℤ → ℤ → Bool
same_fd (pos a) (pos b) = a == b
same_fd (negsuc a) (negsuc b) = a == b
same_fd _ _ = false

abbrev pub remove_fd : ℤ → List ℤ → List ℤ
remove_fd d [] = []
remove_fd d (e ∷ l) = if same_fd e d then l else e ∷ remove_fd d l

abbrev pub tick : World → World
tick w = record w { time = w.time + 1 }

-- `sd->d > 0`
abbrev pub is_positive : ℤ → Bool
is_positive (pos n) = ltb 0 n
is_positive (negsuc n) = false

-- `emi_open` of an address family other than AF_UNSPEC.
unfoldable pub emi_open : Os → ℕ → World → Option SkDpr × World
emi_open os addr_family w =
    let d = os.socket w.time in
    if os.malloc w.time
    then (if is_negative d
        then (none, tick w)
        else (some (record { d = d; af = addr_family }), record (tick w) { fds = d ∷ w.fds }))
    else (none, tick w)

-- `emi_close`
unfoldable pub emi_close : Option SkDpr → World → World
emi_close none w = w
emi_close (some sd) w =
    if is_positive sd.d then record (tick w) { fds = remove_fd sd.d w.fds } else w

-- `2^retry` is an exclusive or in C.
abbrev pub last_try : ℕ → ℕ
last_try retry = bit_xor 2 retry

-- The loop of `emi_connect` at `i`; `none` is out of fuel. `i<<=1` wraps at 32 bits.
unfoldable pub connect_loop : Os → ℕ → ℕ → EmiAddr → ℕ → World → Option (ℤ × World)
connect_loop os zero i dest_addr retry w = none
connect_loop os (suc fuel) i dest_addr retry w = elim (leb i (last_try retry)) [
  | false ↦ some (minus_one, w)
  | true ↦ elim (os.connect w.time dest_addr) [
    | pos zero ↦ some (pos 0, record (tick w) { log = w.log ++ connected dest_addr ∷ [] })
    | _ ↦
        connect_loop os fuel ((i * 2) % 2 ^ 32) dest_addr retry
          (record (tick w) { log = w.log ++ refused dest_addr ∷ [] })
  ]
]

unfoldable pub emi_connect : Os → ℕ → SkDpr → EmiAddr → ℕ → World → Option (ℤ × World)
unfolding connect_loop
emi_connect os fuel sd dest_addr retry w =
    if sd.af == af_inet then connect_loop os fuel 1 dest_addr retry w else some (minus_one, w)

-- What a `write` of `size` bytes that answers `r` sends: of a `struct emi_msg`, and of data.
abbrev pub msg_events : (r : ℤ) (size : ℕ) → EmiMsg → List Event
msg_events (pos n) size m = (if ltb n size then cut_msg n m else wrote_msg m) ∷ []
msg_events (negsuc n) size m = []

abbrev pub data_events : (r : ℤ) (size : ℕ) → List ℕ → List Event
data_events (pos n) size bytes = wrote_data (take (if ltb n size then n else size) bytes) ∷ []
data_events (negsuc n) size bytes = []

-- `emi_write` of a `struct emi_msg`, and of data.
unfoldable pub write_msg : Os → ℕ → EmiMsg → World → ℤ × World
write_msg os size m w =
    let r = os.write w.time size in (r, record (tick w) { log = w.log ++ msg_events r size m })

unfoldable pub write_data : Os → ℕ → List ℕ → World → ℤ × World
write_data os size bytes w =
    let r = os.write w.time size in (r, record (tick w) { log = w.log ++ data_events r size bytes })

-- `emi_read`
unfoldable pub read_msg : Os → EmiMsg → World → (ℤ × EmiMsg) × World
read_msg os m w = (os.read_msg w.time m, tick w)

unfoldable pub read_data : Os → ℕ → List ℕ → World → (ℤ × List ℕ) × World
read_data os size bytes w = (os.read_data w.time size bytes, tick w)
