-- ===== src/Client/Handler.antt =====
-- `func_sterotype` (emi_if.c), the handler of SIGUSR2: it takes the message at the offset that the
-- process finds in its index cell through the functions registered for its number. A function of
-- the user is an address; what it answers and leaves in the message is an argument.
pub mod Order
use Prim.Native.Nat.{bit_and, bit_or}
use emi.Prelude.{
  ℕ, ◌+◌, ◌-◌, ◌%◌, ◌^◌, Bool, true, false, List, [], ◌∷◌, ◌==◌, if◌then◌else◌, ℤ, is_nonzero,
}
use emi.Prelude.Bits.{has}
use emi.Message.{EmiMsg}
use emi.Message.Flag
use emi.Client.{FuncList}

-- What the functions do to a message.
abbrev pub Run : Type 0
Run = ℕ → EmiMsg → ℤ × EmiMsg

-- `shmsg->flag&=~EMI_MSG_CMD_SUCCEEDED`, or `|=`, by the answer of a function.
unfoldable pub judge : ℤ × EmiMsg → EmiMsg
judge (ret, m) = record m {
  flag =
      if is_nonzero ret
      then bit_and m.flag (0xffff_ffff - Flag.cmd_succeeded)
      else bit_or m.flag Flag.cmd_succeeded;
}

-- The loop over `__func_list`; `exclusive_msg` is the build with EXCLUSIVE_MSG.
unfoldable pub handle : (exclusive_msg : Bool) → Run → List FuncList → EmiMsg → EmiMsg
unfolding judge
handle exclusive_msg run [] shmsg = shmsg
handle exclusive_msg run (fl ∷ l) shmsg = elim (fl.msg == shmsg.msg) [
  | false ↦ handle exclusive_msg run l shmsg
  | true ↦ elim (has shmsg.flag Flag.flag_block_return) [
    | true ↦ judge (run fl.func shmsg)
    | false ↦ elim exclusive_msg [
      | true ↦ (run fl.func shmsg).1
      | false ↦ handle exclusive_msg run l (run fl.func shmsg).1
    ]
  ]
]

-- The index cells and the messages in shared memory, by offset.
pub record Shared : Type 0 where
  pub index : ℕ → ℕ
  pub slot : ℕ → EmiMsg

-- The handler of process `pid`: `count--` wraps at 32 bits.
unfoldable pub func_sterotype : (exclusive_msg : Bool) → Run → List FuncList → ℕ → Shared → Shared
unfolding handle
func_sterotype exclusive_msg run funcs pid s =
    let nth = s.index pid in
    let shmsg = handle exclusive_msg run funcs (s.slot nth) in
    let left = record shmsg { count = (shmsg.count + (2 ^ 32 - 1)) % 2 ^ 32 } in
    record {
      index = λ q. if q == pid then 0 else s.index q;
      slot = λ a. if a == nth then left else s.slot a;
    }
