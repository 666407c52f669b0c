-- ===== src/Bus.antt =====
-- The daemon and the processes together: the handlers, `func_sterotype` (emi_if.c), of the processes
-- that `emi_recieve_operation` (emi_core.c) signals, run on shared memory one after the other, as what
-- it waits for, and what it writes back is what `emi_msg_send` reads.
pub mod Handlers
pub mod Delivery
pub mod Answer
pub mod Registration
mod Examples
use emi.Prelude.{
  ℕ, ◌+◌, ◌-◌, ◌%◌, ◌^◌, Option, none, some, Bool, List, [], ◌∷◌, ◌==◌, if◌then◌else◌,
}
use emi.Message.{EmiMsg}
use emi.Client.{FuncList}
use emi.Client.Handler.{Run, Shared, handle, func_sterotype}

-- The processes by pid: the build, what their functions do, and `__func_list`.
pub record Processes : Type 0 where
  pub exclusive_msg : Bool
  pub run : ℕ → Run
  pub funcs : ℕ → List FuncList

-- The work on a message of the processes that got a signal, in order.
abbrev pub work_of : Processes → List (ℕ × ℕ) → EmiMsg → EmiMsg
work_of p [] m = m
work_of p ((pid, nth) ∷ sent) m =
    work_of p sent (handle p.exclusive_msg (p.run pid) (p.funcs pid) m)

-- What the handlers of the processes that got a signal leave of a message, one after the other: each
-- takes its one off the count.
abbrev pub left_by : Processes → List (ℕ × ℕ) → EmiMsg → EmiMsg
left_by p [] m = m
left_by p ((pid, nth) ∷ sent) m =
    let shmsg = handle p.exclusive_msg (p.run pid) (p.funcs pid) m in
    left_by p sent (record shmsg { count = (shmsg.count + (2 ^ 32 - 1)) % 2 ^ 32 })

-- What the daemon finds if it looks at the count when all of them are done.
abbrev pub wait_of : Processes → List (ℕ × ℕ) → EmiMsg → Option EmiMsg
wait_of p sent m = let left = left_by p sent m in if left.count == 0 then some left else none

-- The daemon writes the cell, and the handler runs.
abbrev pub put_cell : ℕ → ℕ → Shared → Shared
put_cell pid nth s = record s { index = λ q. if q == pid then nth else s.index q }

-- The handlers of the processes that got a signal, in order.
unfoldable pub run_handlers : Processes → List (ℕ × ℕ) → Shared → Shared
unfolding func_sterotype
run_handlers p [] s = s
run_handlers p ((pid, nth) ∷ sent) s =
    run_handlers p sent
      (func_sterotype p.exclusive_msg (p.run pid) (p.funcs pid) pid (put_cell pid nth s))
