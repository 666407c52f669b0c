-- ===== src/Core/Dispatch.antt =====
-- The delivery loop of `emi_recieve_operation` (emi_core.c): one round for each node that
-- `__emi_hsearch` finds, in a table that no other thread changes meanwhile. `kill` stands for the
-- system call, round by round; a process that gets the signal runs `func_sterotype`, which clears
-- its index cell, so the loop that waits for the cell to be zero ends.
pub mod Rounds
pub mod Alive
mod Examples
pub mod Gone
pub mod Receivers
use emi.Prelude.{
  ℕ, zero, suc, ◌+◌, ◌%◌, ◌^◌, Bool, true, false, Option, none, some, List, [], ◌∷◌, ◌++◌, ◌==◌,
  if◌then◌else◌, ℤ, is_negative,
}
use emi.MsgTable.{MsgMap, Table, Found, hsearch, emi_hdelete, ◌>>=◌}

-- What the loop changes: the table, the index cells of the processes, `msg_pos->count`, and the
-- signals that were sent, in order, with the offset that the process found in its cell.
pub record Delivery : Type 0 where
  pub table : Table
  pub index : ℕ → ℕ
  pub count : ℕ
  pub sent : List (ℕ × ℕ)

-- The results of `kill(pid, SIGUSR2)` by round.
abbrev pub Kill : Type 0
Kill = ℕ → ℕ → ℤ

abbrev pub set_cell : (ℕ → ℕ) → ℕ → ℕ → ℕ → ℕ
set_cell index pid n q = if q == pid then n else index q

-- One round for the node `m`: write the cell, signal, and wait; a process that is gone has its
-- cell cleared and its registration deleted.
unfoldable pub signal_one : Kill → ℕ → ℕ → MsgMap → Delivery → Option Delivery
signal_one kill nth num m s =
    let cell = set_cell s.index m.pid nth in
    if is_negative (kill num m.pid)
    then (emi_hdelete s.table m >>= λ r.
        some (record s { table = r.1; index = set_cell cell m.pid 0 }))
    else some (record s {
      index = set_cell cell m.pid 0;
      count = (s.count + 1) % 2 ^ 32;
      sent = s.sent ++ (m.pid, cell m.pid) ∷ [];
    })

-- `for(num=0;;num+=1)`. `none` is a fault, or the end of the fuel.
unfoldable pub deliver : Kill → ℕ → ℕ → MsgMap → ℕ → Delivery → Option Delivery
unfolding signal_one
deliver kill nth zero p num s = none
deliver kill nth (suc fuel) p num s = do
  m ← hsearch s.table p num
  elim m [
    | none ↦ some s
    | some f ↦ signal_one kill nth f.num f.node s >>= deliver kill nth fuel p (suc f.num)
  ]
