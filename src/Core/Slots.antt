-- ===== src/Core/Slots.antt =====
-- Any number of messages at once (emi_core.c, `emi_recieve_operation`): each thread takes a slot of the
-- pool, delivers as in Core/Race, and gives the slot back. A slot is its offset; the first free one is
-- taken, and one that is given back is the first. The section that `critical_shmem_lock` protects, from
-- the write of an index cell until it is clear, has one thread at a time, as Core/Cell asks for: a step that would bring in a second one is none.
pub mod Safe
mod Examples
use emi.Prelude.{
  ℕ, suc, ◌+◌, ◌^◌, ◌<◌, ◌≤◌, ◌≡◌, refl, sym, ap, ◌∙◌, Bool, true, false, List, [], ◌∷◌, ◌++◌, ◌==◌,
  if◌then◌else◌, arith,
}
use emi.Core.Race.{
  System, Handler, Move, init, pending, finished, searching, signalled, raising, waiting, draining,
}

-- The free offsets, the messages in work with theirs, and what is left of the handlers of each message
-- whose slot was given back.
pub record Slots : Type 0 where
  pub free : List ℕ
  pub busy : List (ℕ × System)
  pub past : List (ℕ × List Handler)

-- Is the thread in the section that `critical_shmem_lock` protects?
abbrev pub inside : System → ℕ
inside s = elim s.daemon [ signalled left ↦ 1 | raising left seen ↦ 1 | waiting left ↦ 1 | _ ↦ 0 ]

abbrev pub all_inside : List (ℕ × System) → ℕ
all_inside [] = 0
all_inside ((nth, x) ∷ l) = inside x + all_inside l

pub data Advance (s : Slots) : Slots → Type 0 where
  -- A message comes in, for which the loop will have `left` rounds.
  take :
      (nth left : ℕ) (rest : List ℕ)
      → s.free ≡ nth ∷ rest
      → left < 2 ^ 32
      → Advance s (record s { free = rest; busy = (nth, init left) ∷ s.busy })
  move :
      (nth : ℕ) (before behind : List (ℕ × System)) (x y : System)
      → s.busy ≡ before ++ (nth, x) ∷ behind
      → Move nth x y
      → inside y + all_inside (before ++ behind) ≤ 1
      → Advance s (record s { busy = before ++ (nth, y) ∷ behind })
  give :
      (nth : ℕ) (before behind : List (ℕ × System)) (x : System)
      → s.busy ≡ before ++ (nth, x) ∷ behind
      → x.daemon ≡ finished
      → Advance s (record {
        free = nth ∷ s.free;
        busy = before ++ behind;
        past = (nth, x.handlers) ∷ s.past;
      })

pub data Reach (s : Slots) : Slots → Type 0 where
  here : Reach s s
  later : {t u : Slots} → Reach s t → Advance t u → Reach s u

abbrev pub start : List ℕ → Slots
start pool = record { free = pool; busy = []; past = [] }
