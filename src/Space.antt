-- ===== src/Space.antt =====
-- emi_shmem.c and include/shmem.h: the slots of shared memory that hold messages. The list of
-- `struct emi_transfer_buf` that hangs on `__msg_list` is the list of its elements from
-- `head->next` on; `list_add_tail`, `list_move` and `list_move_tail` are what ListHead proves of
-- them. Addresses are numbers, NULL is 0, and `none` stands for a read of memory that is freed or
-- that is no element of the list.
pub mod Bounds
pub mod Init
pub mod Linked
pub mod Pool
pub mod Misuse
pub mod Race
pub mod Consecutive
mod Examples
use emi.Prelude.{
  ℕ, zero, suc, ◌+◌, ◌-◌, ◌*◌, ◌/◌, ◌%◌, ◌^◌, Bool, true, false, Option, none, some, List, [], ◌∷◌,
  ◌++◌, ◌==◌, if◌then◌else◌, ℤ, pos, minus_one,
}

-- `struct emi_transfer_buf`, without the links and the field `size`, which nothing reads.
pub record Buf : Type 0 where
  pub busy : Bool
  pub addr : ℕ
  pub offset : ℕ

-- The list and the counter `__num_busy_msg`.
pub record Space : Type 0 where
  pub bufs : List Buf
  pub num : ℕ

abbrev pub null : ℕ
null = 0

abbrev pub u32_mod : ℕ
u32_mod = 2 ^ 32

-- The loop of `emi_init_space` at `i`, with `rounds` rounds to go. `memory i` says whether the
-- `malloc` of round `i` succeeds. On failure the list is walked and freed; the walk reads the link
-- of each element after it was freed.
unfoldable pub init_loop :
    (memory : ℕ → Bool) (bias_base size : ℕ) → ℕ → ℕ → List Buf → Option (ℤ × List Buf)
init_loop memory bias_base size i zero bufs = some (pos 0, bufs)
init_loop memory bias_base size i (suc rounds) bufs = elim (memory i) [
  | true ↦
      init_loop memory bias_base size (suc i) rounds (
        bufs
        ++ record { busy = false; addr = null; offset = (bias_base + i * size) % u32_mod } ∷ [])
  | false ↦ elim bufs [ [] ↦ some (minus_one, []) | b ∷ rest ↦ none ]
]

-- `emi_init_space`
unfoldable pub emi_init_space : (memory : ℕ → Bool) → ℕ → ℕ → ℕ → Option (ℤ × List Buf)
unfolding init_loop
emi_init_space memory num bias_base size = init_loop memory bias_base size 1 num []

-- `__emi_obtain_space`: the address, or NULL if the first slot is busy. In an empty list the head
-- is taken for an element.
unfoldable pub obtain_space : (base size : ℕ) → Space → Option (ℕ × Space)
obtain_space base size s = elim s.bufs [
  | [] ↦ none
  | buf ∷ rest ↦
      if buf.busy
      then some (null, s)
      else (let addr = base + (buf.offset * size) % u32_mod in
          some (
            addr,
            record {
              bufs = rest ++ record { busy = true; addr = addr; offset = buf.offset } ∷ [];
              num = (s.num + 1) % u32_mod;
            },
          ))
]

-- The last element with the address, and the other elements: `list_for_each_tail` looks from the
-- end of the list.
unfoldable pub find_from_tail : ℕ → List Buf → Option (Buf × List Buf)
find_from_tail addr [] = none
find_from_tail addr (buf ∷ rest) = elim (find_from_tail addr rest) [
  | some (found, others) ↦ some (found, buf ∷ others)
  | none ↦ if buf.addr == addr then some (buf, rest) else none
]

-- `__emi_return_space`
unfoldable pub return_space : ℕ → Space → ℤ × Space
unfolding find_from_tail
return_space addr s = elim (find_from_tail addr s.bufs) [
  | none ↦ (minus_one, s)
  | some (buf, others) ↦ (
    pos 0,
    record { bufs = record buf { busy = false } ∷ others; num = (s.num + u32_mod - 1) % u32_mod },
  )
]

-- `__obtain_space_num`, for an address above the base.
unfoldable pub obtain_space_num : (base addr size : ℕ) → ℕ
obtain_space_num base addr size = (addr - base) / size
