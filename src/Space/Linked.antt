-- ===== src/Space/Linked.antt =====
-- The pool with its pointers: `__emi_obtain_space` and `__emi_return_space` (include/shmem.h) over the
-- links of include/list.h. An element is the address of its `list`; `fields` has what stands beside it.
pub mod Find
pub mod Refine
pub mod Runs
pub mod Init
mod Examples
use emi.Prelude.{
  ℕ, zero, suc, ◌+◌, ◌-◌, ◌*◌, ◌%◌, Option, none, some, List, [], ◌∷◌, true, false, ◌==◌,
  if◌then◌else◌, ℤ, pos, minus_one,
}
use emi.ListHead.{Ptr, Links, list_move, list_move_tail}
use emi.Space.{Buf, Space, null, u32_mod, obtain_space, return_space}

pub record Store : Type 0 where
  pub links : Links
  pub fields : Ptr → Buf
  pub num : ℕ

abbrev pub write : Ptr → Buf → (Ptr → Buf) → Ptr → Buf
write p b fields q = if q == p then b else fields q

-- `__emi_obtain_space`. In an empty list `buf` is the head.
unfoldable pub obtain_linked : (base size : ℕ) (head : Ptr) → Store → ℕ × Store
unfolding list_move_tail
obtain_linked base size head s =
    let buf = s.links.next head in
    let fields = s.fields buf in
    let addr = base + (fields.offset * size) % u32_mod in
    if fields.busy then (null, s) else (
      addr,
      record {
        links = list_move_tail buf head s.links;
        fields = write buf (record { busy = true; addr = addr; offset = fields.offset }) s.fields;
        num = (s.num + 1) % u32_mod;
      },
    )

-- The loop of `__emi_return_space` at `lh`: the element with the address, or `some none` when the
-- head is reached; `none` is out of fuel.
unfoldable pub find_linked :
    (addr : ℕ) (head : Ptr) → Store → (fuel : ℕ) → Ptr → Option (Option Ptr)
find_linked addr head s zero lh = none
find_linked addr head s (suc fuel) lh =
    let rest = find_linked addr head s fuel (s.links.prev lh) in
    if lh == head then some none else if (s.fields lh).addr == addr then some (some lh) else rest

-- `__emi_return_space`
unfoldable pub return_linked : (addr : ℕ) (head : Ptr) (fuel : ℕ) → Store → Option (ℤ × Store)
unfolding find_linked list_move
return_linked addr head fuel s = elim (find_linked addr head s fuel (s.links.prev head)) [
  | none ↦ none
  | some none ↦ some (minus_one, s)
  | some (some buf) ↦ some (
    pos 0,
    record {
      links = list_move buf head s.links;
      fields = write buf (record (s.fields buf) { busy = false }) s.fields;
      num = (s.num + u32_mod - 1) % u32_mod;
    },
  )
]

-- The two calls, and what a sequence of them gives, one result after the other: on the pointers, and
-- on the list of the elements.
pub data PoolCall : Type 0 where
  obtain : PoolCall
  give_back : (addr : ℕ) → PoolCall

abbrev pub call_linked :
    (base size : ℕ) (head : Ptr) (fuel : ℕ) → PoolCall → Store → Option (ℤ × Store)
call_linked base size head fuel obtain s =
    let (addr, s') = obtain_linked base size head s in some (pos addr, s')
call_linked base size head fuel (give_back addr) s = return_linked addr head fuel s

abbrev pub call_list : (base size : ℕ) → PoolCall → Space → Option (ℤ × Space)
call_list base size obtain p = elim (obtain_space base size p) [
  | none ↦ none
  | some (addr, p') ↦ some (pos addr, p')
]
call_list base size (give_back addr) p = some (return_space addr p)

module _ {S : Type 0} (call : PoolCall → S → Option (ℤ × S)) where
  abbrev pub run_calls : List PoolCall → S → Option (List ℤ × S)
  run_calls [] s = some ([], s)
  run_calls (c ∷ cs) s = elim (call c s) [
    | none ↦ none
    | some (r, s') ↦ elim (run_calls cs s') [ none ↦ none | some (rs, t) ↦ some (r ∷ rs, t) ]
  ]
