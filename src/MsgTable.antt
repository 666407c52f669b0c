-- ===== src/MsgTable.antt =====
-- include/msg_table.h: the hash table that maps a message number to the processes registered for
-- it. A chain of `struct msg_map` nodes is the list of its nodes, `next` being the rest of the list
-- and NULL its end; a pointer to a node is its position in the chain. `same_next` is written by
-- `emi_hsearch` alone, which returns the writes as a list. `none` stands for an access outside the
-- array `msg_table[EMI_MAX_MSG]` or through NULL.
pub mod Examples
pub mod Search
pub mod Registry
pub mod Bounds
pub mod History
use Prim.Native.Nat.{bit_and}
use emi.Prelude.{
  ℕ, zero, suc, Bool, true, false, not, ◌&&◌, Option, none, some, List, [], ◌∷◌, ltb, ◌==◌,
  if◌then◌else◌, ℤ, pos, minus_one, is_nonzero,
}

-- `struct msg_map`. A `pid_t` is its 32-bit pattern.
pub record MsgMap : Type 0 where
  pub msg : ℕ
  pub pid : ℕ

abbrev pub msg_map : ℕ → ℕ → MsgMap
msg_map m p = record { msg = m; pid = p }

abbrev pub Chain : Type 0
Chain = List MsgMap

abbrev pub emi_hash_mask : ℕ
emi_hash_mask = 0x0000FFF

abbrev pub emi_max_msg : ℕ
emi_max_msg = emi_hash_mask

-- The bucket heads, `msg_table[EMI_MAX_MSG]`; what stands at an index outside is never read.
abbrev pub Table : Type 0
Table = ℕ → Chain

-- `*(table+i)`
unfoldable pub load_chain : Table → ℕ → Option Chain
load_chain table i = if ltb i emi_max_msg then some (table i) else none

-- `*(table+i) = c`
unfoldable pub store_chain : Table → ℕ → Chain → Option Table
store_chain table i c =
    if ltb i emi_max_msg then some (λ j. if j == i then c else table j) else none

-- Fills the node that `map` points to, if it is not NULL.
unfoldable pub msg_map_fill : Option MsgMap → ℕ → ℕ → ℤ × Option MsgMap
msg_map_fill (some map) msg pid = (pos 0, some (msg_map msg pid))
msg_map_fill none msg pid = (minus_one, none)

-- Two NULL pointers pass the guard and are dereferenced: `none`.
unfoldable pub msg_map_same : Option MsgMap → Option MsgMap → Option ℤ
msg_map_same none (some b) = some minus_one
msg_map_same (some a) none = some minus_one
msg_map_same (some a) (some b) =
    some (if (a.msg == b.msg) && (a.pid == b.pid) then pos 0 else minus_one)
msg_map_same none none = none

unfoldable pub msg_map_cmp : Option MsgMap → Option MsgMap → Option ℤ
msg_map_cmp none (some b) = some minus_one
msg_map_cmp (some a) none = some minus_one
msg_map_cmp (some a) (some b) = some (if a.msg == b.msg then pos 0 else minus_one)
msg_map_cmp none none = none

-- `!r` for the result of a comparison that did not fault.
unfoldable pub is_hit : Option ℤ → Bool
is_hit none = false
is_hit (some r) = not (is_nonzero r)

-- `__emi_hash`
unfoldable pub hash_key : ℕ → ℕ
hash_key k = bit_and k emi_hash_mask

unfoldable pub emi_hash : MsgMap → ℕ
unfolding hash_key
emi_hash map = hash_key map.msg

-- What `__emi_hsearch` returns: the value it leaves in `*num`, and the node with its position.
pub record Found : Type 0 where
  pub num : ℕ
  pub at : ℕ
  pub node : MsgMap

-- The first loop of `__emi_hsearch`: `i` and `tmp` after at most `num` steps.
unfoldable pub skip : ℕ → Chain → ℕ × Chain
skip zero c = (0, c)
skip (suc n) [] = (0, [])
skip (suc n) (x ∷ c) = let (i, tmp) = skip n c in (suc i, tmp)

-- The second loop, from the node at position `at`; it leaves `i` alone.
unfoldable pub match_from : MsgMap → ℕ → ℕ → Chain → Option Found
unfolding msg_map_cmp is_hit
match_from map i at [] = none
match_from map i at (tmp ∷ c) =
    if is_hit (msg_map_cmp (some tmp) (some map))
    then some (record { num = i; at = at; node = tmp })
    else match_from map i (suc at) c

unfoldable pub search_chain : Chain → MsgMap → ℕ → Option Found
unfolding skip match_from
search_chain c map num = let (i, tmp) = skip num c in match_from map i i tmp

infixl 5 ◌>>=◌
abbrev pub ◌>>=◌ {ℓ κ} : {A : Type ℓ} {B : Type κ} → Option A → (A → Option B) → Option B
none >>= f = none
some a >>= f = f a

-- `__emi_hsearch`. The result is a fault, or NULL, or a node.
unfoldable pub hsearch : Table → MsgMap → ℕ → Option (Option Found)
unfolding load_chain hash_key search_chain
hsearch table map num = do c ← load_chain table (hash_key map.msg); some (search_chain c map num)

-- The loop of `emi_hsearch` from `i`, with `tmp` at position `last`: the `same_next` writes, as
-- pairs of positions. It ends at the first search that fails. `none` is out of fuel.
unfoldable pub link_same : ℕ → Chain → MsgMap → ℕ → ℕ → Option (List (ℕ × ℕ))
unfolding search_chain
link_same zero c map i last = none
link_same (suc fuel) c map i last = elim (search_chain c map i) [
  | none ↦ some []
  | some f ↦ link_same fuel c map (suc f.num) f.at >>= (λ links. some ((last, f.at) ∷ links))
]

-- `emi_hsearch`: every path returns NULL; the list holds the `same_next` writes.
unfoldable pub emi_hsearch : ℕ → Table → MsgMap → Option (Option MsgMap × List (ℕ × ℕ))
unfolding hsearch link_same
emi_hsearch fuel table map = do
  c ← load_chain table (hash_key map.msg)
  start ← hsearch table map 0
  elim start [
    | none ↦ some (none, [])
    | some f ↦ link_same fuel c map (suc f.num) f.at >>= (λ links. some (none, links))
  ]

-- `__emi_hinsert`; `memory` says whether `malloc` succeeds.
unfoldable pub hinsert_front : Bool → Table → MsgMap → Option (ℤ × Table)
unfolding load_chain store_chain emi_hash
hinsert_front false table map = some (minus_one, table)
hinsert_front true table map = do
  next ← load_chain table (emi_hash map)
  table' ← store_chain table (emi_hash map) (msg_map map.msg map.pid ∷ next)
  some (pos 0, table')

-- The loop of `emi_hinsert`: is the pair of number and process there already?
unfoldable pub any_same : MsgMap → Chain → Bool
unfolding msg_map_same is_hit
any_same map [] = false
any_same map (tmp ∷ c) =
    if is_hit (msg_map_same (some tmp) (some map)) then true else any_same map c

-- `emi_hinsert`: 1 if it is there, -1 without memory, and else 0.
unfoldable pub emi_hinsert : Bool → Table → MsgMap → Option (ℤ × Table)
unfolding hinsert_front any_same
emi_hinsert memory table map = do
  c ← load_chain table (emi_hash map)
  if any_same map c then some (pos 1, table) else hinsert_front memory table map

-- The loop of `emi_hdelete`, whose first `tmp` is the node that the list starts with.
unfoldable pub delete_after : MsgMap → Chain → ℤ × Chain
unfolding msg_map_same is_hit
delete_after map [] = (minus_one, [])
delete_after map (tmp ∷ []) = (minus_one, tmp ∷ [])
delete_after map (tmp ∷ deleted ∷ c) =
    let rest = delete_after map (deleted ∷ c) in
    if is_hit (msg_map_same (some deleted) (some map))
    then (pos 0, tmp ∷ c)
    else (rest.0, tmp ∷ rest.1)

unfoldable pub delete_chain : MsgMap → Chain → ℤ × Chain
unfolding delete_after
delete_chain map [] = delete_after map []
delete_chain map (deleted ∷ c) =
    if is_hit (msg_map_same (some deleted) (some map))
    then (pos 0, c)
    else delete_after map (deleted ∷ c)

unfoldable pub emi_hdelete : Table → MsgMap → Option (ℤ × Table)
unfolding load_chain store_chain emi_hash delete_chain
emi_hdelete table map = do
  c ← load_chain table (emi_hash map)
  let (r, c') = delete_chain map c
  table' ← store_chain table (emi_hash map) c'
  some (r, table')
