-- ===== src/Debug/Rows.antt =====
-- What `debug_msg_table` and `debug_msg_full_table` (emi_dbg.c) show of the table.
use emi.Prelude.{
  ℕ, zero, suc, ◌+◌, ◌≤◌, ◌<◌, ◌≡◌, refl, ap, sym, ◌∙◌, Bool, true, false, ◌||◌, ◌&&◌, Option, some,
  List, [], ◌∷◌, ◌++◌, arith, ltb, ◌==◌, lt→ltb, Bool-cases, inl, inr, leb, ==_iff,
}
use emi.MsgTable.{
  MsgMap, msg_map, Chain, Table, emi_hash_mask, emi_max_msg, load_chain, emi_hash, any_same,
  hash_key,
}
use emi.MsgTable.Registry.{registered, IsWellFormed, Placed, Distinct, same}
use emi.Debug.{
  Line, single_map, row, newline, debug_single_map, chain_lines, table_loop, full_loop,
  debug_msg_table, debug_msg_full_table, printing_full_table, printing_table,
}

-- The registrations that the lines show, from the first to the last.
abbrev pub shown : List Line → Chain
shown [] = []
shown (single_map m p ∷ l) = msg_map m p ∷ shown l
shown (line ∷ l) = shown l

-- The chains of the rows from `i` on, one behind the other.
pub nodes_from : (left i : ℕ) → Table → Chain
nodes_from zero i table = []
nodes_from (suc left) i table = table i ++ nodes_from left (suc i) table

shown-append : (l k : List Line) → shown (l ++ k) ≡ shown l ++ shown k
shown-append [] k = refl
shown-append (single_map m p ∷ l) k = ap (λ r. msg_map m p ∷ r) (shown-append l k)
shown-append (_ ∷ l) k = shown-append l k

shown-chain : (j : ℕ) (c : Chain) → shown (chain_lines j c) ≡ c
unfolding chain_lines debug_single_map
shown-chain j [] = refl
shown-chain j (x ∷ c) = ap (λ r. x ∷ r) (shown-chain (suc j) c)

shown-row :
    (i : ℕ) (c : Chain) (rest : List Line)
    → shown (row i ∷ (chain_lines 0 c ++ newline ∷ rest)) ≡ c ++ shown rest
shown-row i c rest =
    shown-append (chain_lines 0 c) (newline ∷ rest) ∙ ap (λ r. r ++ shown rest) (shown-chain 0 c)

load-ok : (table : Table) (i : ℕ) → i < emi_max_msg → load_chain table i ≡ some (table i)
unfolding load_chain
load-ok table i h = rw (lt→ltb _ _ h) refl

-- Inside the array the loops end, and show the nodes of their rows.
abbrev Loops : Option (List Line) → Chain → Type 0
Loops r c = (l : List Line) × (r ≡ some l) × (shown l ≡ c)

table_loop-Loops :
    (left i : ℕ) (table : Table)
    → i + left ≤ emi_max_msg
    → Loops (table_loop left i table) (nodes_from left i table)
unfolding table_loop nodes_from
table_loop-Loops zero i table h = ([], refl, refl)
table_loop-Loops (suc left) i table h =
    let (l, run, e) = table_loop-Loops left (suc i) table (omega arith) in
    (
      row i ∷ (chain_lines 0 (table i) ++ newline ∷ l),
      rw (load-ok table i (omega arith), run) refl,
      shown-row i (table i) l ∙ ap (λ r. table i ++ r) e,
    )

full_row : (i : ℕ) (c : Chain) (rest : List Line) → List Line
full_row i [] rest = rest
full_row i (x ∷ c) rest = row i ∷ (chain_lines 0 (x ∷ c) ++ newline ∷ rest)

shown-full_row :
    (i : ℕ) (c : Chain) (rest : List Line) → shown (full_row i c rest) ≡ c ++ shown rest
unfolding full_row
shown-full_row i [] rest = refl
shown-full_row i (x ∷ c) rest = shown-row i (x ∷ c) rest

full_loop-suc :
    (left i : ℕ) (table : Table) (l : List Line)
    → i < emi_max_msg
    → full_loop left (suc i) table ≡ some l
    → full_loop (suc left) i table ≡ some (full_row i (table i) l)
unfolding full_loop full_row
full_loop-suc left i table l h run = rw (load-ok table i h, run) (split (table i))
  where
    split :
        (c : Chain)
        → some (elim c [ [] ↦ l | x ∷ k ↦ row i ∷ (chain_lines 0 (x ∷ k) ++ newline ∷ l) ])
          ≡ some (full_row i c l)
    split [] = refl
    split (x ∷ k) = refl

full_loop-Loops :
    (left i : ℕ) (table : Table)
    → i + left ≤ emi_max_msg
    → Loops (full_loop left i table) (nodes_from left i table)
unfolding nodes_from
full_loop-Loops zero i table h = ([], unfold full_loop in refl, refl)
full_loop-Loops (suc left) i table h =
    let (l, run, e) = full_loop-Loops left (suc i) table (omega arith) in
    (
      full_row i (table i) l,
      full_loop-suc left i table l (omega arith) run,
      shown-full_row i (table i) l ∙ ap (λ r. table i ++ r) e,
    )

any_same-append : (m : MsgMap) (c d : Chain) → any_same m (c ++ d) ≡ (any_same m c || any_same m d)
unfolding any_same
any_same-append m [] d = refl
any_same-append m (x ∷ c) d = ground (arith, any_same-append m c d)

same-hash : (x m : MsgMap) → same x m ≡ true → emi_hash x ≡ emi_hash m
unfolding emi_hash
same-hash x m e = let number : x.msg ≡ m.msg = ground arith in ap hash_key number

-- A chain in another bucket does not have the registration.
any_same-elsewhere :
    (i : ℕ) (m : MsgMap) (c : Chain) → Placed i c → (emi_hash m == i) ≡ false → any_same m c ≡ false
unfolding any_same
any_same-elsewhere i m [] p h = refl
any_same-elsewhere i m (x ∷ c) (e, p) h = elim (Bool-cases (same x m)) [
  | inl hit ↦ absurd (ground (arith, same-hash x m hit))
  | inr miss ↦ rw miss (any_same-elsewhere i m c p h)
]

-- The bucket of a registration tells whether it is there.
any_same-row :
    (table : Table)
    → IsWellFormed table
    → (i : ℕ) (m : MsgMap) → i < emi_max_msg
    → any_same m (table i) ≡ ((emi_hash m == i) && registered table m)
any_same-row table w i m h = elim (Bool-cases (emi_hash m == i)) [
  | inl hit ↦
      let here : i ≡ emi_hash m = sym ((==_iff _ _).0 hit) in
      rw hit (unfold registered in ap (λ j. any_same m (table j)) here)
  | inr miss ↦ rw miss (any_same-elsewhere i m (table i) (w.placed i h) miss)
]

-- Is `k` one of the `left` numbers from `i` on?
abbrev between : ℕ → ℕ → ℕ → Bool
between left i k = leb i k && ltb k (i + left)

any_same-nodes :
    (table : Table)
    → IsWellFormed table
    → (left i : ℕ) (m : MsgMap) → i + left ≤ emi_max_msg
    → any_same m (nodes_from left i table) ≡ (between left i (emi_hash m) && registered table m)
unfolding nodes_from
any_same-nodes table w zero i m h =
    let never : between zero i (emi_hash m) ≡ false = ground arith in
    rw never (unfold any_same in refl)
any_same-nodes table w (suc left) i m h =
    let row = any_same-row table w i m (omega arith) in
    let rest = any_same-nodes table w left (suc i) m (omega arith) in
    let split = any_same-append m (table i) (nodes_from left (suc i) table) in
    ground (arith, row, rest, split)

-- No registration of `c` is in `d`.
abbrev Apart : Chain → Chain → Type 0
Apart [] d = Unit {0}
Apart (x ∷ c) d = (any_same x d ≡ false) × Apart c d

Distinct-append : (c d : Chain) → Distinct c → Distinct d → Apart c d → Distinct (c ++ d)
Distinct-append [] d h k a = k
Distinct-append (x ∷ c) d (e, h) k (f, a) =
    (rw (any_same-append x c d, e, f) refl, Distinct-append c d h k a)

Apart-nodes :
    (table : Table)
    → IsWellFormed table
    → (left i : ℕ) → suc i + left ≤ emi_max_msg
    → (c : Chain) → Placed i c
    → Apart c (nodes_from left (suc i) table)
Apart-nodes table w left i h [] p = tt
Apart-nodes table w left i h (x ∷ c) (e, p) =
    let before : between left (suc i) (emi_hash x) ≡ false = ground arith in
    (any_same-nodes table w left (suc i) x h ∙ rw before refl, Apart-nodes table w left i h c p)

Distinct-nodes :
    (table : Table)
    → IsWellFormed table
    → (left i : ℕ) → i + left ≤ emi_max_msg
    → Distinct (nodes_from left i table)
unfolding nodes_from
Distinct-nodes table w zero i h = tt
Distinct-nodes table w (suc left) i h =
    Distinct-append (table i) (nodes_from left (suc i) table) (w.distinct i (omega arith))
      (Distinct-nodes table w left (suc i) (omega arith))
      (Apart-nodes table w left i (omega arith) (table i) (w.placed i (omega arith)))

-- The lines show each registration of the table once, and no others that have a bucket.
pub record Shows (table : Table) (lines : List Line) : Type 0 where
  pub members :
      (m : MsgMap) → emi_hash m < emi_max_msg → any_same m (shown lines) ≡ registered table m
  pub once : Distinct (shown lines)

all_rows : (table : Table) → Chain
all_rows table = nodes_from emi_hash_mask 0 table

Shows-rows :
    (table : Table) (lines : List Line)
    → IsWellFormed table
    → shown lines ≡ all_rows table
    → Shows table lines
unfolding all_rows
Shows-rows table lines w e = record {
  members = λ m h.
      let inside : between emi_hash_mask 0 (emi_hash m) ≡ true = ground arith in
      ap (any_same m) e ∙ any_same-nodes table w emi_hash_mask 0 m (omega arith) ∙ rw inside refl;
  once = rw e (Distinct-nodes table w emi_hash_mask 0 (omega arith));
}

-- On a well-formed table `debug_msg_table` and `debug_msg_full_table` stay inside the array and show
-- the same nodes in the same order: of the registrations whose numbers have a bucket, each one that
-- is there once, and no other.
pub debug_msg_full_table-Shows :
    (table : Table)
    → IsWellFormed table
    → (a b : List Line) × (debug_msg_table table ≡ some a)
      × (debug_msg_full_table table ≡ some b)
      × (shown a ≡ shown b)
      × Shows table b
unfolding debug_msg_table debug_msg_full_table all_rows
debug_msg_full_table-Shows table w =
    let (a, run_a, e) = table_loop-Loops emi_hash_mask 0 table (omega arith) in
    let (b, run_b, f) = full_loop-Loops emi_hash_mask 0 table (omega arith) in
    (
      printing_table ∷ a,
      printing_full_table ∷ b,
      rw run_a refl,
      rw run_b refl,
      e ∙ sym f,
      Shows-rows table (printing_full_table ∷ b) w f,
    )
