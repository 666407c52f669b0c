-- ===== src/Core/Nodes.antt =====
-- Several threads of the daemon on one bucket of the table (emi_core.c, `emi_recieve_operation`): a
-- thread takes `msg_map_lock` for `__emi_hsearch`, and uses the node that it found, `m`, behind
-- `emi_unlock`: for `m->pid`, and as the argument of `emi_hdelete`, which frees it. A node has the
-- address that `malloc` gave.
pub mod Freed
mod Examples
use emi.Prelude.{
  ℕ, zero, suc, ◌≡◌, Bool, true, false, ◌||◌, Option, some, none, List, [], ◌∷◌, ◌++◌, map,
  get_elem?, ◌==◌, if◌then◌else◌,
}
use emi.MsgTable.{MsgMap, msg_map, Chain, Found, search_chain, any_same}
use emi.MsgTable.Registry.{same}

pub record Node : Type 0 where
  pub at : ℕ
  pub map : MsgMap

abbrev pub maps : List Node → Chain
maps [] = []
maps (n ∷ l) = n.map ∷ maps l

-- Is the memory at `a` a node of the chain?
abbrev pub has_at : ℕ → List Node → Bool
has_at a [] = false
has_at a (n ∷ l) = n.at == a || has_at a l

-- What a pointer leads to; `none` is memory that was freed.
abbrev pub node_at : ℕ → List Node → Option MsgMap
node_at a [] = none
node_at a (n ∷ l) = if n.at == a then some n.map else node_at a l

-- `emi_hdelete` with the content of `m`: the first node of the same content is freed.
unfoldable pub free_first : MsgMap → List Node → List Node
free_first m [] = []
free_first m (n ∷ l) = if same n.map m then l else n ∷ free_first m l

-- Where a thread stands in its loop.
pub data Stage : Type 0 where
  searching : (num : ℕ) → Stage  -- before `emi_lock(&msg_map_lock)`
  holding : (m num : ℕ) → Stage  -- behind `emi_unlock`, with the address of a node
  failed : (m num : ℕ) → Stage  -- behind a `kill` that failed
  ended : Stage

-- The threads, each with the number of its message, and the bucket.
pub record Bucket : Type 0 where
  pub chain : List Node
  pub phases : List (ℕ × Stage)

-- What a thread does with a bucket. Nothing is said of a thread that uses freed memory: it has no step.
pub data Doing (c : List Node) (p : ℕ) : Stage → List Node → Stage → Type 0 where
  find :
      {num : ℕ} {f : Found} {n : Node}
      → search_chain (maps c) (msg_map p 0) num ≡ some f
      → get_elem? c f.at ≡ some n
      → Doing c p (searching num) c (holding n.at f.num)
  stop :
      {num : ℕ} → search_chain (maps c) (msg_map p 0) num ≡ none → Doing c p (searching num) c ended
  -- `kill(m->pid,SIGUSR2)`
  reach :
      {m num : ℕ} {n : MsgMap}
      → node_at m c ≡ some n
      → Doing c p (holding m num) c (searching (suc num))
  miss :
      {m num : ℕ} {n : MsgMap} → node_at m c ≡ some n → Doing c p (holding m num) c (failed m num)
  delete :
      {m num : ℕ} {n : MsgMap}
      → node_at m c ≡ some n
      → Doing c p (failed m num) (free_first n c) (searching (suc num))

pub data Progress (s : Bucket) : Bucket → Type 0 where
  act :
      (p : ℕ) (before behind : List (ℕ × Stage)) {t u : Stage} {c : List Node}
      → s.phases ≡ before ++ (p, t) ∷ behind
      → Doing s.chain p t c u
      → Progress s (record { chain = c; phases = before ++ (p, u) ∷ behind })
  -- Another thread handles a registration: `emi_hinsert`, with memory that is no node yet.
  insert :
      (n : Node)
      → has_at n.at s.chain ≡ false
      → any_same n.map (maps s.chain) ≡ false
      → Progress s (record s { chain = n ∷ s.chain })
  -- A message comes in.
  enter : (p : ℕ) → Progress s (record s { phases = (p, searching 0) ∷ s.phases })

pub data Reach (s : Bucket) : Bucket → Type 0 where
  here : Reach s s
  later : {t u : Bucket} → Reach s t → Progress t u → Reach s u
