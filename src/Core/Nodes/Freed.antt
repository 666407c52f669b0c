-- ===== src/Core/Nodes/Freed.antt =====
-- A node that is used after it was freed.
use emi.Prelude.{
  ℕ, zero, suc, ◌≡◌, refl, ap, sym, ◌∙◌, true, false, inl, inr, some, List, [], ◌∷◌, get_elem?,
  ◌==◌, Bool-cases, arith,
}
use mathlib.Core.Path.{subst}
use emi.MsgTable.{MsgMap, msg_map, Chain, Found, search_chain, any_same}
use emi.MsgTable.Search.{IsFirstMatch, search_chain-Searches, Searches}
use emi.MsgTable.Registry.{same, Distinct}
use emi.Core.Nodes.{
  Node, maps, has_at, node_at, free_first, Stage, searching, holding, Bucket, find, miss, delete,
  act, enter, Reach, here, later,
}

has_at-get : (c : List Node) (i : ℕ) {n : Node} → get_elem? c i ≡ some n → has_at n.at c ≡ true
has_at-get [] i e = cc e
has_at-get (x ∷ c) zero {n} e =
    let same_node : x ≡ n = cc e in
    rw same_node (let here : (n.at == n.at) ≡ true = ground arith in rw here refl)
has_at-get (x ∷ c) (suc i) {n} e = ground (arith, has_at-get c i {n = n} e)

-- No two nodes at one address.
abbrev pub DistinctAt : List Node → Type 0
DistinctAt [] = Unit {0}
DistinctAt (n ∷ l) = (has_at n.at l ≡ false) × DistinctAt l

get_elem?-maps :
    (c : List Node) (i : ℕ) (x : MsgMap)
    → get_elem? (maps c) i ≡ some x
    → (n : Node) × (get_elem? c i ≡ some n) × (n.map ≡ x)
get_elem?-maps [] i x e = cc e
get_elem?-maps (n ∷ c) zero x e = (n, refl, cc e)
get_elem?-maps (n ∷ c) (suc i) x e = get_elem?-maps c i x e

any_same-get :
    (c : List Node) (i : ℕ) (n : Node) → get_elem? c i ≡ some n → any_same n.map (maps c) ≡ true
unfolding any_same
any_same-get [] i n e = cc e
any_same-get (x ∷ c) zero n e =
    let same_node : x ≡ n = cc e in ground (arith, ap (λ (y : Node). y.map) same_node)
any_same-get (x ∷ c) (suc i) n e = ground (arith, any_same-get c i n e)

any_same-eq :
    (a b : MsgMap) (c : Chain) → same a b ≡ true → any_same b c ≡ true → any_same a c ≡ true
unfolding any_same
any_same-eq a b [] e h = cc h
any_same-eq a b (x ∷ c) e h = ground (arith, any_same-eq a b c e)

apart-get :
    (c : List Node) (i a : ℕ) (n : Node)
    → has_at a c ≡ false
    → get_elem? c i ≡ some n
    → (a == n.at) ≡ false
apart-get c i a n h e = elim (Bool-cases (a == n.at)) [
  | inl hit ↦
      let at : a ≡ n.at = ground arith in
      let there : has_at a c ≡ true = ap (λ (b : ℕ). has_at b c) at ∙ has_at-get c i e in
      cc (h, there)
  | inr other ↦ other
]

node_at-get :
    (c : List Node) (i : ℕ) (n : Node)
    → DistinctAt c
    → get_elem? c i ≡ some n
    → node_at n.at c ≡ some n.map
node_at-get [] i n d e = cc e
node_at-get (x ∷ c) zero n d e =
    let same_node : x ≡ n = cc e in
    let here : (x.at == n.at) ≡ true = ground (arith, ap (λ (y : Node). y.at) same_node) in
    rw here (ap (λ (y : Node). some y.map) same_node)
node_at-get (x ∷ c) (suc i) n (h, d) e = rw (apart-get c i x.at n h e) (node_at-get c i n d e)

-- Deleting the content of a node frees that node, where no content and no address is there twice.
has_at-free_first :
    (c : List Node) (i : ℕ) (n : Node)
    → DistinctAt c
    → Distinct (maps c)
    → get_elem? c i ≡ some n
    → has_at n.at (free_first n.map c) ≡ false
unfolding free_first
has_at-free_first [] i n d m e = cc e
has_at-free_first (x ∷ c) zero n (h, d) (f, m) e =
    let same_node : x ≡ n = cc e in
    let hit : same x.map n.map ≡ true = ground (arith, ap (λ (y : Node). y.map) same_node) in
    rw hit (ap (λ (y : Node). has_at y.at c) (sym same_node) ∙ h)
has_at-free_first (x ∷ c) (suc i) n (h, d) (f, m) e = elim (Bool-cases (same x.map n.map)) [
  | inl hit ↦ cc (f, any_same-eq x.map n.map (maps c) hit (any_same-get c i n e))
  | inr other ↦ rw (other, apart-get c i x.at n h e) (has_at-free_first c i n d m e)
]

-- Threads that stand at these places.
abbrev pub at_work : List Node → List (ℕ × Stage) → Bucket
at_work c phases = record { chain = c; phases = phases }

-- From every bucket in which a message finds a process on there is an order of steps
-- after which a thread holds a node that was freed, and will use it: two threads find the process,
-- which is gone, and one deletes it before the other has read `m->pid`. The nodes have an address each,
-- and no registration is there twice.
pub find-freed :
    (p : ℕ) (c : List Node) (f : Found)
    → DistinctAt c
    → Distinct (maps c)
    → search_chain (maps c) (msg_map p 0) 0 ≡ some f
    → (n : Node) × (t : Bucket) × (rest : List (ℕ × Stage)) × (get_elem? c f.at ≡ some n)
      × Reach (at_work c []) t
      × (t.phases ≡ (p, holding n.at f.num) ∷ rest)
      × (has_at n.at t.chain ≡ false)
find-freed p c f d m hit =
    let first : IsFirstMatch (maps c) (msg_map p 0) 0 f =
      subst (Searches (maps c) (msg_map p 0) 0) hit
        (search_chain-Searches (msg_map p 0) 0 (maps c)) in
    let (n, at, _) = get_elem?-maps c f.at f.node first.stands in
    let there = node_at-get c f.at n d at in
    let one : ℕ × Stage = (p, searching 0) in
    let r1 = later here (enter p) in
    let r2 = later r1 (enter p) in
    let r3 = later r2 (act p (one ∷ []) [] refl (find hit at)) in
    let r4 = later r3 (act p [] ((p, holding n.at f.num) ∷ []) refl (find hit at)) in
    let r5 = later r4 (act p ((p, holding n.at f.num) ∷ []) [] refl (miss there)) in
    let r6 = later r5 (act p ((p, holding n.at f.num) ∷ []) [] refl (delete there)) in
    (
      n,
      at_work (free_first n.map c) ((p, holding n.at f.num) ∷ (p, searching (suc f.num)) ∷ []),
      (p, searching (suc f.num)) ∷ [],
      at,
      r6,
      refl,
      has_at-free_first c f.at n d m at,
    )
