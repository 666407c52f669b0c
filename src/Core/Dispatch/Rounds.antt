-- ===== src/Core/Dispatch/Rounds.antt =====
-- Which processes a delivery signals.
use emi.Prelude.{
  ℕ, zero, suc, ◌<◌, ◌≡◌, refl, Option, none, some, List, [], ◌∷◌, arith, ◌==◌, if◌then◌else◌,
  length, drop, inl, inr, Bool-cases,
}
use emi.MsgTable.{MsgMap, Chain, Found, match_from, search_chain}
use emi.MsgTable.Search.{skip-drop}

-- The process of the first node with number `k`.
unfoldable pub next_pid : ℕ → Chain → Option ℕ
next_pid k [] = none
next_pid k (x ∷ c) = if x.msg == k then some x.pid else next_pid k c

-- One signal for each node that still has a node with number `k` at or behind it.
unfoldable pub rounds : ℕ → Chain → List ℕ
unfolding next_pid
rounds k [] = []
rounds k (x ∷ c) = elim (next_pid k (x ∷ c)) [ none ↦ [] | some p ↦ p ∷ rounds k c ]

pub rounds-none : (k : ℕ) (c : Chain) → next_pid k c ≡ none → rounds k c ≡ []
unfolding rounds
rounds-none k [] e = refl
rounds-none k (x ∷ c) e = ground arith

pub rounds-some :
    (k n : ℕ) (c : Chain) {p : ℕ}
    → next_pid k (drop n c) ≡ some p
    → rounds k (drop n c) ≡ p ∷ rounds k (drop (suc n) c)
unfolding rounds
rounds-some k zero [] e = cc
rounds-some k zero (x ∷ c) e = ground arith
rounds-some k (suc n) [] e = cc
rounds-some k (suc n) (x ∷ c) e = rounds-some k n c e

drop-length {ℓ} : {A : Type ℓ} (n : ℕ) (c : List A) → length c < n → drop n c ≡ []
drop-length zero c h = absurd (omega arith)
drop-length (suc n) [] h = refl
drop-length (suc n) (x ∷ c) h = drop-length n c (omega arith)

abbrev pub pid_of : Option Found → Option ℕ
pid_of none = none
pid_of (some f) = some f.node.pid

match_from-next_pid :
    (map : MsgMap) (i at : ℕ) (c : Chain) → pid_of (match_from map i at c) ≡ next_pid map.msg c
unfolding match_from next_pid
match_from-next_pid map i at [] = refl
match_from-next_pid map i at (x ∷ c) = elim (Bool-cases (x.msg == map.msg)) [
  | inl hit ↦ rw hit refl
  | inr miss ↦ rw miss (match_from-next_pid map i (suc at) c)
]

pub search_chain-next_pid :
    (map : MsgMap) (n : ℕ) (c : Chain) → pid_of (search_chain c map n) ≡ next_pid map.msg (drop n c)
unfolding search_chain match_from next_pid
search_chain-next_pid map n c = elim (skip-drop n c) [
  | inl e ↦ rw e (match_from-next_pid map n n (drop n c))
  | inr (short, e) ↦ rw (e, drop-length n c short) refl
]
