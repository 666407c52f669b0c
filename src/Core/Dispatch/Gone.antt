-- ===== src/Core/Dispatch/Gone.antt =====
-- A delivery that meets a process that is gone.
use emi.Prelude.{
  ℕ, zero, suc, ◌+◌, ◌<◌, ◌≡◌, refl, ◌∙◌, ap, true, some, ◌∷◌, ◌++◌, map, arith, ◌==◌, is_negative,
  length, drop,
}
use emi.MsgTable.{MsgMap, msg_map, Chain, emi_max_msg, emi_hash, search_chain, hsearch}
use emi.MsgTable.Registry.{put, hdelete_head}
use emi.MsgTable.Search.{hsearch-chain}
use emi.Core.Dispatch.{Delivery, Kill, set_cell, signal_one, deliver}
use emi.Core.Dispatch.Rounds.{rounds}
use emi.Core.Dispatch.Alive.{after, AliveFrom, deliver-rounds}

-- What is left when the process of the first node is gone: its registration is deleted and its
-- cell is zero.
abbrev pub without_first : ℕ → MsgMap → Chain → Delivery → Delivery
without_first nth m c s = record s {
  table = put s.table (emi_hash m) c;
  index = set_cell (set_cell s.index m.pid nth) m.pid 0;
}

module _ (kill : Kill) (nth k dead : ℕ) (c : Chain) (s : Delivery)
    (gone : is_negative (kill 0 dead) ≡ true) (inside : emi_hash (msg_map k dead) < emi_max_msg)
    (chain : s.table (emi_hash (msg_map k dead)) ≡ msg_map k dead ∷ c) where
  signal_one-gone :
      signal_one kill nth 0 (msg_map k dead) s ≡ some (without_first nth (msg_map k dead) c s)
  unfolding signal_one
  signal_one-gone = rw (gone, hdelete_head s.table (msg_map k dead) c inside chain) refl

  first_found :
      hsearch s.table (msg_map k 0) 0
      ≡ some (some (record { num = 0; at = 0; node = msg_map k dead }))
  unfolding search_chain emi_hash
  first_found =
      let self : (k == k) ≡ true = ground arith in
      rw (hsearch-chain s.table (msg_map k 0) 0 inside, chain, self) refl

  left_chain : put s.table (emi_hash (msg_map k dead)) c (emi_hash (msg_map k dead)) ≡ c
  left_chain =
      let i = emi_hash (msg_map k dead) in let self : (i == i) ≡ true = ground arith in rw self refl

  first_round :
      (fuel : ℕ)
      → deliver kill nth (suc fuel) (msg_map k 0) 0 s
        ≡ deliver kill nth fuel (msg_map k 0) 1 (without_first nth (msg_map k dead) c s)
  unfolding deliver
  first_round fuel = rw (first_found, signal_one-gone) refl

-- If the process of the first node is gone, the next search still skips one node, in a chain that
-- has lost its head: the node behind the dead one stays registered and gets no signal, though its
-- process is there.
pub deliver-skips :
    (kill : Kill) (nth fuel : ℕ) (k dead live : ℕ) (c : Chain) (s : Delivery)
    → is_negative (kill 0 dead) ≡ true
    → AliveFrom 1 kill
    → emi_hash (msg_map k dead) < emi_max_msg
    → length c + 2 < fuel
    → s.table (emi_hash (msg_map k dead)) ≡ msg_map k dead ∷ msg_map k live ∷ c
    → (s' : Delivery) × (deliver kill nth fuel (msg_map k 0) 0 s ≡ some s')
      × (s'.sent ≡ s.sent ++ map (λ pid. (pid, nth)) (rounds k c))
      × (s'.table (emi_hash (msg_map k dead)) ≡ msg_map k live ∷ c)
unfolding emi_hash
deliver-skips kill nth zero k dead live c s gone alive inside enough chain = absurd (omega arith)
deliver-skips kill nth (suc fuel) k dead live c s gone alive inside enough chain =
    let left = left_chain kill nth k dead (msg_map k live ∷ c) s gone inside chain in
    let s1 = without_first nth (msg_map k dead) (msg_map k live ∷ c) s in
    (
      after nth (rounds k c) s1,
      first_round kill nth k dead (msg_map k live ∷ c) s gone inside chain fuel
          ∙ deliver-rounds kill nth fuel (msg_map k 0) 1 s1 alive inside
              (omega (arith, ap length left)) (omega arith)
          ∙ ap (λ d. some (after nth (rounds k (drop 1 d)) s1)) left,
      refl,
      left,
    )
