-- ===== src/Core/Dispatch/Receivers.antt =====
-- Who receives a message: everybody registered, and sometimes more than once or not at all.
use emi.Prelude.{
  ℕ, suc, ◌+◌, ◌<◌, ◌≡◌, refl, ◌∙◌, ap, true, false, none, some, List, [], ◌∷◌, ◌++◌, map, arith,
  ◌==◌, length, length-append, replicate,
}
use emi.MsgTable.{MsgMap, msg_map, Chain, emi_max_msg, hash_key, emi_hash, any_same}
use emi.MsgTable.Registry.{registered}
use emi.Core.Dispatch.{Delivery, Kill, deliver}
use emi.Core.Dispatch.Rounds.{next_pid, rounds}
use emi.Core.Dispatch.Alive.{any_eq, after, AliveFrom, deliver-rounds}

next_pid-any_same :
    (k q : ℕ) (c : Chain)
    → (next_pid k c ≡ none → any_same (msg_map k q) c ≡ false)
      × (next_pid k c ≡ some q → any_same (msg_map k q) c ≡ true)
unfolding next_pid any_same
next_pid-any_same k q [] = (λ e. refl, λ e. cc)
next_pid-any_same k q (x ∷ c) =
    let ih = next_pid-any_same k q c in (ground (arith, ih), ground (arith, ih))

any_eq-rounds : (k q : ℕ) (c : Chain) → any_eq q (rounds k c) ≡ any_same (msg_map k q) c
unfolding rounds next_pid any_same
any_eq-rounds k q [] = refl
any_eq-rounds k q (x ∷ c) = ground (arith, any_eq-rounds k q c, next_pid-any_same k q c)

-- With every process there, a number that has a bucket, and more fuel than the bucket has nodes,
-- a message is delivered to exactly the processes that are registered for its number: every one
-- of them gets at least one signal, and nobody else does.
pub deliver-registered :
    (kill : Kill) (nth fuel : ℕ) (p : MsgMap) (s : Delivery)
    → AliveFrom 0 kill
    → emi_hash p < emi_max_msg
    → length (s.table (emi_hash p)) < fuel
    → (ps : List ℕ) × (deliver kill nth fuel p 0 s ≡ some (after nth ps s))
      × ((q : ℕ) → any_eq q ps ≡ registered s.table (msg_map p.msg q))
unfolding emi_hash registered
deliver-registered kill nth fuel p s alive inside enough =
    let c = s.table (hash_key p.msg) in
    (
      rounds p.msg c,
      deliver-rounds kill nth fuel p 0 s alive inside (omega arith) (omega arith),
      λ q. any_eq-rounds p.msg q c,
    )

-- Every node of the chain has the number `k`.
abbrev pub AllNumber : ℕ → Chain → Type 0
AllNumber k [] = Unit {0}
AllNumber k (x ∷ c) = (x.msg ≡ k) × AllNumber k c

-- No node of the chain has the number `k`.
abbrev pub NoneNumber : ℕ → Chain → Type 0
NoneNumber k [] = Unit {0}
NoneNumber k (x ∷ c) = ((x.msg == k) ≡ false) × NoneNumber k c

rounds-AllNumber : (k : ℕ) (c : Chain) → AllNumber k c → rounds k c ≡ map (λ x. x.pid) c
unfolding rounds next_pid
rounds-AllNumber k [] all = refl
rounds-AllNumber k (x ∷ c) all = ground (arith, rounds-AllNumber k c all.1)

next_pid-NoneNumber :
    (k : ℕ) (c : Chain) (x : MsgMap)
    → NoneNumber k c
    → x.msg ≡ k
    → next_pid k (c ++ x ∷ []) ≡ some x.pid
unfolding next_pid
next_pid-NoneNumber k [] x others e = ground arith
next_pid-NoneNumber k (y ∷ c) x others e = rw others.0 (next_pid-NoneNumber k c x others.1 e)

rounds-NoneNumber :
    (k : ℕ) (c : Chain) (x : MsgMap)
    → NoneNumber k c
    → x.msg ≡ k
    → rounds k (c ++ x ∷ []) ≡ replicate (suc (length c)) x.pid
unfolding rounds next_pid
rounds-NoneNumber k [] x others e = ground arith
rounds-NoneNumber k (y ∷ c) x others e =
    ground (arith, rounds-NoneNumber k c x others.1 e, next_pid-NoneNumber k c x others.1 e)

-- When every node of the bucket has the message's number, each registration gets one signal, in
-- the order of the chain.
pub deliver-once :
    (kill : Kill) (nth fuel : ℕ) (p : MsgMap) (s : Delivery)
    → AliveFrom 0 kill
    → emi_hash p < emi_max_msg
    → length (s.table (emi_hash p)) < fuel
    → AllNumber p.msg (s.table (emi_hash p))
    → deliver kill nth fuel p 0 s ≡ some (after nth (map (λ x. x.pid) (s.table (emi_hash p))) s)
unfolding emi_hash
deliver-once kill nth fuel p s alive inside enough all =
    deliver-rounds kill nth fuel p 0 s alive inside (omega arith) (omega arith)
    ∙ ap (λ ps. some (after nth ps s)) (rounds-AllNumber p.msg (s.table (hash_key p.msg)) all)

-- With every process there, a number that has a bucket and enough fuel, a registration behind
-- nodes of other numbers, alone for its number and last in its bucket, gets the same message once
-- more for each of them.
pub deliver-repeats :
    (kill : Kill) (nth fuel : ℕ) (p : MsgMap) (s : Delivery) (others : Chain) (pid : ℕ)
    → AliveFrom 0 kill
    → emi_hash p < emi_max_msg
    → length others + 1 < fuel
    → s.table (emi_hash p) ≡ others ++ msg_map p.msg pid ∷ []
    → NoneNumber p.msg others
    → deliver kill nth fuel p 0 s ≡ some (after nth (replicate (suc (length others)) pid) s)
unfolding emi_hash
deliver-repeats kill nth fuel p s others pid alive inside enough chain foreign =
    deliver-rounds kill nth fuel p 0 s alive inside
      (omega (arith, ap length chain, length-append others (msg_map p.msg pid ∷ []))) (omega arith)
    ∙ ap (λ c. some (after nth (rounds p.msg c) s)) chain
    ∙ ap (λ ps. some (after nth ps s))
        (rounds-NoneNumber p.msg others (msg_map p.msg pid) foreign refl)
