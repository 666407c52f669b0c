-- ===== src/Core/Dispatch/Alive.antt =====
-- A delivery to processes that all exist.
use emi.Prelude.{
  ℕ, zero, suc, ◌+◌, ◌^◌, ◌%◌, ◌<◌, ◌≤◌, ◌≡◌, refl, ◌∙◌, sym, ap, Bool, true, false, ◌||◌, some,
  List, [], ◌∷◌, ◌++◌, map, arith, ◌==◌, if◌then◌else◌, is_negative, length, drop, inl, inr,
  Option-cases,
}
use mathlib.Core.Path.{fun_ext}
use mathlib.Core.List.{append-nil, append_assoc}
use emi.MsgTable.{MsgMap, Table, emi_max_msg, hash_key, search_chain}
use emi.MsgTable.Search.{search_chain-lt, hsearch-chain}
use emi.Core.Dispatch.{Delivery, Kill, signal_one, deliver}
use emi.Core.Dispatch.Rounds.{rounds, rounds-none, rounds-some, pid_of, search_chain-next_pid}

-- The cells of the processes in `ps` are zero, and the others as before.
abbrev pub any_eq : ℕ → List ℕ → Bool
any_eq q [] = false
any_eq q (p ∷ ps) = (q == p) || any_eq q ps

abbrev pub cleared : List ℕ → (ℕ → ℕ) → ℕ → ℕ
cleared ps index q = if any_eq q ps then 0 else index q

-- `n` times `count++`, which wraps at 32 bits.
abbrev pub raise_by : (n count : ℕ) → ℕ
raise_by zero count = count
raise_by (suc n) count = raise_by n ((count + 1) % 2 ^ 32)

pub raise_by-add : (n count : ℕ) → count < 2 ^ 32 → raise_by n count ≡ (count + n) % 2 ^ 32
raise_by-add zero count h = omega arith
raise_by-add (suc n) count h =
    let rest = raise_by-add n ((count + 1) % 2 ^ 32) (omega arith) in omega (arith, rest)

-- What a delivery at offset `nth` that signals the processes `ps` in turn leaves behind.
abbrev pub after : ℕ → List ℕ → Delivery → Delivery
after nth ps s = record s {
  index = cleared ps s.index;
  count = raise_by (length ps) s.count;
  sent = s.sent ++ map (λ pid. (pid, nth)) ps;
}

-- No signal fails from round `start` on.
abbrev pub AliveFrom : ℕ → Kill → Type 0
AliveFrom start kill = (num pid : ℕ) → start ≤ num → is_negative (kill num pid) ≡ false

-- Two deliveries over one table are equal by their other parts.
delivery_eq :
    (t : Table) {f g : ℕ → ℕ} {a b : ℕ} {k l : List (ℕ × ℕ)}
    → f ≡ g
    → a ≡ b
    → k ≡ l
    → ◌≡◌ {A = Delivery}
        (record { table = t; index = f; count = a; sent = k })
        (record { table = t; index = g; count = b; sent = l })
delivery_eq t p q r = λ i. record { table = t; index = p i; count = q i; sent = r i }

signal_one-after :
    (kill : Kill) (nth num : ℕ) (m : MsgMap) (s : Delivery)
    → is_negative (kill num m.pid) ≡ false
    → signal_one kill nth num m s ≡ some (after nth (m.pid ∷ []) s)
unfolding signal_one
signal_one-after kill nth num m s alive =
    let self : (m.pid == m.pid) ≡ true = ground arith in
    rw (alive, self) (ap some (delivery_eq s.table (fun_ext λ q. ground arith) refl refl))

after-after :
    (nth p : ℕ) (ps : List ℕ) (s : Delivery)
    → after nth ps (after nth (p ∷ []) s) ≡ after nth (p ∷ ps) s
after-after nth p ps s =
    delivery_eq s.table (fun_ext λ q. ground arith) refl
      (append_assoc s.sent ((p, nth) ∷ []) (map (λ pid. (pid, nth)) ps))

after-nil : (nth : ℕ) (s : Delivery) → after nth [] s ≡ s
after-nil nth s = delivery_eq s.table refl refl (append-nil s.sent)

-- A delivery from round `num` on, with every process there and a number that has a bucket, ends
-- within as many rounds as the bucket has nodes left and one more, and signals exactly the
-- processes of `rounds`, in that order: each finds the offset of the message in its cell, the
-- cells end at zero, the count is raised by the number of signals, and the table is unchanged.
pub deliver-rounds :
    (kill : Kill) (nth fuel : ℕ) (p : MsgMap) (num : ℕ) (s : Delivery)
    → AliveFrom num kill
    → hash_key p.msg < emi_max_msg
    → length (s.table (hash_key p.msg)) < fuel + num
    → 0 < fuel
    → deliver kill nth fuel p num s
      ≡ some (after nth (rounds p.msg (drop num (s.table (hash_key p.msg)))) s)
unfolding deliver
deliver-rounds kill nth zero p num s alive inside enough pos = absurd (omega arith)
deliver-rounds kill nth (suc fuel) p num s alive inside enough pos =
    let c = s.table (hash_key p.msg) in
    let found = search_chain-next_pid p num c in
    rw (hsearch-chain s.table p num inside) (elim (Option-cases (search_chain c p num)) [
      | inl e ↦
          rw (e, rounds-none p.msg (drop num c) (sym found ∙ ap pid_of e))
            (ap some (sym (after-nil nth s)))
      | inr (f, e) ↦
          let (lt, kept) = search_chain-lt p num c f e in
          let next = rounds-some p.msg num c {p = f.node.pid} (sym found ∙ ap pid_of e) in
          rw
            (
              e,
              signal_one-after kill nth f.num f.node s (alive f.num f.node.pid (omega arith)),
              kept,
              next,
            )
            (deliver-rounds kill nth fuel p (suc num) (after nth (f.node.pid ∷ []) s)
                (λ n q h. alive n q (omega arith)) inside (omega arith) (omega arith)
              ∙ ap some (after-after nth f.node.pid _ s))
    ])
