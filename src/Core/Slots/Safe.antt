-- ===== src/Core/Slots/Safe.antt =====
-- What the slots are worth to a message.
use emi.Prelude.{ℕ, ◌+◌, ◌^◌, ◌<◌, ◌≤◌, ◌≡◌, refl, List, [], ◌∷◌, arith}
use emi.Core.Race as Race
use emi.Core.Race.{System, Handler, Move, init, pending, finished}
use emi.Core.Race.Lost.{init-early}
use emi.Core.Slots.{Slots, inside, take, move, give, Reach, here, later, start}

inside_one :
    (p : Race.Phase)
    → inside (record { mem = record { count = 0; cell = 0 }; handlers = []; daemon = p }) ≤ 1
inside_one (Race.signalled left) = omega arith
inside_one (Race.raising left seen) = omega arith
inside_one (Race.waiting left) = omega arith
inside_one (Race.searching left) = omega arith
inside_one Race.draining = omega arith
inside_one Race.finished = omega arith

few_inside : (y : System) → inside y + 0 ≤ 1
few_inside y = omega (arith, inside_one y.daemon)

-- A delivery alone, with the other slots free.
alone : List ℕ → ℕ → System → Slots
alone rest nth x = record { free = rest; busy = (nth, x) ∷ []; past = [] }

deliver-alone :
    (nth left : ℕ) (rest : List ℕ) {x : System}
    → left < 2 ^ 32
    → Race.Reach nth (init left) x
    → Reach (start (nth ∷ rest)) (alone rest nth x)
unfolding alone
deliver-alone nth left rest few Race.here = later here (take nth left rest refl few)
deliver-alone nth left rest few (Race.later {t = x} {u = y} r m) =
    later (deliver-alone nth left rest few r) (move nth [] [] x y refl m (few_inside y))

-- From every pool on there is an order of steps after which the
-- first slot holds another message while a handler of the message before still works on it, where that
-- message had at least two rounds.
pub start-shared :
    (nth n left : ℕ) (rest : List ℕ)
    → n + 2 < 2 ^ 32
    → left < 2 ^ 32
    → (hs : List Handler) × (s : Slots) × Reach (start (nth ∷ rest)) s
      × (s.busy ≡ (nth, init left) ∷ [])
      × (s.past ≡ (nth, hs) ∷ [])
      × (pending hs ≡ 1)
unfolding alone
start-shared nth n left rest few fewer =
    let (x, r, over, one) = init-early nth n in
    let r1 = deliver-alone nth (n + 2) rest few r in
    let r2 = later r1 (give nth [] [] x refl over) in
    let r3 = later r2 (take nth left rest refl fewer) in
    (
      x.handlers,
      record { free = rest; busy = (nth, init left) ∷ []; past = (nth, x.handlers) ∷ [] },
      r3,
      refl,
      refl,
      one,
    )
