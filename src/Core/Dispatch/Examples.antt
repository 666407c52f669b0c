-- ===== src/Core/Dispatch/Examples.antt =====
-- Tests of the delivery loop, and its theorems at concrete tables.
use emi.Prelude.{ℕ, ◌≡◌, refl, some, List, [], ◌∷◌, arith, ◌==◌, if◌then◌else◌, pos, minus_one}
use mathlib.Core.Option
use emi.MsgTable.{msg_map, Table, emi_hash, hsearch}
use emi.MsgTable.Registry.{registered}
use emi.MsgTable.Examples.{mixed_table}
use emi.Core.Dispatch.{Delivery, Kill, deliver}
use emi.Core.Dispatch.Rounds.{rounds}
use emi.Core.Dispatch.Alive.{any_eq, after}
use emi.Core.Dispatch.Receivers.{deliver-registered, deliver-repeats}
use emi.Core.Dispatch.Gone.{deliver-skips}

abbrev all_there : Kill
all_there num pid = pos 0

abbrev start : Table → Delivery
start table = record { table = table; index = λ q. 0; count = 0; sent = [] }

-- Process 7 gets the signal for number 1 twice, because of the node in front of it.
sent_twice :
    Option.map (λ s. s.sent) (deliver all_there 4 4 (msg_map 1 0) 0 (start mixed_table))
    ≡ some ((7, 4) ∷ (7, 4) ∷ (8, 4) ∷ [])
unfolding deliver hsearch
sent_twice = refl

deliver-registered_example :
    (ps : List ℕ) × (deliver all_there 5 4 (msg_map 1 0) 0 (start mixed_table)
      ≡ some (after 5 ps (start mixed_table)))
    × ((q : ℕ) → any_eq q ps ≡ registered mixed_table (msg_map 1 q))
unfolding emi_hash
deliver-registered_example =
    deliver-registered all_there 5 4 (msg_map 1 0) (start mixed_table) (λ n q h. refl) (omega arith)
      (omega arith)

-- Two processes alone in the bucket of their number.
abbrev plain_table : Table
plain_table i = if i == 2 then msg_map 2 7 ∷ msg_map 2 8 ∷ [] else []

abbrev crowded_table : Table
crowded_table i = if i == 2 then msg_map 0x1002 7 ∷ msg_map 0x2002 6 ∷ msg_map 2 8 ∷ [] else []

deliver-repeats_example :
    deliver all_there 5 4 (msg_map 2 0) 0 (start crowded_table)
    ≡ some (after 5 (8 ∷ 8 ∷ 8 ∷ []) (start crowded_table))
unfolding emi_hash
deliver-repeats_example =
    deliver-repeats all_there 5 4 (msg_map 2 0) (start crowded_table)
      (msg_map 0x1002 7 ∷ msg_map 0x2002 6 ∷ []) 8 (λ n q h. refl) (omega arith) (omega arith) refl
      (refl, (refl, tt))

abbrev first_gone : Kill
first_gone num pid = if num == 0 then minus_one else pos 0

deliver-skips_example :
    (s' : Delivery) × (deliver first_gone 5 5 (msg_map 2 0) 0 (start plain_table) ≡ some s')
    × (s'.sent ≡ [])
    × (s'.table 2 ≡ msg_map 2 8 ∷ [])
unfolding emi_hash rounds
deliver-skips_example =
    deliver-skips first_gone 5 5 2 7 8 [] (start plain_table) refl (λ n q h. ground arith)
      (omega arith) (omega arith) refl
