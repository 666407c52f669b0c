-- ===== src/Space/Linked/Examples.antt =====
-- A pool of two elements, at 2 and 3, whose head is at 1.
use emi.Prelude.{ℕ, ◌+◌, ◌≡◌, refl, true, false, Option, some, List, [], ◌∷◌, ℤ, pos, arith}
use emi.ListHead.{Ptr, Links}
use emi.Space.{Buf, Space, null, emi_init_space, obtain_space, return_space}
use emi.Space.Linked.{Store, PoolCall, obtain, give_back, call_linked, call_list, run_calls}
use emi.Space.Linked.Refine.{Spells}
use emi.Space.Linked.Init.{init_linked, gives, AreNew, empty_pool, init_linked-run_calls}

abbrev malloc : ℕ → Option Ptr
malloc i = some (i + 1)

abbrev blank : Links
blank = record { next = λ a. 0; prev = λ a. 0 }

abbrev junk : Ptr → Buf
junk a = record { busy = true; addr = a; offset = a }

malloc-AreNew : AreNew malloc 1 1 2 []
malloc-AreNew = ((omega arith, tt), ((omega arith, (omega arith, tt)), tt))

-- Slots of 10 bytes, the first at 20.
abbrev two_free : List Buf
two_free =
    record { busy = false; addr = null; offset = 20 }
    ∷ record { busy = false; addr = null; offset = 30 }
    ∷ []

made : emi_init_space (λ k. gives (malloc k)) 2 10 10 ≡ some (pos 0, two_free)
unfolding emi_init_space
made = refl

-- Both are taken, then there is none; the second is given back and taken again.
abbrev calls : List PoolCall
calls = obtain ∷ obtain ∷ obtain ∷ give_back 130 ∷ obtain ∷ []

abbrev results : List ℤ
results = pos 120 ∷ pos 130 ∷ pos 0 ∷ pos 0 ∷ pos 130 ∷ []

abbrev both_taken : Space
both_taken = record {
  bufs =
      record { busy = true; addr = 120; offset = 20 }
      ∷ record { busy = true; addr = 130; offset = 30 }
      ∷ [];
  num = 2;
}

on_the_list :
    run_calls (call_list 100 1) calls (record { bufs = two_free; num = 0 })
    ≡ some (results, both_taken)
unfolding obtain_space return_space
on_the_list = refl

init_linked-run_calls_example :
    (made left : Store) × (init_linked malloc 10 10 1 1 2 (empty_pool 1 blank junk)
      ≡ some (pos 0, made))
    × (run_calls (call_linked 100 1 1 3) calls made ≡ some (results, left))
    × Spells 1 left both_taken
init_linked-run_calls_example =
    init_linked-run_calls malloc 2 10 10 100 1 1 3 blank junk two_free calls results both_taken
      malloc-AreNew made (omega arith) on_the_list
