-- ===== src/MsgTable/Examples.antt =====
-- Tests of the table, and its theorems at concrete tables.
use emi.Prelude.{
  ◌≡◌, refl, true, some, [], ◌∷◌, arith, ◌==◌, Bool-cases, inl, inr, if◌then◌else◌, ℤ, pos,
  minus_one,
}
use emi.MsgTable.{
  msg_map, Chain, Table, emi_hash, search_chain, any_same, emi_hinsert, emi_hdelete, delete_chain,
}
use emi.MsgTable.Registry.{IsWellFormed, Inserts, Deletes, emi_hinsert-Inserts, emi_hdelete-Deletes}
use emi.MsgTable.Bounds.{AllFault, last_bucket-AllFault}

-- Bucket 1 holds process 9 for number 0x1001 and processes 7 and 8 for number 1.
abbrev pub mixed_chain : Chain
mixed_chain = msg_map 0x1001 9 ∷ msg_map 1 7 ∷ msg_map 1 8 ∷ []

abbrev pub mixed_table : Table
mixed_table i = if i == 1 then mixed_chain else []

found_behind :
    search_chain mixed_chain (msg_map 1 0) 0 ≡ some (record { num = 0; at = 1; node = msg_map 1 7 })
unfolding search_chain
found_behind = refl

-- The second search is told to skip one node, and finds the same one again.
found_again :
    search_chain mixed_chain (msg_map 1 0) 1 ≡ some (record { num = 1; at = 1; node = msg_map 1 7 })
unfolding search_chain
found_again = refl

deleted_middle :
    delete_chain (msg_map 1 7) mixed_chain ≡ (pos 0, msg_map 0x1001 9 ∷ msg_map 1 8 ∷ [])
unfolding delete_chain
deleted_middle = refl

deleted_absent : delete_chain (msg_map 1 6) mixed_chain ≡ (minus_one, mixed_chain)
unfolding delete_chain
deleted_absent = refl

pub mixed-IsWellFormed : IsWellFormed mixed_table
unfolding any_same emi_hash
mixed-IsWellFormed = record {
  distinct = λ i lt. elim (Bool-cases (i == 1)) [
    | inl e ↦ rw e (refl, (refl, (refl, tt)))
    | inr e ↦ rw e tt
  ];
  placed = λ i lt. elim (Bool-cases (i == 1)) [ inl e ↦ rw e (ground arith) | inr e ↦ rw e tt ];
}

emi_hinsert-Inserts_example :
    (r : ℤ × Table) × (emi_hinsert true mixed_table (msg_map 1 5) ≡ some r)
    × Inserts mixed_table (msg_map 1 5) r
unfolding emi_hash
emi_hinsert-Inserts_example =
    emi_hinsert-Inserts mixed_table (msg_map 1 5) mixed-IsWellFormed (omega arith)

emi_hdelete-Deletes_example :
    (r : ℤ × Table) × (emi_hdelete mixed_table (msg_map 1 7) ≡ some r)
    × Deletes mixed_table (msg_map 1 7) r
unfolding emi_hash
emi_hdelete-Deletes_example =
    emi_hdelete-Deletes mixed_table (msg_map 1 7) mixed-IsWellFormed (omega arith)

last_bucket-AllFault_example : AllFault mixed_table (msg_map 0x1fff 7)
last_bucket-AllFault_example = last_bucket-AllFault mixed_table (msg_map 0x1fff 7) refl
