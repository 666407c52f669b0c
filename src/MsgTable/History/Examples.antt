-- ===== src/MsgTable/History/Examples.antt =====
-- A short history of one bucket.
use emi.Prelude.{◌≡◌, arith, true, some, List, [], ◌∷◌}
use emi.MsgTable.{Table, msg_map, emi_hash}
use emi.MsgTable.Registry.{registered, IsWellFormed}
use emi.MsgTable.History.{Change, insert, delete, init_msg_table, apply_all, apply_all-init}

-- Two numbers of one bucket come, and one goes.
abbrev changes : List Change
changes = insert (msg_map 1 5) ∷ insert (msg_map 0x1001 6) ∷ delete (msg_map 1 5) ∷ []

abbrev junk : Table
junk i = msg_map 9 9 ∷ []

apply_all-init_example :
    (final : Table) × (apply_all changes (init_msg_table junk) ≡ some final)
    × IsWellFormed final
    × (registered final (msg_map 0x1001 6) ≡ true)
unfolding emi_hash
apply_all-init_example =
    apply_all-init junk changes (msg_map 0x1001 6) (omega arith, (omega arith, (omega arith, tt)))
      (omega arith)
