-- ===== src/Core/Nodes/Examples.antt =====
-- Threads on a bucket, at concrete inputs.
use emi.Prelude.{ℕ, ◌≡◌, refl, false, some, List, [], ◌∷◌, get_elem?}
use emi.MsgTable.{msg_map, Found, search_chain, any_same}
use emi.Core.Nodes.{Node, has_at, Stage, holding, Bucket, Reach, maps}
use emi.Core.Nodes.Freed.{at_work, find-freed}

abbrev node : ℕ → ℕ → Node
node a pid = record { at = a; map = msg_map 1 pid }

abbrev bucket : List Node
bucket = node 100 7 ∷ node 200 8 ∷ []

abbrev hit : Found
hit = record { num = 0; at = 0; node = msg_map 1 7 }

bucket-hit : search_chain (maps bucket) (msg_map 1 0) 0 ≡ some hit
unfolding search_chain
bucket-hit = refl

find-freed_example :
    (n : Node) × (t : Bucket) × (rest : List (ℕ × Stage)) × (get_elem? bucket 0 ≡ some n)
    × Reach (at_work bucket []) t
    × (t.phases ≡ (1, holding n.at 0) ∷ rest)
    × (has_at n.at t.chain ≡ false)
unfolding any_same
find-freed_example = find-freed 1 bucket hit (refl, (refl, tt)) (refl, (refl, tt)) bucket-hit
