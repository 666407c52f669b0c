-- ===== src/Core/Cell/Examples.antt =====
-- Two messages for process 5.
use emi.Prelude.{◌≤◌, ◌≡◌, refl, arith, true, [], ◌∷◌, length}
use emi.Core.Cell.{Cells, AllMatch, Reach, start, later, send, handle, resume, reads-AllMatch}

both_handled : (s : Cells) × Reach true s × (s.reads ≡ (200, 200) ∷ (100, 100) ∷ [])
both_handled =
    let r1 = later start (send 5 100 refl (omega arith)) in
    let r2 = later r1 (handle 5 100 [] [] refl) in
    let r3 = later r2 (resume 5 [] [] refl refl) in
    let r4 = later r3 (send 5 200 refl (omega arith)) in
    let r5 = later r4 (handle 5 200 [] [] refl) in (_, r5, refl)

reads-AllMatch_example : AllMatch both_handled.0.reads × (length both_handled.0.pending ≤ 1)
reads-AllMatch_example = reads-AllMatch both_handled.0 both_handled.1
