-- ===== src/Core/Cell.antt =====
-- The index cells between several threads of the daemon and the handlers: the part of the delivery
-- loop of `emi_recieve_operation` (emi_core.c) that `critical_shmem_lock` protects, and the start of
-- `func_sterotype` (emi_if.c), in any order. The code takes the lock; the flag `locked` takes it
-- away, to say what it is for.
mod Examples
use emi.Prelude.{
  ℕ, ◌<◌, ◌≤◌, ◌≡◌, refl, sym, ap, ◌∙◌, Bool, true, false, List, [], ◌∷◌, ◌++◌, ◌==◌, if◌then◌else◌,
  length, arith,
}

-- The cells; the processes that threads in the critical section wait for; the signals that were
-- sent and not yet handled, with the offset that each is for; and for each handler that ran, the
-- offset that it was signalled for and the offset that it read.
pub record Cells : Type 0 where
  pub index : ℕ → ℕ
  pub waiting : List ℕ
  pub pending : List (ℕ × ℕ)
  pub reads : List (ℕ × ℕ)

abbrev pub write_cell : ℕ → ℕ → (ℕ → ℕ) → ℕ → ℕ
write_cell pid nth index q = if q == pid then nth else index q

-- May a thread enter the critical section?
abbrev pub IsOpen : Bool → List ℕ → Type 0
IsOpen true waiting = waiting ≡ []
IsOpen false waiting = Unit

pub data Turn (locked : Bool) (s : Cells) : Cells → Type 0 where
  -- The thread writes the cell, and `kill` succeeds.
  send :
      (pid nth : ℕ)
      → IsOpen locked s.waiting
      → 0 < nth
      → Turn locked s (record s {
        index = write_cell pid nth s.index;
        waiting = pid ∷ s.waiting;
        pending = (pid, nth) ∷ s.pending;
      })
  -- The process is gone, and the cell is cleared.
  gone :
      (pid : ℕ)
      → IsOpen locked s.waiting
      → Turn locked s (record s { index = write_cell pid 0 s.index })
  -- A handler reads its cell and clears it.
  handle :
      (pid nth : ℕ) (before behind : List (ℕ × ℕ))
      → s.pending ≡ before ++ (pid, nth) ∷ behind
      → Turn locked s (record s {
        index = write_cell pid 0 s.index;
        pending = before ++ behind;
        reads = (nth, s.index pid) ∷ s.reads;
      })
  -- The thread sees that the cell is clear, and leaves.
  resume :
      (pid : ℕ) (before behind : List ℕ)
      → s.waiting ≡ before ++ pid ∷ behind
      → s.index pid ≡ 0
      → Turn locked s (record s { waiting = before ++ behind })

abbrev pub clear : Cells
clear = record { index = λ q. 0; waiting = []; pending = []; reads = [] }

pub data Reach (locked : Bool) : Cells → Type 0 where
  start : Reach locked clear
  later : {s t : Cells} → Reach locked s → Turn locked s t → Reach locked t

-- Each handler read the offset that it was signalled for.
abbrev pub AllMatch : List (ℕ × ℕ) → Type 0
AllMatch [] = Unit
AllMatch ((nth, got) ∷ l) = (got ≡ nth) × AllMatch l

data Kept (s : Cells) : Type 0 where
  calm : s.waiting ≡ [] → s.pending ≡ [] → Kept s
  called :
      (pid nth : ℕ)
      → s.waiting ≡ pid ∷ []
      → s.pending ≡ (pid, nth) ∷ []
      → s.index pid ≡ nth
      → 0 < nth
      → Kept s
  handled : (pid : ℕ) → s.waiting ≡ pid ∷ [] → s.pending ≡ [] → Kept s

-- A list of one element has no other.
pub only {ℓ} :
    {A : Type ℓ} {x y : A} (before behind : List A)
    → x ∷ [] ≡ before ++ y ∷ behind
    → (y ≡ x) × (before ++ behind ≡ [])
only [] behind e = (cc e, cc e)
only (a ∷ []) behind e = cc e
only (a ∷ b ∷ before) behind e = cc e

pub no_empty {ℓ} : {A : Type ℓ} (y : A) (before behind : List A) → [] ≡ before ++ y ∷ behind → ⊥
no_empty y [] behind e = cc e
no_empty y (a ∷ before) behind e = cc e

open-pending : {s : Cells} → Kept s → s.waiting ≡ [] → s.pending ≡ []
open-pending (calm w p) o = p
open-pending (called pid nth w p i h) o = cc (w, o)
open-pending (handled pid w p) o = p

Turn-Kept : {s t : Cells} → Turn true s t → Kept s × AllMatch s.reads → Kept t × AllMatch t.reads
Turn-Kept {s} (send pid nth o h) (k, m) =
    let hit : write_cell pid nth s.index pid ≡ nth = ground arith in
    (called pid nth (ap (λ l. pid ∷ l) o) (ap (λ l. (pid, nth) ∷ l) (open-pending k o)) hit h, m)
Turn-Kept {s} (gone pid o) (k, m) = (calm o (open-pending k o), m)
Turn-Kept {s} (handle pid nth before behind e) (calm w p, m) =
    absurd (no_empty (pid, nth) before behind (sym p ∙ e))
Turn-Kept {s} (handle pid nth before behind e) (called pid' nth' w p i h, m) =
    let (same, rest) = only before behind (sym p ∙ e) in
    (handled pid' w rest, (ap (λ x. s.index x.0) same ∙ i ∙ sym (ap (λ x. x.1) same), m))
Turn-Kept {s} (handle pid nth before behind e) (handled pid' w p, m) =
    absurd (no_empty (pid, nth) before behind (sym p ∙ e))
Turn-Kept {s} (resume pid before behind e z) (calm w p, m) =
    absurd (no_empty pid before behind (sym w ∙ e))
Turn-Kept {s} (resume pid before behind e z) (called pid' nth w p i h, m) =
    let (same, rest) = only before behind (sym w ∙ e) in
    absurd (omega (arith, h, sym i ∙ sym (ap s.index same) ∙ z))
Turn-Kept {s} (resume pid before behind e z) (handled pid' w p, m) =
    let (same, rest) = only before behind (sym w ∙ e) in (calm rest p, m)

Reach-Kept : {s : Cells} → Reach true s → Kept s × AllMatch s.reads
Reach-Kept start = (calm refl refl, tt)
Reach-Kept (later r t) = Turn-Kept t (Reach-Kept r)

Kept-pending : {s : Cells} → Kept s → length s.pending ≤ 1
Kept-pending (calm w p) = rw p (omega arith)
Kept-pending (called pid nth w p i h) = rw p (omega arith)
Kept-pending (handled pid w p) = rw p (omega arith)

-- With the lock, as the code takes it, in whatever order any number of threads of the daemon and the
-- handlers run, for offsets that are not zero: every handler reads the offset that it was signalled
-- for, and at most one signal is sent and not yet handled, so no two can melt into one.
pub reads-AllMatch : (s : Cells) → Reach true s → AllMatch s.reads × (length s.pending ≤ 1)
reads-AllMatch s r = let (k, m) = Reach-Kept r in (m, Kept-pending k)

-- Without it, two messages for one process can both reach the handler as the second, and as offset
-- zero.
pub reads_lost :
    (pid a b : ℕ) → 0 < a → 0 < b → (s : Cells) × Reach false s × (s.reads ≡ (b, 0) ∷ (a, b) ∷ [])
reads_lost pid a b ha hb =
    let r1 = later start (send pid a tt ha) in
    let r2 = later r1 (send pid b tt hb) in
    let r3 = later r2 (handle pid a ((pid, b) ∷ []) [] refl) in
    let r4 = later r3 (handle pid b [] [] refl) in
    let hit : (pid == pid) ≡ true = ground arith in (_, r4, rw hit refl)
