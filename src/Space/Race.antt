-- ===== src/Space/Race.antt =====
-- Threads of the daemon that take slots at once. `__emi_obtain_space` (include/shmem.h) looks at the
-- first slot before it takes the lock, so looking and taking are two steps.
mod Examples
use emi.Prelude.{
  ℕ, ◌+◌, ◌*◌, ◌%◌, ◌^◌, ◌≡◌, ◌≢◌, refl, sym, ap, ◌∙◌, Bool, true, false, Option, none, some, List,
  [], ◌∷◌, ◌++◌, ◌==◌, map, if◌then◌else◌, arith,
}
use mathlib.Core.List.{map-append}
use emi.Space.{Buf, Space, null, u32_mod, obtain_space, return_space}
use mathlib.Core.Path.{subst}
use emi.Space.Pool.{
  given_back, All-split, Splits, All, IsHeld, Apart, OffsetNe, Apart-behind, taken, obtain-Splits,
  obtain-full, return-Splits,
}

-- The offsets of the slots that threads have found free and not yet taken, and the addresses that
-- were handed out.
pub record Threads : Type 0 where
  pub space : Space
  pub chosen : List ℕ
  pub got : List ℕ

abbrev pub remove_offset : ℕ → List Buf → List Buf
remove_offset o [] = []
remove_offset o (b ∷ l) = if b.offset == o then l else b ∷ remove_offset o l

-- From `emi_lock` on: the slot goes to the end of the list, wherever it is by now.
unfoldable pub take_chosen : (base o : ℕ) → Space → Space
take_chosen base o s = record {
  bufs =
      remove_offset o s.bufs ++ record { busy = true; addr = base + o % u32_mod; offset = o } ∷ [];
  num = (s.num + 1) % u32_mod;
}

pub data Step (base : ℕ) (s : Threads) : Threads → Type 0 where
  choose :
      {b : Buf} {rest : List Buf}
      → s.space.bufs ≡ b ∷ rest
      → b.busy ≡ false
      → Step base s (record s { chosen = b.offset ∷ s.chosen })
  claim :
      (o : ℕ) (before behind : List ℕ)
      → s.chosen ≡ before ++ o ∷ behind
      → Step base s (record {
        space = take_chosen base o s.space;
        chosen = before ++ behind;
        got = s.got ++ (base + o % u32_mod) ∷ [];
      })

pub data Reach (base : ℕ) (s : Threads) : Threads → Type 0 where
  here : Reach base s s
  later : {t u : Threads} → Reach base s t → Step base t u → Reach base s u

-- Nothing is handed out.
abbrev pub all_in : Space → Threads
all_in s = record { space = s; chosen = []; got = [] }

-- From every pool whose first slot is free two threads can get the same slot.
pub obtain-twice :
    (base : ℕ) (s : Space) (b : Buf) (rest : List Buf)
    → s.bufs ≡ b ∷ rest
    → b.busy ≡ false
    → (t : Threads) × Reach base (all_in s) t
      × (t.got ≡ (base + b.offset % u32_mod) ∷ (base + b.offset % u32_mod) ∷ [])
obtain-twice base s b rest e free =
    let r1 = later here (choose e free) in
    let r2 = later r1 (choose e free) in
    let r3 = later r2 (claim b.offset [] (b.offset ∷ []) refl) in
    let r4 = later r3 (claim b.offset [] [] refl) in (_, r4, refl)
