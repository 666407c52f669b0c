-- ===== src/Space/Init.antt =====
-- `emi_init_space`: the pool at the start.
use emi.Prelude.{
  ℕ, zero, suc, ◌+◌, ◌*◌, ◌%◌, ◌<◌, ◌≡◌, refl, ◌∙◌, sym, ap, inl, true, false, Bool, some, List, [],
  ◌∷◌, ◌++◌, pos, minus_one, arith, length, none, if◌then◌else◌, ◌==◌,
}
use mathlib.Core.List.{append_assoc, append-nil}
use mathlib.Core.Path.{subst}
use emi.Space.{Buf, null, u32_mod, init_loop, emi_init_space}
use emi.Space.Pool.{All, OffsetNe, Apart, IsFree, IsSmall, Splits}

abbrev pub new_slot : ℕ → Buf
new_slot offset = record { busy = false; addr = null; offset = offset }

-- The slots from number `i` on, one `size` apart.
abbrev pub slots : (bias_base size : ℕ) → ℕ → ℕ → List Buf
slots bias_base size i zero = []
slots bias_base size i (suc rounds) =
    new_slot (bias_base + i * size) ∷ slots bias_base size (suc i) rounds

length-slots : (bias_base size i rounds : ℕ) → length (slots bias_base size i rounds) ≡ rounds
length-slots bias_base size i zero = refl
length-slots bias_base size i (suc rounds) = ap suc (length-slots bias_base size (suc i) rounds)

module _ (bias_base size : ℕ) where
  regroup : (i rounds : ℕ) → (suc i + rounds) * size ≡ (i + suc rounds) * size
  regroup i rounds = ap (λ k. k * size) (omega arith)

  small_here :
      (i rounds : ℕ)
      → bias_base + (i + suc rounds) * size < u32_mod
      → (bias_base + i * size) % u32_mod ≡ bias_base + i * size
  small_here i rounds h = let lt : bias_base + i * size < u32_mod = grind arith in omega arith

  -- The slots from `i` on, while the last offset fits in 32 bits.
  init_loop-slots :
      (memory : ℕ → Bool) (i rounds : ℕ) (bufs : List Buf)
      → ((k : ℕ) → memory k ≡ true)
      → bias_base + (i + rounds) * size < u32_mod
      → init_loop memory bias_base size i rounds bufs
        ≡ some (pos 0, bufs ++ slots bias_base size i rounds)
  unfolding init_loop
  init_loop-slots memory i zero bufs all fits = ap (λ l. some (pos 0, l)) (sym (append-nil bufs))
  init_loop-slots memory i (suc rounds) bufs all fits =
      let small : (bias_base + i * size) % u32_mod ≡ bias_base + i * size =
        small_here i rounds fits in
      rw (all i, init_loop, small)
        (init_loop-slots memory (suc i) rounds _ all (omega (arith, regroup i rounds))
          ∙ ap (λ l. some (pos 0, l)) (append_assoc bufs (new_slot (bias_base + i * size) ∷ []) _))

  far :
      (x : Buf) (i rounds : ℕ)
      → x.offset < bias_base + i * size
      → All (OffsetNe x) (slots bias_base size i rounds)
  far x i zero h = tt
  far x i (suc rounds) h = ((λ e. omega arith), far x (suc i) rounds (grind arith))

  slots-Apart : (i rounds : ℕ) → 0 < size → Apart (slots bias_base size i rounds)
  slots-Apart i zero h = tt
  slots-Apart i (suc rounds) h = (
    far (new_slot (bias_base + i * size)) (suc i) rounds (grind arith),
    slots-Apart (suc i) rounds h,
  )

  slots-IsFree : (base i rounds : ℕ) → All (IsFree base) (slots bias_base size i rounds)
  slots-IsFree base i zero = tt
  slots-IsFree base i (suc rounds) = ((refl, inl refl), slots-IsFree base (suc i) rounds)

  slots-IsSmall :
      (i rounds : ℕ)
      → bias_base + (i + rounds) * size < u32_mod
      → All IsSmall (slots bias_base size i rounds)
  slots-IsSmall i zero h = tt
  slots-IsSmall i (suc rounds) h =
      (grind arith, slots-IsSmall (suc i) rounds (omega (arith, regroup i rounds)))

-- `emi_init_space` with memory, a slot size above 0, fewer slots than 2^32 and offsets that fit
-- in 32 bits makes `num` free slots, the `i`th at `bias_base + i * size` for `i` from 1 to `num`:
-- a pool with nothing handed out.
pub init-Splits :
    (memory : ℕ → Bool) (base num bias_base size : ℕ)
    → ((k : ℕ) → memory k ≡ true)
    → 0 < size
    → num < u32_mod
    → bias_base + (1 + num) * size < u32_mod
    → (emi_init_space memory num bias_base size ≡ some (pos 0, slots bias_base size 1 num))
      × Splits base num
          (record { bufs = slots bias_base size 1 num; num = 0 })
          (slots bias_base size 1 num)
          []
unfolding emi_init_space
init-Splits memory base num bias_base size all pos_size few fits = (
  init_loop-slots bias_base size memory 1 num [] all fits,
  record {
    whole = sym (append-nil _);
    free = slots-IsFree bias_base size base 1 num;
    held = tt;
    apart = subst Apart (sym (append-nil _)) (slots-Apart bias_base size 1 num pos_size);
    small = subst (All IsSmall) (sym (append-nil _)) (slots-IsSmall bias_base size 1 num fits);
    counted = refl;
    room = omega (arith, length-slots bias_base size 1 num);
    few = few;
  },
)

module _ (bias_base size : ℕ) where
  init_loop-unlucky :
      (memory : ℕ → Bool) (i d rounds : ℕ) (b : Buf) (bufs : List Buf)
      → ((j : ℕ) → j < d → memory (i + j) ≡ true)
      → memory (i + d) ≡ false
      → d < rounds
      → init_loop memory bias_base size i rounds (b ∷ bufs) ≡ none
  unfolding init_loop
  init_loop-unlucky memory i d zero b bufs before fails lt = absurd (omega arith)
  init_loop-unlucky memory i zero (suc rounds) b bufs before fails lt =
      let here : memory i ≡ false = ap memory (omega arith) ∙ fails in rw (here, init_loop) refl
  init_loop-unlucky memory i (suc d) (suc rounds) b bufs before fails lt =
      let here : memory i ≡ true = ap memory (omega arith) ∙ before 0 (omega arith) in
      rw (here, init_loop)
        (init_loop-unlucky memory (suc i) d rounds b _
          (λ j less. ap memory (omega arith) ∙ before (suc j) (omega arith))
          (ap memory (omega arith) ∙ fails) (omega arith))

  -- Without memory for the first slot `emi_init_space` fails with -1 and an empty list. Without
  -- memory for a later one it walks the list while it frees it, and reads a freed link.
  pub init_unlucky :
      (memory : ℕ → Bool) (d num : ℕ)
      → ((j : ℕ) → j < d → memory (1 + j) ≡ true)
      → memory (1 + d) ≡ false
      → d < num
      → emi_init_space memory num bias_base size ≡ (if d == 0 then some (minus_one, []) else none)
  unfolding emi_init_space init_loop
  init_unlucky memory d zero before fails lt = absurd (omega arith)
  init_unlucky memory zero (suc num) before fails lt = rw (fails, init_loop) refl
  init_unlucky memory (suc d) (suc num) before fails lt =
      let later : (suc d == 0) ≡ false = ground arith in
      rw (before 0 (omega arith), init_loop, later)
        (init_loop-unlucky memory 2 d num _ []
          (λ j less. ap memory (omega arith) ∙ before (suc j) (omega arith))
          (ap memory (omega arith) ∙ fails) (omega arith))
