-- ===== src/Space/Misuse.antt =====
-- Who else holds an address, and what happens to addresses that are not handed out.
use emi.Prelude.{
  ℕ, ◌+◌, ◌-◌, ◌%◌, ◌<◌, ◌≡◌, ◌≢◌, refl, ◌∙◌, ap, ◌⊎◌, inl, inr, none, List, [], ◌∷◌, ◌++◌, pos,
  minus_one, arith, length,
}
use mathlib.Core.List.{append_assoc}
use mathlib.Core.Path.{subst}
use emi.Space.{Buf, Space, null, u32_mod, find_from_tail, return_space}
use emi.Space.Pool.{
  All, All-append, All-split, OffsetNe, Apart, Apart-behind, IsFree, IsHeld, Splits,
  find_from_tail-last, find_from_tail-none, addr-ne, return_found,
}

-- The address that `emi_obtain_msg_space` hands out is held by nobody else.
pub obtain-exclusive :
    (base n : ℕ) (s : Space) (x : Buf) (fs bs : List Buf)
    → Splits base n s (x ∷ fs) bs
    → All (λ b. b.addr ≢ base + x.offset) bs
obtain-exclusive base n s x fs bs i =
    addr-ne base x bs i.held (All-split (OffsetNe x) fs bs i.apart.0).1

null-ne : (base : ℕ) (bs : List Buf) → 0 < base → All (IsHeld base) bs → All (λ b. b.addr ≢ null) bs
null-ne base [] h held = tt
null-ne base (b ∷ bs) h held = ((λ e. omega (arith, held.0.1)), null-ne base bs h held.1)

-- When every slot is handed out, `emi_recieve_operation` gives back the NULL that it was handed:
-- the call fails and changes nothing.
pub return-null_full :
    (base n : ℕ) (s : Space) (bs : List Buf)
    → 0 < base
    → Splits base n s [] bs
    → return_space null s ≡ (minus_one, s)
unfolding return_space
return-null_full base n s bs h i =
    let e : find_from_tail null s.bufs ≡ none =
      ap (find_from_tail null) i.whole ∙ find_from_tail-none null bs (null-ne base bs h i.held) in
    rw (e, return_space) refl

-- The stale addresses of free slots differ too.
stale-ne :
    (base : ℕ) (x : Buf) (fs : List Buf)
    → 0 < base
    → All (IsFree base) fs
    → All (OffsetNe x) fs
    → All (λ b. b.addr ≢ base + x.offset) fs
stale-ne base x [] h free ne = tt
stale-ne base x (y ∷ fs) h free ne = ((λ e. apart free.0.1 e), stale-ne base x fs h free.1 ne.1)
  where
    apart : (y.addr ≡ null) ⊎ (y.addr ≡ base + y.offset) → y.addr ≡ base + x.offset → ⊥
    apart (inl z) e = omega arith
    apart (inr z) e = ne.0 (omega arith)

-- In a pool that is split, over a base above 0, a slot keeps its address when it is given back,
-- so giving the address back a second time succeeds again: the counter loses one more and no
-- longer counts the slots that are handed out.
pub return_twice :
    (base n : ℕ) (s : Space) (fs : List Buf) (x : Buf) (gs bs : List Buf)
    → 0 < base
    → Splits base n s (fs ++ x ∷ gs) bs
    → x.addr ≡ base + x.offset
    → (s' : Space) × (return_space (base + x.offset) s ≡ (pos 0, s'))
      × (s'.num ≡ (length bs + u32_mod - 1) % u32_mod)
      × (s'.num ≢ length bs)
return_twice base n s fs x gs bs h i stale =
    let order = append_assoc fs (x ∷ gs) bs in
    let apart = Apart-behind fs (x ∷ gs ++ bs) (subst Apart order i.apart) in
    let (far_free, far_held) = All-split (OffsetNe x) gs bs apart.0 in
    let (free_front, (free_x, free_gs)) = All-split (IsFree base) fs (x ∷ gs) i.free in
    let behind =
      All-append (λ b. b.addr ≢ base + x.offset) gs bs (stale-ne base x gs h free_gs far_free)
        (addr-ne base x bs i.held far_held) in
    let found = find_from_tail-last (base + x.offset) fs x (gs ++ bs) stale behind in
    (
      _,
      return_found (base + x.offset) s x _
          (ap (find_from_tail (base + x.offset)) (i.whole ∙ order) ∙ found),
      omega (arith, i.counted),
      omega (arith, i.counted, i.room, i.few),
    )
