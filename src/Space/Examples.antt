-- ===== src/Space/Examples.antt =====
-- The theorems on the slots at concrete pools of two slots.
use emi.Prelude.{◌+◌, ◌≡◌, refl, inl, inr, true, some, [], ◌∷◌, ◌++◌, arith, pos}
use emi.Space.{Buf, Space, emi_init_space, obtain_space, return_space}
use emi.Space.Pool.{Splits, taken, given_back, obtain-Splits, return-Splits}
use emi.Space.Init.{new_slot, init-Splits}

abbrev fst_slot : Buf
fst_slot = new_slot 108

abbrev snd_slot : Buf
snd_slot = new_slot 208

-- The base is 1000. The first slot is free, and the second is handed out.
abbrev half : Space
half = record { bufs = fst_slot ∷ taken 1000 snd_slot ∷ []; num = 1 }

half-Splits : Splits 1000 2 half (fst_slot ∷ []) (taken 1000 snd_slot ∷ [])
half-Splits = record {
  whole = refl;
  free = ((refl, inl refl), tt);
  held = ((refl, refl), tt);
  apart = ((omega arith, tt), (tt, tt));
  small = (omega arith, (omega arith, tt));
  counted = refl;
  room = refl;
  few = omega arith;
}

-- Both are handed out.
abbrev full : Space
full = record { bufs = taken 1000 snd_slot ∷ taken 1000 fst_slot ∷ []; num = 2 }

full-Splits : Splits 1000 2 full [] (taken 1000 snd_slot ∷ taken 1000 fst_slot ∷ [])
full-Splits = record {
  whole = refl;
  free = tt;
  held = ((refl, refl), ((refl, refl), tt));
  apart = ((omega arith, tt), (tt, tt));
  small = (omega arith, (omega arith, tt));
  counted = refl;
  room = refl;
  few = omega arith;
}

-- The second was handed out and given back.
abbrev returned : Space
returned = record { bufs = given_back (taken 1000 snd_slot) ∷ fst_slot ∷ []; num = 0 }

returned-Splits : Splits 1000 2 returned ([] ++ given_back (taken 1000 snd_slot) ∷ fst_slot ∷ []) []
returned-Splits = record {
  whole = refl;
  free = ((refl, inr refl), ((refl, inl refl), tt));
  held = tt;
  apart = ((omega arith, tt), (tt, tt));
  small = (omega arith, (omega arith, tt));
  counted = refl;
  room = refl;
  few = omega arith;
}

obtain-Splits_example :
    (s' : Space) × (obtain_space 1000 1 half ≡ some (1000 + 108, s'))
    × Splits 1000 2 s' [] (taken 1000 snd_slot ∷ taken 1000 fst_slot ∷ [])
obtain-Splits_example = obtain-Splits 1000 2 half fst_slot [] (taken 1000 snd_slot ∷ []) half-Splits

return-Splits_example :
    (s' : Space) × (return_space (1000 + 208) full ≡ (pos 0, s'))
    × Splits 1000 2 s' (given_back (taken 1000 snd_slot) ∷ []) (taken 1000 fst_slot ∷ [])
return-Splits_example =
    return-Splits 1000 2 full [] [] (taken 1000 snd_slot) (taken 1000 fst_slot ∷ []) full-Splits

init-Splits_example :
    (emi_init_space (λ k. true) 2 8 100 ≡ some (pos 0, fst_slot ∷ snd_slot ∷ []))
    × Splits 1000 2
        (record { bufs = fst_slot ∷ snd_slot ∷ []; num = 0 })
        (fst_slot ∷ snd_slot ∷ [])
        []
init-Splits_example =
    init-Splits (λ k. true) 1000 2 8 100 (λ k. refl) (omega arith) (omega arith) (omega arith)
