-- ===== src/Space/Pool.antt =====
-- The list as a pool: free slots in front, busy slots behind.
use emi.Prelude.{
  ℕ, ◌+◌, ◌-◌, ◌*◌, ◌%◌, ◌<◌, ◌≡◌, ◌≢◌, ◌⊎◌, inr, refl, ◌∙◌, sym, ap, true, false, none, some, List,
  [], ◌∷◌, ◌++◌, pos, arith, length, length-append,
}
use mathlib.Core.List.{append_assoc, append-nil}
use mathlib.Core.Path.{subst}
use emi.Space.{Buf, Space, null, u32_mod, obtain_space, find_from_tail, return_space}

abbrev pub All : (Buf → Type 0) → List Buf → Type 0
All P [] = Unit {0}
All P (x ∷ l) = P x × All P l

pub All-append : (P : Buf → Type 0) (xs ys : List Buf) → All P xs → All P ys → All P (xs ++ ys)
All-append P [] ys p q = q
All-append P (x ∷ xs) ys p q = (p.0, All-append P xs ys p.1 q)

pub All-split : (P : Buf → Type 0) (xs ys : List Buf) → All P (xs ++ ys) → All P xs × All P ys
All-split P [] ys h = (tt, h)
All-split P (x ∷ xs) ys h = let (p, q) = All-split P xs ys h.1 in ((h.0, p), q)

-- No two slots have one offset.
abbrev pub OffsetNe : Buf → Buf → Type 0
OffsetNe a b = a.offset ≢ b.offset

abbrev pub Apart : List Buf → Type 0
Apart [] = Unit {0}
Apart (x ∷ l) = All (OffsetNe x) l × Apart l

-- `x` may stand anywhere.
Apart-to_front :
    (xs : List Buf) (x : Buf) (ys : List Buf) → Apart (xs ++ x ∷ ys) → Apart (x ∷ xs ++ ys)
Apart-to_front [] x ys h = h
Apart-to_front (a ∷ xs) x ys h =
    let (before, behind) = All-split (OffsetNe a) xs (x ∷ ys) h.0 in
    let (far, rest) = Apart-to_front xs x ys h.1 in
    ((λ e. behind.0 (sym e), far), (All-append (OffsetNe a) xs ys before behind.1, rest))

Apart-from_front :
    (xs : List Buf) (x : Buf) (ys : List Buf) → Apart (x ∷ xs ++ ys) → Apart (xs ++ x ∷ ys)
Apart-from_front [] x ys h = h
Apart-from_front (a ∷ xs) x ys ((ne, far), (apart, rest)) =
    let (before, behind) = All-split (OffsetNe a) xs ys apart in
    (
      All-append (OffsetNe a) xs (x ∷ ys) before (λ e. ne (sym e), behind),
      Apart-from_front xs x ys (far, rest),
    )

-- The first slot, or another with its offset, goes to the end.
Apart-rotate :
    (x y : Buf) (l : List Buf) → x.offset ≡ y.offset → Apart (x ∷ l) → Apart (l ++ y ∷ [])
Apart-rotate x y l e h =
    Apart-from_front l y [] (rw append-nil (subst (λ o. All (λ b. o ≢ b.offset) l) e h.0, h.1))

pub Apart-behind : (xs ys : List Buf) → Apart (xs ++ ys) → Apart ys
Apart-behind [] ys h = h
Apart-behind (x ∷ xs) ys h = Apart-behind xs ys h.1

abbrev pub IsFree : ℕ → Buf → Type 0
IsFree base b = (b.busy ≡ false) × ((b.addr ≡ null) ⊎ (b.addr ≡ base + b.offset))

abbrev pub IsHeld : ℕ → Buf → Type 0
IsHeld base b = (b.busy ≡ true) × (b.addr ≡ base + b.offset)

abbrev pub IsSmall : Buf → Type 0
IsSmall b = b.offset < u32_mod

-- `s` has the free slots `fs` in front of the slots `bs` that are handed out: what every operation
-- on the list keeps.
pub record Splits (base n : ℕ) (s : Space) (fs bs : List Buf) : Type 0 where
  pub whole : s.bufs ≡ fs ++ bs
  pub free : All (IsFree base) fs
  pub held : All (IsHeld base) bs
  pub apart : Apart (fs ++ bs)
  pub small : All IsSmall (fs ++ bs)
  pub counted : s.num ≡ length bs
  pub room : length fs + length bs ≡ n
  pub few : n < u32_mod

-- The slot once it is handed out, and once it is given back.
abbrev pub taken : ℕ → Buf → Buf
taken base b = record { busy = true; addr = base + b.offset; offset = b.offset }

abbrev pub given_back : Buf → Buf
given_back b = record b { busy = false }

-- In a pool that is split and has a free slot, `emi_obtain_msg_space` hands out the first one:
-- its address is the base and its offset, the slot goes behind all the others, and the counter
-- goes up by one; the pool stays split.
pub obtain-Splits :
    (base n : ℕ) (s : Space) (x : Buf) (fs bs : List Buf)
    → Splits base n s (x ∷ fs) bs
    → (s' : Space) × (obtain_space base 1 s ≡ some (base + x.offset, s'))
      × Splits base n s' fs (bs ++ taken base x ∷ [])
unfolding obtain_space
obtain-Splits base n s x fs bs i =
    let fits : (x.offset * 1) % u32_mod ≡ x.offset = omega (arith, i.small.0) in
    let order = append_assoc fs bs (taken base x ∷ []) in
    let wraps : (s.num + 1) % u32_mod ≡ s.num + 1 = omega (arith, i.counted, i.room, i.few) in
    let s' : Space = record { bufs = (fs ++ bs) ++ taken base x ∷ []; num = s.num + 1 } in
    (
      s',
      rw (i.whole, i.free.0.0, fits, wraps) refl,
      record {
        whole = order;
        free = i.free.1;
        held = All-append (IsHeld base) bs (taken base x ∷ []) i.held ((refl, refl), tt);
        apart = subst Apart order (Apart-rotate x (taken base x) (fs ++ bs) refl i.apart);
        small =
            subst (All IsSmall) order (All-append IsSmall (fs ++ bs) _ i.small.1 (i.small.0, tt));
        counted = omega (arith, i.counted, length-append bs (taken base x ∷ []));
        room = omega (arith, i.room, length-append bs (taken base x ∷ []));
        few = i.few;
      },
    )

-- With no free slot it answers NULL and changes nothing.
pub obtain-full :
    (base n : ℕ) (s : Space) (b : Buf) (bs : List Buf)
    → Splits base n s [] (b ∷ bs)
    → obtain_space base 1 s ≡ some (null, s)
unfolding obtain_space
obtain-full base n s b bs i = rw (i.whole, i.held.0.0) refl

pub find_from_tail-none :
    (addr : ℕ) (ys : List Buf) → All (λ b. b.addr ≢ addr) ys → find_from_tail addr ys ≡ none
unfolding find_from_tail
find_from_tail-none addr [] h = refl
find_from_tail-none addr (y ∷ ys) h = rw (find_from_tail-none addr ys h.1) (ground arith)

-- The address that is looked for is that of `x`, and of nothing behind it.
pub find_from_tail-last :
    (addr : ℕ) (xs : List Buf) (x : Buf) (ys : List Buf)
    → x.addr ≡ addr
    → All (λ b. b.addr ≢ addr) ys
    → find_from_tail addr (xs ++ x ∷ ys) ≡ some (x, xs ++ ys)
unfolding find_from_tail
find_from_tail-last addr [] x ys e behind = rw (find_from_tail-none addr ys behind) (ground arith)
find_from_tail-last addr (a ∷ xs) x ys e behind =
    rw (find_from_tail-last addr xs x ys e behind) refl

-- Slots with other offsets that are handed out have other addresses.
pub addr-ne :
    (base : ℕ) (x : Buf) (ys : List Buf)
    → All (IsHeld base) ys
    → All (OffsetNe x) ys
    → All (λ b. b.addr ≢ base + x.offset) ys
addr-ne base x [] held ne = tt
addr-ne base x (y ∷ ys) held ne =
    ((λ e. ne.0 (omega (arith, held.0.1))), addr-ne base x ys held.1 ne.1)

pub return_found :
    (addr : ℕ) (s : Space) (b : Buf) (others : List Buf)
    → find_from_tail addr s.bufs ≡ some (b, others)
    → return_space addr s
      ≡ (pos 0, record { bufs = given_back b ∷ others; num = (s.num + u32_mod - 1) % u32_mod })
unfolding return_space
return_found addr s b others e = rw (e, return_space) refl

-- In a pool that is split, giving back an address that is handed out makes its slot the first
-- free one, takes one off the counter, and leaves every other slot as it was; the pool stays
-- split.
pub return-Splits :
    (base n : ℕ) (s : Space) (fs bs : List Buf) (x : Buf) (ys : List Buf)
    → Splits base n s fs (bs ++ x ∷ ys)
    → (s' : Space) × (return_space (base + x.offset) s ≡ (pos 0, s'))
      × Splits base n s' (given_back x ∷ fs) (bs ++ ys)
unfolding return_space
return-Splits base n s fs bs x ys i =
    let order = append_assoc fs bs (x ∷ ys) in
    let order' = append_assoc fs bs ys in
    let (held, (held_x, held_ys)) = All-split (IsHeld base) bs (x ∷ ys) i.held in
    let apart : Apart ((fs ++ bs) ++ x ∷ ys) = subst Apart (sym order) i.apart in
    let small : All IsSmall ((fs ++ bs) ++ x ∷ ys) = subst (All IsSmall) (sym order) i.small in
    let (small_l, small_r) = All-split IsSmall (fs ++ bs) (x ∷ ys) small in
    let behind = addr-ne base x ys held_ys (Apart-behind (fs ++ bs) (x ∷ ys) apart).0 in
    let found = find_from_tail-last (base + x.offset) (fs ++ bs) x ys held_x.1 behind in
    let many = length-append bs (x ∷ ys) in
    let fewer = length-append bs ys in
    let wraps : (s.num + u32_mod - 1) % u32_mod ≡ s.num - 1 =
      omega (arith, i.counted, i.room, i.few, many) in
    (
      record { bufs = given_back x ∷ (fs ++ bs) ++ ys; num = s.num - 1 },
      return_found (base + x.offset) s x _
            (ap (find_from_tail (base + x.offset)) (i.whole ∙ sym order) ∙ found)
          ∙ ap (λ m. (pos 0, record { bufs = given_back x ∷ (fs ++ bs) ++ ys; num = m })) wraps,
      record {
        whole = ap (λ l. given_back x ∷ l) order';
        free = ((refl, inr held_x.1), i.free);
        held = All-append (IsHeld base) bs ys held held_ys;
        apart = subst (λ l. Apart (given_back x ∷ l)) order' (Apart-to_front (fs ++ bs) x ys apart);
        small = (
          small_r.0,
          subst (All IsSmall) order' (All-append IsSmall (fs ++ bs) ys small_l small_r.1),
        );
        counted = omega (arith, i.counted, many, fewer);
        room = omega (arith, i.room, many, fewer);
        few = i.few;
      },
    )
