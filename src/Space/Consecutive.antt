-- ===== src/Space/Consecutive.antt =====
-- `__emi_obtain_consecutive_space` (include/shmem.h), which nothing calls: it looks for `consec_num`
-- free slots in a row, and forgets to mark them.
use emi.Prelude.{
  ℕ, zero, suc, ◌+◌, ◌*◌, ◌%◌, ◌≡◌, refl, ap, ◌∙◌, false, Option, none, some, List, [], ◌∷◌, ◌==◌,
  ltb, map, if◌then◌else◌, arith, Bool-cases, Option-cases, inl, inr,
}
use emi.Space.{Buf, Space, null, u32_mod}

-- The loop over the list: the length of the row, and the last element that was looked at.
unfoldable pub scan_row : (consec_num i : ℕ) → Option Buf → List Buf → ℕ × Option Buf
scan_row consec_num i buf [] = (i, buf)
scan_row consec_num i buf (b ∷ l) =
    let rest = scan_row consec_num (if b.busy then 0 else i + 1) (some b) l in
    if i == consec_num then (i, some b) else rest

-- `buf->addr = addr` for the element with an offset.
abbrev pub set_addr : ℕ → ℕ → Buf → Buf
set_addr offset addr b = if b.offset == offset then record b { addr = addr } else b

-- The loop that would mark the slots runs while `i<=0`, so it is entered only for `consec_num` 0,
-- and then does not end: `none`, as for an empty list, where `buf` is not set.
unfoldable pub obtain_consecutive : (base size consec_num : ℕ) → Space → Option (ℕ × Space)
unfolding scan_row
obtain_consecutive base size zero s = none
obtain_consecutive base size (suc n) s =
    let (i, buf) = scan_row (suc n) 0 none s.bufs in
    if ltb i (suc n) then some (null, s) else elim buf [
      | none ↦ none
      | some b ↦
          let addr = base + (b.offset * size) % u32_mod in
          some (
            addr,
            record { bufs = map (set_addr b.offset addr) s.bufs; num = (s.num + i) % u32_mod },
          )
    ]

abbrev map_buf : (Buf → Buf) → Option Buf → Option Buf
map_buf f none = none
map_buf f (some b) = some (f b)

set_addr-busy : (offset addr : ℕ) (b : Buf) → (set_addr offset addr b).busy ≡ b.busy
set_addr-busy offset addr b = ground arith

set_addr-offset : (offset addr : ℕ) (b : Buf) → (set_addr offset addr b).offset ≡ b.offset
set_addr-offset offset addr b = ground arith

-- Addresses do not matter to the search.
scan_row-map :
    (offset addr n i : ℕ) (buf : Option Buf) (l : List Buf)
    → scan_row n i (map_buf (set_addr offset addr) buf) (map (set_addr offset addr) l)
      ≡ ((scan_row n i buf l).0, map_buf (set_addr offset addr) (scan_row n i buf l).1)
unfolding scan_row
scan_row-map offset addr n i buf [] = refl
scan_row-map offset addr n i buf (b ∷ l) = elim (Bool-cases (i == n)) [
  | inl e ↦ rw e refl
  | inr e ↦
      rw (e, set_addr-busy offset addr b)
        (scan_row-map offset addr n (if b.busy then 0 else i + 1) (some b) l)
]

-- The space after a row that ends at `b` was handed out, with `i` slots in it.
abbrev handed : (base size i : ℕ) → Buf → Space → Space
handed base size i b s = record {
  bufs = map (set_addr b.offset (base + (b.offset * size) % u32_mod)) s.bufs;
  num = (s.num + i) % u32_mod;
}

-- Asking again.
ask_again :
    (base size n : ℕ) (s : Space) (b : Buf) (i : ℕ)
    → scan_row (suc n) 0 none s.bufs ≡ (i, some b)
    → ltb i (suc n) ≡ false
    → obtain_consecutive base size (suc n) (handed base size i b s)
      ≡ some (base + (b.offset * size) % u32_mod, handed base size i b (handed base size i b s))
unfolding obtain_consecutive
ask_again base size n s b i found enough =
    let f = set_addr b.offset (base + (b.offset * size) % u32_mod) in
    let addr = base + (b.offset * size) % u32_mod in
    let moved = scan_row-map b.offset addr (suc n) 0 none s.bufs in
    let row : scan_row (suc n) 0 none (map f s.bufs) ≡ (i, some (f b)) =
      moved ∙ ap (λ r. (r.0, map_buf f r.1)) found in
    rw
      (
        ap (λ r. r.0) row,
        ap (λ r. r.1) row,
        enough,
        set_addr-offset b.offset addr b,
        ap (λ r. r.0) row,
      )
      refl

-- Slots in a row that were handed out once are handed out again: the same request gets the same
-- address.
pub obtain_consecutive-again :
    (base size n a : ℕ) (s s' : Space)
    → obtain_consecutive base size (suc n) s ≡ some (a, s')
    → (s'' : Space) × (obtain_consecutive base size (suc n) s' ≡ some (a, s''))
unfolding obtain_consecutive
obtain_consecutive-again base size n a s s' h =
    let (i, buf) = scan_row (suc n) 0 none s.bufs in
    let ask = obtain_consecutive base size (suc n) in
    elim (Bool-cases (ltb i (suc n))) [
      | inl short ↦
          let run : ask s ≡ some (null, s) = rw short refl in
          let same : s' ≡ s = cc (h, run) in (s', ap ask same ∙ h)
      | inr enough ↦ elim (Option-cases buf) [
        | inl e ↦ let run : ask s ≡ none = rw (enough, e) refl in cc (h, run)
        | inr (b, e) ↦
            let addr = base + (b.offset * size) % u32_mod in
            let run : ask s ≡ some (addr, handed base size i b s) = rw (enough, e) refl in
            let same : s' ≡ handed base size i b s = cc (h, run) in
            let at : addr ≡ a = cc (h, run) in
            let again = handed base size i b (handed base size i b s) in
            (
              again,
              ap ask same
                  ∙ ask_again base size n s b i (ap (λ o. (i, o)) e) enough
                  ∙ ap (λ c. some (c, again)) at,
            )
      ]
    ]
