-- ===== src/MsgTable/Search.antt =====
-- `__emi_hsearch` and `emi_hsearch`: what they find.
use emi.Prelude.{
  ℕ, zero, suc, ◌+◌, ◌-◌, ◌≤◌, ◌<◌, ◌≡◌, refl, ap, sym, ◌∙◌, false, Option, none, some, List, [],
  ◌∷◌, ◌⊎◌, inl, inr, arith, ◌==◌, get_elem?, length, drop, lt→ltb, Bool-cases, Option-cases,
}
use native.Mathlib.Decide.{dec_lt}
use emi.MsgTable.{
  MsgMap, Chain, Table, emi_max_msg, load_chain, hash_key, Found, skip, match_from, search_chain,
  hsearch, link_same, emi_hsearch,
}

-- `f` is the first node of `c`, from position `n` on, whose number is that of `map`.
pub record IsFirstMatch (c : Chain) (map : MsgMap) (n : ℕ) (f : Found) : Type 0 where
  pub kept : f.num ≡ n
  pub after : n ≤ f.at
  pub stands : get_elem? c f.at ≡ some f.node
  pub matches : f.node.msg ≡ map.msg
  pub first :
      (j : ℕ) (x : MsgMap) → n ≤ j → j < f.at → get_elem? c j ≡ some x → (x.msg == map.msg) ≡ false

-- No node of `c` from position `n` on has the number of `map`.
abbrev pub NoMatch : Chain → MsgMap → ℕ → Type 0
NoMatch c map n = (j : ℕ) (x : MsgMap) → n ≤ j → get_elem? c j ≡ some x → (x.msg == map.msg) ≡ false

abbrev pub Searches : Chain → MsgMap → ℕ → Option Found → Type 0
Searches c map n none = NoMatch c map n
Searches c map n (some f) = IsFirstMatch c map n f

-- The second loop, with the positions counted from `at`.
abbrev Scans : Chain → MsgMap → ℕ → ℕ → Option Found → Type 0
Scans c map i at none = NoMatch c map 0
Scans c map i at (some f) =
    (d : ℕ) × (f.at ≡ at + d)
    × (f.num ≡ i)
    × IsFirstMatch c map 0 (record { num = 0; at = d; node = f.node })

module _ (map : MsgMap) (tmp : MsgMap) (c : Chain) (miss : (tmp.msg == map.msg) ≡ false) where
  before-cons :
      (d : ℕ)
      → ((j : ℕ) (x : MsgMap) → 0 ≤ j → j < d → get_elem? c j ≡ some x → (x.msg == map.msg) ≡ false)
      → (j : ℕ) (x : MsgMap) → 0 ≤ j
      → j < suc d
      → get_elem? (tmp ∷ c) j ≡ some x
      → (x.msg == map.msg) ≡ false
  before-cons d first zero x lo hi e = ground arith
  before-cons d first (suc j) x lo hi e = first j x (omega arith) (omega arith) e

  NoMatch-cons : NoMatch c map 0 → NoMatch (tmp ∷ c) map 0
  NoMatch-cons never zero x lo e = ground arith
  NoMatch-cons never (suc j) x lo e = never j x (omega arith) e

  Scans-cons : (i at : ℕ) (r : Option Found) → Scans c map i (suc at) r → Scans (tmp ∷ c) map i at r
  Scans-cons i at none never = NoMatch-cons never
  Scans-cons i at (some f) (d, stands_at, kept, m) = (
    suc d,
    omega arith,
    kept,
    record {
      kept = refl;
      after = omega arith;
      stands = m.stands;
      matches = m.matches;
      first = before-cons d m.first;
    },
  )

match_from-Scans : (map : MsgMap) (i at : ℕ) (c : Chain) → Scans c map i at (match_from map i at c)
unfolding match_from
match_from-Scans map i at [] = λ j x h e. cc
match_from-Scans map i at (tmp ∷ c) = elim (Bool-cases (tmp.msg == map.msg)) [
  | inl hit ↦ rw hit (
    0,
    omega arith,
    refl,
    record {
      kept = refl;
      after = omega arith;
      stands = refl;
      matches = ground arith;
      first = λ j x lo hi e. absurd (omega arith);
    },
  )
  | inr miss ↦ rw miss (Scans-cons map tmp c miss i at _ (match_from-Scans map i (suc at) c))
]

-- `skip` drops nodes; it counts short only past the end of the chain.
pub skip-drop :
    (n : ℕ) (c : Chain)
    → (skip n c ≡ (n, drop n c)) ⊎ ((length c < n) × (skip n c ≡ (length c, [])))
unfolding skip
skip-drop zero c = inl refl
skip-drop (suc n) [] = inr (omega arith, refl)
skip-drop (suc n) (x ∷ c) = elim (skip-drop n c) [
  | inl e ↦ inl (rw e refl)
  | inr (short, e) ↦ inr (omega arith, rw e refl)
]

get_elem?-drop {ℓ} :
    {A : Type ℓ} (n j : ℕ) (c : List A) → get_elem? (drop n c) j ≡ get_elem? c (n + j)
get_elem?-drop zero j c = ap (get_elem? c) (omega arith)
get_elem?-drop (suc n) j [] = refl
get_elem?-drop (suc n) j (x ∷ c) =
    let e : suc (n + j) ≡ suc n + j = omega arith in get_elem?-drop n j c ∙ ap (get_elem? (x ∷ c)) e

get_elem?-length {ℓ} : {A : Type ℓ} (j : ℕ) (c : List A) → length c ≤ j → get_elem? c j ≡ none
get_elem?-length j [] h = refl
get_elem?-length zero (x ∷ c) h = absurd (omega arith)
get_elem?-length (suc j) (x ∷ c) h = get_elem?-length j c (omega arith)

module _ (map : MsgMap) (n : ℕ) (c : Chain) where
  -- A node at `j`, counted behind the `n` that were dropped.
  behind :
      (j : ℕ) (x : MsgMap) → n ≤ j → get_elem? c j ≡ some x → get_elem? (drop n c) (j - n) ≡ some x
  behind j x lo e = get_elem?-drop n (j - n) c ∙ ap (get_elem? c) (omega arith) ∙ e

  Searches-drop : (r : Option Found) → Scans (drop n c) map n n r → Searches c map n r
  Searches-drop none never = λ j x lo e. never (j - n) x (omega arith) (behind j x lo e)
  Searches-drop (some f) (d, stands_at, kept, m) = record {
    kept = kept;
    after = omega arith;
    stands = ap (get_elem? c) stands_at ∙ sym (get_elem?-drop n d c) ∙ m.stands;
    matches = m.matches;
    first = λ j x lo hi e. m.first (j - n) x (omega arith) (omega arith) (behind j x lo e);
  }

  -- `__emi_hsearch` on a chain gives the first node from position `num` on that has the number
  -- asked for, and leaves `num` as it is; it gives NULL exactly when there is no such node.
  pub search_chain-Searches : Searches c map n (search_chain c map n)
  unfolding search_chain match_from
  search_chain-Searches = elim (skip-drop n c) [
    | inl e ↦ rw e (Searches-drop _ (match_from-Scans map n n (drop n c)))
    | inr (short, e) ↦ rw e (λ j x lo got. cc (got, get_elem?-length j c (omega arith)))
  ]

-- A successful search from `n` starts inside the chain.
pub search_chain-lt :
    (map : MsgMap) (n : ℕ) (c : Chain) (f : Found)
    → search_chain c map n ≡ some f
    → (n < length c) × (f.num ≡ n)
search_chain-lt map n c f e =
    let m : IsFirstMatch c map n f = rw e at (search_chain-Searches map n c) in
    elim (dec_lt n (length c)) [
      | yes p ↦ (p, m.kept)
      | no p ↦ absurd (clash (get_elem?-length f.at c (omega (arith, m.after))) m.stands)
    ]
  where
    clash : {A : Type 0} {o : Option A} {a : A} → o ≡ none → o ≡ some a → ⊥
    clash p q = cc

-- Each round of `emi_hsearch` starts one node further on.
link_same-total :
    (fuel : ℕ) (c : Chain) (map : MsgMap) (i last : ℕ)
    → length c < fuel + i
    → 0 < fuel
    → (links : List (ℕ × ℕ)) × (link_same fuel c map i last ≡ some links)
unfolding link_same
link_same-total zero c map i last h pos = absurd (omega arith)
link_same-total (suc fuel) c map i last h pos = elim (Option-cases (search_chain c map i)) [
  | inl e ↦ ([], rw (e, link_same))
  | inr (f, e) ↦
      let (short, kept) = search_chain-lt map i c f e in
      let (links, run) = link_same-total fuel c map (suc f.num) f.at (omega arith) (omega arith) in
      ((last, f.at) ∷ links, rw (e, link_same, run))
]

-- `emi_hsearch` ends within as many rounds as the chain has nodes and one more, and whatever it
-- finds it returns NULL. The number asked for has a bucket inside the array.
pub emi_hsearch-null :
    (fuel : ℕ) (table : Table) (map : MsgMap)
    → hash_key map.msg < emi_max_msg
    → length (table (hash_key map.msg)) < fuel
    → (links : List (ℕ × ℕ)) × (emi_hsearch fuel table map ≡ some (none, links))
unfolding emi_hsearch load_chain hsearch
emi_hsearch-null fuel table map inside enough =
    let c = table (hash_key map.msg) in
    elim (Option-cases (search_chain c map 0)) [
      | inl e ↦ ([], rw (lt→ltb _ _ inside, e) refl)
      | inr (f, e) ↦
          let (short, kept) = search_chain-lt map 0 c f e in
          let (links, run) =
            link_same-total fuel c map (suc f.num) f.at (omega arith) (omega arith) in
          (links, rw (lt→ltb _ _ inside, e, run) refl)
    ]

pub hsearch-chain :
    (table : Table) (map : MsgMap) (n : ℕ)
    → hash_key map.msg < emi_max_msg
    → hsearch table map n ≡ some (search_chain (table (hash_key map.msg)) map n)
unfolding hsearch load_chain
hsearch-chain table map n inside = rw (lt→ltb _ _ inside) refl
