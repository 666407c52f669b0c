-- ===== src/Space/Linked/Find.antt =====
-- The search of `__emi_return_space` (include/shmem.h) from the end of the list.
use emi.Prelude.{
  ℕ, Bool, zero, suc, ◌+◌, ◌-◌, ◌<◌, ◌≡◌, ◌≢◌, ◌⊎◌, inl, inr, refl, ap, ◌∙◌, true, false, Option,
  none, some, List, [], ◌∷◌, ◌++◌, map, length, ◌==◌, if◌then◌else◌, arith, Bool-cases,
}
use emi.ListHead.{Ptr}
use emi.ListHead.Ring.{Seg, NotIn, IsList}
use emi.Space.{Buf, find_from_tail}
use emi.Space.Linked.{Store, find_linked}

-- The last element with the address.
abbrev pub match_or : Ptr → Bool → Option Ptr → Option Ptr
match_or x b (some y) = some y
match_or x b none = if b then some x else none

abbrev pub last_match : (Ptr → Buf) → ℕ → List Ptr → Option Ptr
last_match f addr [] = none
last_match f addr (x ∷ xs) = match_or x ((f x).addr == addr) (last_match f addr xs)

abbrev pub or_else : Option Ptr → Option (Option Ptr) → Option (Option Ptr)
or_else (some y) o = some (some y)
or_else none o = o

or_else-match_or :
    (x : Ptr) (b : Bool) (o : Option Ptr) (r : Option (Option Ptr))
    → or_else o (if b then some (some x) else r) ≡ or_else (match_or x b o) r
or_else-match_or x b (some y) r = refl
or_else-match_or x true none r = refl
or_else-match_or x false none r = refl

find_linked-step :
    (addr : ℕ) (head : Ptr) (s : Store) (fuel : ℕ) (x : Ptr)
    → head ≢ x
    → find_linked addr head s (suc fuel) x ≡ (
        if (s.fields x).addr == addr
        then some (some x)
        else find_linked addr head s fuel (s.links.prev x))
unfolding find_linked
find_linked-step addr head s fuel x ne =
    let miss : (x == head) ≡ false = ground arith in rw (find_linked, miss) refl

-- The walk back over a segment finds its last match, or goes on before it.
find_linked-Seg :
    (addr : ℕ) (head : Ptr) (s : Store) (p : Ptr) (xs : List Ptr) (q more fuel : ℕ)
    → more ≡ length xs + fuel
    → Seg s.links p xs q
    → NotIn head xs
    → find_linked addr head s more (s.links.prev q)
      ≡ or_else (last_match s.fields addr xs) (find_linked addr head s fuel p)
find_linked-Seg addr head s p [] q more fuel e g n =
    let same : more ≡ fuel = omega (arith, e) in rw (g.1, same) refl
find_linked-Seg addr head s p (x ∷ xs) q more fuel e g n =
    find_linked-Seg addr head s x xs q more (suc fuel) (omega (arith, e)) g.2 n.1
    ∙ ap (or_else (last_match s.fields addr xs)) (
        find_linked-step addr head s fuel x n.0
        ∙ ap
            (λ r.
              if (s.fields x).addr == addr then some (some x) else find_linked addr head s fuel r)
            g.1)
    ∙ or_else-match_or x ((s.fields x).addr == addr) (last_match s.fields addr xs) _

-- What the search in the list of elements has to do with it.
pub last_match-cases :
    (f : Ptr → Buf) (addr : ℕ) (xs : List Ptr)
    → ((last_match f addr xs ≡ none) × (find_from_tail addr (map f xs) ≡ none))
      ⊎ ((pre : List Ptr) × (y : Ptr) × (post : List Ptr) × (xs ≡ pre ++ y ∷ post)
          × (last_match f addr xs ≡ some y)
          × (find_from_tail addr (map f xs) ≡ some (f y, map f (pre ++ post))))
unfolding find_from_tail
last_match-cases f addr [] = inl (refl, refl)
last_match-cases f addr (x ∷ xs) = elim (last_match-cases f addr xs) [
  | inr (pre, y, post, e, m, g) ↦ inr (x ∷ pre, y, post, ap (λ l. x ∷ l) e, rw m refl, rw g refl)
  | inl (m, g) ↦ elim (Bool-cases ((f x).addr == addr)) [
    | inl h ↦ inr ([], x, xs, refl, rw (m, h) refl, rw (g, h) refl)
    | inr h ↦ inl (rw (m, h) refl, rw (g, h) refl)
  ]
]

module _ (addr : ℕ) (head : Ptr) (s : Store) where
  find_linked-head : (fuel : ℕ) → find_linked addr head s (suc fuel) head ≡ some none
  unfolding find_linked
  find_linked-head fuel =
      let hit : (head == head) ≡ true = ground arith in rw (find_linked, hit) refl

  pub find_linked-IsList :
      (xs : List Ptr) (fuel : ℕ)
      → IsList s.links head xs
      → length xs < fuel
      → find_linked addr head s fuel (s.links.prev head)
        ≡ or_else (last_match s.fields addr xs) (some none)
  find_linked-IsList xs zero i l = absurd (omega arith)
  find_linked-IsList xs (suc fuel) i l =
      find_linked-Seg addr head s head xs head (suc fuel) (suc (fuel - length xs))
        (omega (arith, l)) i.ring i.uniq.0
      ∙ ap (or_else (last_match s.fields addr xs)) (find_linked-head (fuel - length xs))
