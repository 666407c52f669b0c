-- ===== src/ListHead/Each.antt =====
-- The loops `list_for_each` and `list_for_each_tail` of include/list.h: the elements that they pass.
use emi.Prelude.{
  ℕ, zero, suc, ◌+◌, ◌-◌, ◌<◌, ◌≡◌, ◌≢◌, refl, sym, ap, ◌∙◌, true, false, Option, none, some, List,
  [], ◌∷◌, ◌++◌, ◌==◌, if◌then◌else◌, length, arith,
}
use mathlib.Core.List.{reverse, reverse-cons, append_assoc, append-nil}
use emi.ListHead.{Ptr, Links}
use emi.ListHead.Ring.{Seg, NotIn, IsList}

abbrev pub prepend : List Ptr → Option (List Ptr) → Option (List Ptr)
prepend xs none = none
prepend xs (some ys) = some (xs ++ ys)

-- The loop at `pos`, along the links `step`; `none` is out of fuel.
unfoldable pub visit : (step : Ptr → Ptr) (head fuel pos : ℕ) → Option (List Ptr)
visit step head zero pos = none
visit step head (suc fuel) pos =
    let rest = visit step head fuel (step pos) in
    if pos == head then some [] else prepend (pos ∷ []) rest

unfoldable pub list_for_each : Links → (head fuel : ℕ) → Option (List Ptr)
unfolding visit
list_for_each h head fuel = visit h.next head fuel (h.next head)

unfoldable pub list_for_each_tail : Links → (head fuel : ℕ) → Option (List Ptr)
unfolding visit
list_for_each_tail h head fuel = visit h.prev head fuel (h.prev head)

prepend-nil : (o : Option (List Ptr)) → prepend [] o ≡ o
prepend-nil none = refl
prepend-nil (some ys) = refl

visit-other :
    (step : Ptr → Ptr) (head fuel pos : ℕ)
    → head ≢ pos
    → visit step head (suc fuel) pos ≡ prepend (pos ∷ []) (visit step head fuel (step pos))
unfolding visit
visit-other step head fuel pos ne =
    let miss : (pos == head) ≡ false = ground arith in rw (visit, miss) refl

visit-head : (step : Ptr → Ptr) (head fuel : ℕ) → visit step head (suc fuel) head ≡ some []
unfolding visit
visit-head step head fuel = let hit : (head == head) ≡ true = ground arith in rw (visit, hit) refl

visit-forward :
    (h : Links) (head p : Ptr) (xs : List Ptr) (fuel : ℕ)
    → length xs < fuel
    → Seg h p xs head
    → NotIn head xs
    → visit h.next head fuel (h.next p) ≡ some xs
visit-forward h head p xs zero l s n = absurd (omega arith)
visit-forward h head p [] (suc fuel) l s n = rw s.0 (visit-head h.next head fuel)
visit-forward h head p (x ∷ xs) (suc fuel) l s n =
    ap (visit h.next head (suc fuel)) s.0
    ∙ visit-other h.next head fuel x n.0
    ∙ ap (prepend (x ∷ [])) (visit-forward h head x xs fuel (omega arith) s.2 n.1)

-- In a ring, with more fuel than it has elements, `list_for_each` passes each element once, in the
-- order of the list, and ends.
pub list_for_each-IsList :
    (h : Links) (head : Ptr) (xs : List Ptr) (fuel : ℕ)
    → IsList h head xs
    → length xs < fuel
    → list_for_each h head fuel ≡ some xs
unfolding list_for_each
list_for_each-IsList h head xs fuel i l = visit-forward h head head xs fuel l i.ring i.uniq.0

prepend-prepend :
    (xs ys : List Ptr) (o : Option (List Ptr)) → prepend xs (prepend ys o) ≡ prepend (xs ++ ys) o
prepend-prepend xs ys none = refl
prepend-prepend xs ys (some zs) = ap some (sym (append_assoc xs ys zs))

visit-back :
    (h : Links) (head p q : Ptr) (xs : List Ptr) (more fuel : ℕ)
    → more ≡ length xs + fuel
    → Seg h p xs q
    → NotIn head xs
    → visit h.prev head more (h.prev q) ≡ prepend (reverse xs) (visit h.prev head fuel p)
visit-back h head p q [] more fuel e s n =
    let same : more ≡ fuel = omega (arith, e) in rw (s.1, same) (sym (prepend-nil _))
visit-back h head p q (x ∷ xs) more fuel e s n =
    visit-back h head x q xs more (suc fuel) (omega (arith, e)) s.2 n.1
    ∙ ap (prepend (reverse xs)) (
        visit-other h.prev head fuel x n.0
        ∙ ap (λ r. prepend (x ∷ []) (visit h.prev head fuel r)) s.1)
    ∙ prepend-prepend (reverse xs) (x ∷ []) (visit h.prev head fuel p)
    ∙ ap (λ l. prepend l (visit h.prev head fuel p)) (sym (reverse-cons x xs))

-- In a ring, with more fuel than it has elements, `list_for_each_tail` passes each element once,
-- from the last to the first, and ends.
pub list_for_each_tail-IsList :
    (h : Links) (head : Ptr) (xs : List Ptr) (fuel : ℕ)
    → IsList h head xs
    → length xs < fuel
    → list_for_each_tail h head fuel ≡ some (reverse xs)
unfolding list_for_each_tail
list_for_each_tail-IsList h head xs zero i l = absurd (omega arith)
list_for_each_tail-IsList h head xs (suc fuel) i l =
    visit-back h head head head xs (suc fuel) (suc (fuel - length xs)) (omega (arith, l)) i.ring
      i.uniq.0
    ∙ ap (prepend (reverse xs)) (visit-head h.prev head (fuel - length xs))
    ∙ ap some (append-nil (reverse xs))
