-- ===== src/ListHead/Ops.antt =====
-- The functions of list.h refine list operations.
use emi.Prelude.{◌≡◌, ◌≢◌, ◌∙◌, sym, List, [], ◌∷◌, ◌++◌, arith}
use emi.ListHead.{Ptr, Links, add_between, del_between}
use emi.ListHead.Ring.{
  Seg, NotIn, Uniq, last_of, first_of, Seg-frame, NotIn-append, NotIn-split, NotIn-last,
  NotIn-first,
}

-- What `__list_add` leaves in the four links that it writes, and in the others.
pub record Added (n a b : Ptr) (h g : Links) : Type 0 where
  next_a : g.next a ≡ n
  next_n : g.next n ≡ b
  prev_b : g.prev b ≡ n
  prev_n : g.prev n ≡ a
  nexts : (r : Ptr) → r ≢ a → r ≢ n → g.next r ≡ h.next r
  prevs : (r : Ptr) → r ≢ b → r ≢ n → g.prev r ≡ h.prev r

pub add_between-Added :
    (n a b : Ptr) (h : Links) → n ≢ a → n ≢ b → Added n a b h (add_between n a b h)
unfolding add_between
add_between-Added n a b h na nb = record {
  next_a = ground arith;
  next_n = ground arith;
  prev_b = ground arith;
  prev_n = ground arith;
  nexts = λ r p q. ground arith;
  prevs = λ r p q. ground arith;
}

pub add_gap :
    (h g : Links) (n p : Ptr) (pre post : List Ptr) (q : Ptr)
    → Added n (last_of p pre) (first_of post q) h g
    → Uniq (p ∷ pre ++ post)
    → NotIn q (pre ++ post)
    → NotIn n (p ∷ pre ++ post)
    → n ≢ q
    → Seg h p (pre ++ post) q
    → Seg g p (pre ++ n ∷ post) q
add_gap h g n p [] [] q w u nq nn ne s = (w.next_a, w.prev_n, (w.next_n, w.prev_b))
add_gap h g n p [] (y ∷ ys) q w u nq nn ne s = (
  w.next_a,
  w.prev_n,
  (
    w.next_n,
    w.prev_b,
    Seg-frame h g p n y n y ys q w.nexts w.prevs u.0 nn.1
        (NotIn-append y ys (q ∷ []) u.1.0 (λ e. nq.0 (sym e), tt))
        (NotIn-append n ys (q ∷ []) nn.1.1 (ne, tt)) s.2,
  ),
)
add_gap h g n p (x ∷ pre) post q w u nq nn ne s = (
  w.nexts p (NotIn-last p x pre (NotIn-split p (x ∷ pre) post u.0).0) (λ e. nn.0 (sym e)) ∙ s.0,
  w.prevs x (NotIn-first x q post (NotIn-split x pre post u.1.0).1 (λ e. nq.0 (sym e)))
        (λ e. nn.1.0 (sym e))
      ∙ s.1,
  add_gap h g n x pre post q w u.1 nq.1 nn.1 ne s.2,
)

pub record Removed (a b : Ptr) (h g : Links) : Type 0 where
  next_a : g.next a ≡ b
  prev_b : g.prev b ≡ a
  nexts : (r : Ptr) → r ≢ a → g.next r ≡ h.next r
  prevs : (r : Ptr) → r ≢ b → g.prev r ≡ h.prev r

pub del_between-Removed : (a b : Ptr) (h : Links) → Removed a b h (del_between a b h)
unfolding del_between
del_between-Removed a b h = record {
  next_a = ground arith;
  prev_b = ground arith;
  nexts = λ r p. ground arith;
  prevs = λ r p. ground arith;
}

pub del_gap :
    (h g : Links) (e p : Ptr) (pre post : List Ptr) (q : Ptr)
    → Removed (last_of p pre) (first_of post q) h g
    → Uniq (p ∷ pre ++ e ∷ post)
    → NotIn q (pre ++ e ∷ post)
    → Seg h p (pre ++ e ∷ post) q
    → Seg g p (pre ++ post) q
del_gap h g e p [] [] q w u nq s = (w.next_a, w.prev_b)
del_gap h g e p [] (y ∷ ys) q w u nq s = (
  w.next_a,
  w.prev_b,
  Seg-frame h g p p y y y ys q (λ r a b. w.nexts r a) (λ r a b. w.prevs r a) u.0.1 u.0.1
      (NotIn-append y ys (q ∷ []) u.1.1.0 (λ e. nq.1.0 (sym e), tt))
      (NotIn-append y ys (q ∷ []) u.1.1.0 (λ e. nq.1.0 (sym e), tt)) s.2.2,
)
del_gap h g e p (x ∷ pre) post q w u nq s = (
  w.nexts p (NotIn-last p x pre (NotIn-split p (x ∷ pre) (e ∷ post) u.0).0) ∙ s.0,
  w.prevs x (NotIn-first x q post (NotIn-split x pre (e ∷ post) u.1.0).1.1 (λ e. nq.0 (sym e)))
      ∙ s.1,
  del_gap h g e x pre post q w u.1 nq.1 s.2,
)
