-- ===== src/ListHead/Refine.antt =====
-- The functions of list.h refine operations on the list of the elements.
use emi.Prelude.{◌≡◌, sym, Bool, true, false, List, [], ◌∷◌, ◌++◌, arith}
use mathlib.Core.List.{append-nil}
use mathlib.Core.Path.{subst}
use emi.ListHead.{
  Ptr, Links, add_between, del_between, list_add, list_add_tail, list_del, list_move,
  list_move_tail, list_empty, init_list_head,
}
use emi.ListHead.Ring.{
  Seg, NotIn, IsList, last_of, first_of, Seg-last, Seg-first, Seg-cut, NotIn-append, NotIn-split,
  NotIn-last, NotIn-first, Uniq-to_front, Uniq-from_front,
}
use emi.ListHead.Ops.{add_between-Added, del_between-Removed, add_gap, del_gap}

abbrev pub is_nil : List Ptr → Bool
is_nil [] = true
is_nil (x ∷ r) = false

module _ (h : Links) (n head : Ptr) where
  -- Both kinds of insertion: between the two parts of the list.
  add_at :
      (pre post : List Ptr)
      → IsList h head (pre ++ post)
      → NotIn n (head ∷ pre ++ post)
      → IsList (add_between n (last_of head pre) (first_of post head) h) head (pre ++ n ∷ post)
  add_at pre post i new =
      let (out_pre, out_post) = NotIn-split n pre post new.1 in
      record {
        ring =
            add_gap h _ n head pre post head
              (add_between-Added n _ _ h (NotIn-last n head pre (new.0, out_pre))
                (NotIn-first n head post out_post new.0))
              i.uniq i.uniq.0 new new.0 i.ring;
        uniq = (
          NotIn-append head pre (n ∷ post) (NotIn-split head pre post i.uniq.0).0
              ((λ e. new.0 (sym e)), (NotIn-split head pre post i.uniq.0).1),
          Uniq-from_front pre n post (new.1, i.uniq.1),
        );
      }

  -- `list_add` puts a new element in front.
  pub list_add-cons :
      (xs : List Ptr)
      → IsList h head xs
      → NotIn n (head ∷ xs)
      → IsList (list_add n head h) head (n ∷ xs)
  unfolding list_add
  list_add-cons xs i new = rw (Seg-first h head xs head i.ring) (add_at [] xs i new)

  -- `list_add_tail` puts an element that is new to a list at its end.
  pub list_add_tail-append :
      (xs : List Ptr)
      → IsList h head xs
      → NotIn n (head ∷ xs)
      → IsList (list_add_tail n head h) head (xs ++ n ∷ [])
  unfolding list_add_tail
  list_add_tail-append xs i new =
      let all : xs ++ [] ≡ xs = append-nil xs in
      rw (Seg-last h head xs head i.ring) (
        add_at xs [] (subst (IsList h head) (sym all) i)
          (subst (λ l. NotIn n (head ∷ l)) (sym all) new))

module _ (h : Links) (e head : Ptr) (pre post : List Ptr)
    (i : IsList h head (pre ++ e ∷ post)) where
  cut : Seg h head pre e × Seg h e post head
  cut = Seg-cut h head pre e post head i.ring

  fresh : NotIn e (head ∷ pre ++ post)
  fresh =
      let (before, behind) = NotIn-split head pre (e ∷ post) i.uniq.0 in
      ((λ q. behind.0 (sym q)), (Uniq-to_front pre e post i.uniq.1).0)

  del_at : IsList (del_between (h.prev e) (h.next e) h) head (pre ++ post)
  del_at =
      let (before, behind) = NotIn-split head pre (e ∷ post) i.uniq.0 in
      record {
        ring =
            rw (Seg-last h head pre e cut.0, Seg-first h e post head cut.1)
              (del_gap h _ e head pre post head (del_between-Removed _ _ h) i.uniq i.uniq.0 i.ring);
        uniq = (NotIn-append head pre post before behind.1, (Uniq-to_front pre e post i.uniq.1).1);
      }

  -- `list_del` takes an element out of a list, wherever it stands.
  pub list_del-append : IsList (list_del e h) head (pre ++ post)
  unfolding list_del
  list_del-append = del_at

  -- `list_move` makes an element of a list its first.
  pub list_move-cons : IsList (list_move e head h) head (e ∷ pre ++ post)
  unfolding list_move
  list_move-cons =
      list_add-cons (del_between (h.prev e) (h.next e) h) e head (pre ++ post) del_at fresh

  -- `list_move_tail` makes an element of a list its last.
  pub list_move_tail-append : IsList (list_move_tail e head h) head ((pre ++ post) ++ e ∷ [])
  unfolding list_move_tail
  list_move_tail-append =
      list_add_tail-append (del_between (h.prev e) (h.next e) h) e head (pre ++ post) del_at fresh

-- A fresh head is an empty list, and `list_empty` tells whether a list is.
pub init_list_head-IsList : (h : Links) (head : Ptr) → IsList (init_list_head head h) head []
unfolding init_list_head
init_list_head-IsList h head = record { ring = ground arith; uniq = (tt, tt) }

pub list_empty_iff :
    (h : Links) (head : Ptr) (xs : List Ptr) → IsList h head xs → list_empty head h ≡ is_nil xs
unfolding list_empty
list_empty_iff h head [] i = ground (arith, i.ring)
list_empty_iff h head (x ∷ r) i = ground (arith, i.ring.0, i.uniq.0.0)
