-- ===== src/ListHead.antt =====
-- include/list.h: circular doubly linked lists. Every `struct list_head` has an address, and the
-- memory gives the two links at each address. Each function is the sequence of its writes; a link
-- that an argument reads is read before the call, as in C.
pub mod Ring
pub mod Ops
pub mod Refine
pub mod Each
use emi.Prelude.{ℕ, Bool, true, false, not, ◌&&◌, ◌==◌, if◌then◌else◌, List, []}

abbrev pub Ptr : Type 0
Ptr = ℕ

pub record Links : Type 0 where
  pub next : Ptr → Ptr
  pub prev : Ptr → Ptr

-- `p->next = q`
unfoldable pub set_next : Ptr → Ptr → Links → Links
set_next p q h = record h { next = λ a. if a == p then q else h.next a }

-- `p->prev = q`
unfoldable pub set_prev : Ptr → Ptr → Links → Links
set_prev p q h = record h { prev = λ a. if a == p then q else h.prev a }

unfoldable pub init_list_head : Ptr → Links → Links
unfolding set_next set_prev
init_list_head l h = set_prev l l (set_next l l h)

-- `__list_add`
unfoldable pub add_between : (new_lst prev next : Ptr) → Links → Links
unfolding set_next set_prev
add_between new_lst prev next h =
    set_next prev new_lst (set_prev new_lst prev (set_next new_lst next (set_prev next new_lst h)))

unfoldable pub list_add : (new_lst head : Ptr) → Links → Links
unfolding add_between
list_add new_lst head h = add_between new_lst head (h.next head) h

unfoldable pub list_add_tail : (new_lst head : Ptr) → Links → Links
unfolding add_between
list_add_tail new_lst head h = add_between new_lst (h.prev head) head h

-- `__list_del`
unfoldable pub del_between : (prev next : Ptr) → Links → Links
unfolding set_next set_prev
del_between prev next h = set_next prev next (set_prev next prev h)

unfoldable pub list_del : Ptr → Links → Links
unfolding del_between
list_del entry h = del_between (h.prev entry) (h.next entry) h

unfoldable pub list_replace : (old new_lst : Ptr) → Links → Links
unfolding set_next set_prev
list_replace old new_lst h =
    let h1 = set_next new_lst (h.next old) h in
    let h2 = set_prev (h1.next new_lst) new_lst h1 in
    let h3 = set_prev new_lst (h2.prev old) h2 in set_next (h3.prev new_lst) new_lst h3

unfoldable pub list_move : (l head : Ptr) → Links → Links
unfolding del_between list_add
list_move l head h = list_add l head (del_between (h.prev l) (h.next l) h)

unfoldable pub list_move_tail : (l head : Ptr) → Links → Links
unfolding del_between list_add_tail
list_move_tail l head h = list_add_tail l head (del_between (h.prev l) (h.next l) h)

unfoldable pub list_is_last : (l head : Ptr) → Links → Bool
list_is_last l head h = h.next l == head

unfoldable pub list_empty : Ptr → Links → Bool
list_empty head h = h.next head == head

unfoldable pub list_is_singular : Ptr → Links → Bool
unfolding list_empty
list_is_singular head h = not (list_empty head h) && (h.next head == h.prev head)
