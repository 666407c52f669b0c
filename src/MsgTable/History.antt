-- ===== src/MsgTable/History.antt =====
-- The table from its start, `init_msg_table` (emi_core.c), through any sequence of insertions and
-- deletions.
mod Examples
use emi.Prelude.{
  ℕ, ◌<◌, ◌≡◌, refl, sym, ap, ◌∙◌, Bool, true, false, not, ◌&&◌, ◌||◌, Option, none, some, List, [],
  ◌∷◌, ltb, lt→ltb, if◌then◌else◌, arith,
}
use mathlib.Core.Path.{fun_ext}
use emi.MsgTable.{MsgMap, Table, emi_max_msg, emi_hash, any_same, emi_hinsert, emi_hdelete, ◌>>=◌}
use emi.MsgTable.Registry.{
  same, registered, IsWellFormed, Inserts, Deletes, emi_hinsert-Inserts, emi_hdelete-Deletes,
}

-- The loop of `init_msg_table`.
unfoldable pub init_msg_table : Table → Table
init_msg_table table i = if ltb i emi_max_msg then [] else table i

pub data Change : Type 0 where
  insert delete : MsgMap → Change

abbrev pub node_of : Change → MsgMap
node_of (insert m) = m
node_of (delete m) = m

-- One change, with memory.
abbrev pub apply : Change → Table → Option Table
apply (insert m) table = emi_hinsert true table m >>= λ r. some r.1
apply (delete m) table = emi_hdelete table m >>= λ r. some r.1

unfoldable pub apply_all : List Change → Table → Option Table
apply_all [] table = some table
apply_all (c ∷ cs) table = apply c table >>= apply_all cs

-- The set of registrations after a change.
abbrev pub member : Change → (MsgMap → Bool) → MsgMap → Bool
member (insert m) set q = set q || same m q
member (delete m) set q = set q && not (same m q)

abbrev pub members : List Change → (MsgMap → Bool) → MsgMap → Bool
members [] set = set
members (c ∷ cs) set = members cs (member c set)

abbrev pub AllInside : List Change → Type 0
AllInside [] = Unit {0}
AllInside (c ∷ cs) = (emi_hash (node_of c) < emi_max_msg) × AllInside cs

apply-member :
    (c : Change) (table : Table)
    → IsWellFormed table
    → emi_hash (node_of c) < emi_max_msg
    → (table' : Table) × (apply c table ≡ some table')
      × IsWellFormed table'
      × ((q : MsgMap) → registered table' q ≡ member c (registered table) q)
apply-member (insert m) table w inside =
    let (r, run, ins) = emi_hinsert-Inserts table m w inside in
    (r.1, rw run refl, ins.well_formed, ins.members)
apply-member (delete m) table w inside =
    let (r, run, del) = emi_hdelete-Deletes table m w inside in
    (r.1, rw run refl, del.well_formed, del.members)

apply_all-members :
    (cs : List Change) (table : Table)
    → IsWellFormed table
    → AllInside cs
    → (table' : Table) × (apply_all cs table ≡ some table')
      × IsWellFormed table'
      × ((q : MsgMap) → registered table' q ≡ members cs (registered table) q)
unfolding apply_all
apply_all-members [] table w inside = (table, refl, w, λ q. refl)
apply_all-members (c ∷ cs) table w inside =
    let (t, run, w', here) = apply-member c table w inside.0 in
    let (u, run', w'', rest) = apply_all-members cs t w' inside.1 in
    (u, rw (run, run') refl, w'', λ q. rest q ∙ ap (λ set. members cs set q) (fun_ext here))

init-IsWellFormed : (table : Table) → IsWellFormed (init_msg_table table)
unfolding init_msg_table
init-IsWellFormed table = record {
  distinct = λ i lt. rw (lt→ltb i emi_max_msg lt) tt;
  placed = λ i lt. rw (lt→ltb i emi_max_msg lt) tt;
}

init-registered :
    (table : Table) (q : MsgMap)
    → emi_hash q < emi_max_msg
    → registered (init_msg_table table) q ≡ false
unfolding init_msg_table registered any_same
init-registered table q inside = rw (lt→ltb _ _ inside) refl

members-at :
    (cs : List Change) (f g : MsgMap → Bool) (q : MsgMap)
    → f q ≡ g q
    → members cs f q ≡ members cs g q
members-at [] f g q e = e
members-at (insert m ∷ cs) f g q e =
    members-at cs (member (insert m) f) (member (insert m) g) q (ap (λ b. b || same m q) e)
members-at (delete m ∷ cs) f g q e =
    members-at cs (member (delete m) f) (member (delete m) g) q (ap (λ b. b && not (same m q)) e)

-- From the table that `init_msg_table` leaves, whatever it held before, every sequence of
-- insertions, with memory, and deletions of numbers that have a bucket runs to its end without a
-- fault and leaves a well-formed table; and a registration whose number has a bucket is in it
-- exactly if it is in the set that the same insertions and deletions make of the empty set.
pub apply_all-init :
    (table : Table) (cs : List Change) (q : MsgMap)
    → AllInside cs
    → emi_hash q < emi_max_msg
    → (final : Table) × (apply_all cs (init_msg_table table) ≡ some final)
      × IsWellFormed final
      × (registered final q ≡ members cs (λ p. false) q)
apply_all-init table cs q all inside =
    let (t, run, w, same_set) =
      apply_all-members cs (init_msg_table table) (init-IsWellFormed table) all in
    (
      t,
      run,
      w,
      same_set q
          ∙ members-at cs (registered (init_msg_table table)) (λ p. false) q
              (init-registered table q inside),
    )
