-- ===== src/MsgTable/Registry.antt =====
-- The table as a set of registrations: `emi_hinsert` adds one, `emi_hdelete` takes one out.
use emi.Prelude.{
  ℕ, ◌<◌, ◌≡◌, refl, ap, sym, ◌∙◌, Bool, true, false, not, ◌&&◌, ◌||◌, some, [], ◌∷◌, inl, inr,
  arith, ◌==◌, lt→ltb, Bool-cases, if◌then◌else◌, ℤ, pos, minus_one,
}
use mathlib.Core.Path.{fun_ext, subst}
use emi.MsgTable.{
  MsgMap, msg_map, Chain, Table, emi_max_msg, load_chain, store_chain, hash_key, emi_hash, any_same,
  emi_hinsert, delete_after, delete_chain, emi_hdelete, ◌>>=◌,
}

-- Two registrations are the same: number and process.
abbrev pub same : MsgMap → MsgMap → Bool
same a b = (a.msg == b.msg) && (a.pid == b.pid)

-- The abstract view: is this registration in the table?
unfoldable pub registered : Table → MsgMap → Bool
registered table q = any_same q (table (emi_hash q))

-- The chain without its first copy of `map`.
unfoldable pub remove_first : MsgMap → Chain → Chain
remove_first map [] = []
remove_first map (x ∷ c) = if same x map then c else x ∷ remove_first map c

-- No registration twice in a chain.
abbrev pub Distinct : Chain → Type 0
Distinct [] = Unit {0}
Distinct (x ∷ c) = (any_same x c ≡ false) × Distinct c

-- Every node stands in the bucket of its number.
abbrev pub Placed : ℕ → Chain → Type 0
Placed i [] = Unit {0}
Placed i (x ∷ c) = (emi_hash x ≡ i) × Placed i c

pub record IsWellFormed (table : Table) : Type 0 where
  pub distinct : (i : ℕ) → i < emi_max_msg → Distinct (table i)
  pub placed : (i : ℕ) → i < emi_max_msg → Placed i (table i)

delete_after-remove_first :
    (map x : MsgMap) (c : Chain)
    → same x map ≡ false
    → delete_after map (x ∷ c)
      ≡ ((if any_same map c then pos 0 else minus_one), x ∷ remove_first map c)
unfolding delete_after any_same remove_first
delete_after-remove_first map x [] miss = refl
delete_after-remove_first map x (y ∷ c) miss = elim (Bool-cases (same y map)) [
  | inl hit ↦ rw hit refl
  | inr other ↦ rw (other, delete_after-remove_first map y c other) refl
]

-- `emi_hdelete` on a chain takes out the first copy, and answers 0 exactly if there is one.
pub delete_chain-remove_first :
    (map : MsgMap) (c : Chain)
    → delete_chain map c ≡ ((if any_same map c then pos 0 else minus_one), remove_first map c)
unfolding delete_chain any_same remove_first
delete_chain-remove_first map [] = refl
delete_chain-remove_first map (x ∷ c) = elim (Bool-cases (same x map)) [
  | inl hit ↦ rw hit refl
  | inr miss ↦ rw (miss, delete_after-remove_first map x c miss) refl
]

any_same-congr : (a b : MsgMap) (c : Chain) → same a b ≡ true → any_same a c ≡ any_same b c
unfolding any_same
any_same-congr a b [] e = refl
any_same-congr a b (x ∷ c) e = ground (arith, any_same-congr a b c)

any_same-remove_first :
    (m q : MsgMap) (c : Chain)
    → Distinct c
    → any_same q (remove_first m c) ≡ (any_same q c && not (same m q))
unfolding any_same remove_first
any_same-remove_first m q [] d = refl
any_same-remove_first m q (x ∷ c) d = ground (
  arith,
  any_same-remove_first m q c,
  any_same-congr x m c,
  any_same-congr q m c,
  any_same-congr q x c,
)

Distinct-remove_first : (m : MsgMap) (c : Chain) → Distinct c → Distinct (remove_first m c)
unfolding any_same remove_first
Distinct-remove_first m [] d = d
Distinct-remove_first m (x ∷ c) d = elim (Bool-cases (same x m)) [
  | inl hit ↦ rw hit d.1
  | inr miss ↦
      rw miss (ground (arith, any_same-remove_first m x c d.1), Distinct-remove_first m c d.1)
]

Placed-remove_first : (i : ℕ) (m : MsgMap) (c : Chain) → Placed i c → Placed i (remove_first m c)
unfolding remove_first
Placed-remove_first i m [] p = p
Placed-remove_first i m (x ∷ c) p = elim (Bool-cases (same x m)) [
  | inl hit ↦ rw hit p.1
  | inr miss ↦ rw miss (p.0, Placed-remove_first i m c p.1)
]

-- A bucket replaced.
abbrev pub put : Table → ℕ → Chain → Table
put table i c j = if j == i then c else table j

put-IsWellFormed :
    (table : Table) (i : ℕ) (c : Chain)
    → IsWellFormed table
    → Distinct c
    → Placed i c
    → IsWellFormed (put table i c)
put-IsWellFormed table i c w d p = record {
  distinct = λ j lt. elim (Bool-cases (j == i)) [ inl e ↦ rw e d | inr e ↦ rw e (w.distinct j lt) ];
  placed = λ j lt. elim (Bool-cases (j == i)) [
    | inl e ↦ rw e (subst (λ k. Placed k c) (ground arith) p)
    | inr e ↦ rw e (w.placed j lt)
  ];
}

hash_congr : (a b : MsgMap) → same a b ≡ true → emi_hash a ≡ emi_hash b
unfolding emi_hash
hash_congr a b e = ap hash_key (ground arith)

registered-put :
    (table : Table) (i : ℕ) (c : Chain) (q : MsgMap)
    → registered (put table i c) q ≡ (if emi_hash q == i then any_same q c else registered table q)
unfolding registered
registered-put table i c q = elim (Bool-cases (emi_hash q == i)) [
  | inl e ↦ rw e refl
  | inr e ↦ rw e refl
]

registered_congr :
    (table : Table) (a b : MsgMap) → same a b ≡ true → registered table a ≡ registered table b
unfolding registered
registered_congr table a b e =
    any_same-congr a b _ e ∙ ap (λ i. any_same b (table i)) (hash_congr a b e)

registered_here :
    (table : Table) (m q : MsgMap)
    → (emi_hash q == emi_hash m) ≡ true
    → any_same q (table (emi_hash m)) ≡ registered table q
unfolding registered
registered_here table m q e = ap (λ i. any_same q (table i)) (ground arith)

any_same-cons :
    (m q : MsgMap) (c : Chain) → any_same q (msg_map m.msg m.pid ∷ c) ≡ (same m q || any_same q c)
unfolding any_same
any_same-cons m q c = ground arith

registered_self :
    (table : Table) (m : MsgMap) → any_same m (table (emi_hash m)) ≡ registered table m
unfolding registered
registered_self table m = refl

-- What `emi_hinsert` of `m` promises.
pub record Inserts (table : Table) (m : MsgMap) (r : ℤ × Table) : Type 0 where
  pub code : r.0 ≡ (if registered table m then pos 1 else pos 0)
  pub members : (q : MsgMap) → registered r.1 q ≡ (registered table q || same m q)
  pub well_formed : IsWellFormed r.1

-- What `emi_hdelete` of `m` promises.
pub record Deletes (table : Table) (m : MsgMap) (r : ℤ × Table) : Type 0 where
  pub code : r.0 ≡ (if registered table m then pos 0 else minus_one)
  pub members : (q : MsgMap) → registered r.1 q ≡ (registered table q && not (same m q))
  pub well_formed : IsWellFormed r.1

delete_head : (m : MsgMap) (c : Chain) → delete_chain m (msg_map m.msg m.pid ∷ c) ≡ (pos 0, c)
unfolding delete_chain
delete_head m c = let twin : same (msg_map m.msg m.pid) m ≡ true = ground arith in rw twin refl

put_back : (table : Table) (i : ℕ) (c : Chain) → put (put table i c) i (table i) ≡ table
put_back table i c =
    fun_ext
      λ j. elim (Bool-cases (j == i)) [ inl e ↦ rw e (ap table (ground arith)) | inr e ↦ rw e refl ]

pub hdelete_head :
    (table : Table) (m : MsgMap) (c : Chain)
    → emi_hash m < emi_max_msg
    → table (emi_hash m) ≡ msg_map m.msg m.pid ∷ c
    → emi_hdelete table m ≡ some (pos 0, put table (emi_hash m) c)
unfolding emi_hdelete load_chain store_chain
hdelete_head table m c inside top = rw (lt→ltb _ _ inside, top, delete_head m c) refl

-- For a number that has a bucket, and with memory, deleting a registration that was not there
-- when it was inserted answers 0 and gives the table back as it was.
pub hdelete-hinsert :
    (table : Table) (m : MsgMap)
    → emi_hash m < emi_max_msg
    → registered table m ≡ false
    → (emi_hinsert true table m >>= λ r. emi_hdelete r.1 m) ≡ some (pos 0, table)
unfolding emi_hinsert load_chain store_chain registered
hdelete-hinsert table m inside absent =
    let i = emi_hash m in
    let c = msg_map m.msg m.pid ∷ table i in
    let self : (i == i) ≡ true = ground arith in
    rw (lt→ltb _ _ inside, absent)
      (hdelete_head (put table i c) m (table i) inside (rw self refl)
        ∙ ap (λ t. some (pos 0, t)) (put_back table i c))

module _ (table : Table) (m : MsgMap) (w : IsWellFormed table)
    (inside : emi_hash m < emi_max_msg) where
  -- On a well-formed table, with memory, and for a number that has a bucket, `emi_hinsert` adds
  -- exactly the registration asked for, answers 1 if it was there and 0 if not, and keeps the
  -- table well formed.
  pub emi_hinsert-Inserts :
      (r : ℤ × Table) × (emi_hinsert true table m ≡ some r) × Inserts table m r
  unfolding emi_hinsert load_chain store_chain
  emi_hinsert-Inserts = elim (Bool-cases (any_same m (table (emi_hash m)))) [
    | inl there ↦ (
      (pos 1, table),
      rw (lt→ltb _ _ inside, there) refl,
      record {
        code = rw (sym (registered_self table m), there) refl;
        members = λ q. ground (arith, registered_congr table m q, registered_self table m);
        well_formed = w;
      },
    )
    | inr absent ↦ (
      (pos 0, put table (emi_hash m) (msg_map m.msg m.pid ∷ table (emi_hash m))),
      rw (lt→ltb _ _ inside, absent) refl,
      record {
        code = rw (sym (registered_self table m), absent) refl;
        members = λ q.
            rw (registered-put, any_same-cons)
              (ground (arith, hash_congr m q, registered_here table m q));
        well_formed =
            put-IsWellFormed table (emi_hash m) _ w (absent, w.distinct _ inside)
              (refl, w.placed _ inside);
      },
    )
  ]

  -- On a well-formed table and for a number that has a bucket, `emi_hdelete` takes out exactly
  -- the registration asked for, answers 0 if it was there and -1 if not, and keeps the table well
  -- formed.
  pub emi_hdelete-Deletes : (r : ℤ × Table) × (emi_hdelete table m ≡ some r) × Deletes table m r
  unfolding emi_hdelete load_chain store_chain
  emi_hdelete-Deletes = (
    (
      (if any_same m (table (emi_hash m)) then pos 0 else minus_one),
      put table (emi_hash m) (remove_first m (table (emi_hash m))),
    ),
    rw (lt→ltb _ _ inside, delete_chain-remove_first m (table (emi_hash m))) refl,
    record {
      code = rw (sym (registered_self table m)) refl;
      members = λ q.
          rw (registered-put, any_same-remove_first m q _ (w.distinct _ inside))
            (ground (arith, hash_congr m q, registered_here table m q));
      well_formed =
          put-IsWellFormed table (emi_hash m) _ w (Distinct-remove_first m _ (w.distinct _ inside))
            (Placed-remove_first _ m _ (w.placed _ inside));
    },
  )
