-- ===== src/MsgTable/Bounds.antt =====
-- The index of a bucket against the length of the array, `EMI_MAX_MSG`, which is the mask itself.
use emi.Prelude.{
  ℕ, ◌%◌, ◌<◌, ◌≡◌, ◌≢◌, refl, Bool, true, false, Option, none, some, inl, inr, arith, ltb, lt→ltb,
  Bool-cases, ℤ,
}
use emi.Prelude.Bits.{mask_4095}
use emi.MsgTable.{
  MsgMap, Table, Found, emi_max_msg, load_chain, store_chain, hash_key, emi_hash, hsearch, any_same,
  hinsert_front, emi_hinsert, emi_hdelete,
}

pub hash_key-mod : (k : ℕ) → hash_key k ≡ k % 4096
unfolding hash_key
hash_key-mod k = mask_4095 k

pub emi_hash-lt : (map : MsgMap) → map.msg % 4096 ≢ 4095 → emi_hash map < emi_max_msg
unfolding emi_hash
emi_hash-lt map h = omega (arith, hash_key-mod map.msg)

load_last : (table : Table) (k : ℕ) → k % 4096 ≡ 4095 → load_chain table (hash_key k) ≡ none
unfolding load_chain
load_last table k h =
    let e : ltb (hash_key k) emi_max_msg ≡ false = ground (arith, hash_key-mod k) in rw e refl

-- The three operations of the table on a message number.
pub record AllFault (table : Table) (map : MsgMap) : Type 0 where
  pub search : (num : ℕ) → hsearch table map num ≡ none
  pub insert : (memory : Bool) → emi_hinsert memory table map ≡ none
  pub delete : emi_hdelete table map ≡ none

pub record NoneFaults (table : Table) (map : MsgMap) : Type 0 where
  pub search : (num : ℕ) → (r : Option Found) × (hsearch table map num ≡ some r)
  pub insert : (memory : Bool) → (r : ℤ × Table) × (emi_hinsert memory table map ≡ some r)
  pub delete : (r : ℤ × Table) × (emi_hdelete table map ≡ some r)

-- A message number whose low twelve bits are all ones makes every operation of the table read past
-- the end of the array.
pub last_bucket-AllFault :
    (table : Table) (map : MsgMap) → map.msg % 4096 ≡ 4095 → AllFault table map
unfolding hsearch emi_hinsert emi_hdelete emi_hash
last_bucket-AllFault table map h =
    let e = load_last table map.msg h in
    record { search = λ num. rw e refl; insert = λ memory. rw e refl; delete = rw e refl }

module _ (table : Table) (map : MsgMap) (inside : emi_hash map < emi_max_msg) where
  insert_result : (memory : Bool) → (r : ℤ × Table) × (emi_hinsert memory table map ≡ some r)
  unfolding emi_hinsert load_chain store_chain
  insert_result memory = elim (Bool-cases (any_same map (table (emi_hash map)))) [
    | inl e ↦ rw (lt→ltb _ _ inside, e) (_, refl)
    | inr e ↦ rw (lt→ltb _ _ inside, e) (front memory)
  ]
    where
      front : (memory : Bool) → (r : ℤ × Table) × (hinsert_front memory table map ≡ some r)
      front false = (_, refl)
      front true = rw (lt→ltb _ _ inside) (_, refl)

-- Every other message number stays inside it: no operation faults, with or without memory.
pub other_bucket-NoneFaults :
    (table : Table) (map : MsgMap) → map.msg % 4096 ≢ 4095 → NoneFaults table map
unfolding hsearch emi_hdelete load_chain store_chain emi_hash
other_bucket-NoneFaults table map h =
    let e = lt→ltb _ _ (emi_hash-lt map h) in
    record {
      search = λ num. rw e (_, refl);
      insert = insert_result table map (emi_hash-lt map h);
      delete = rw e (_, refl);
    }
