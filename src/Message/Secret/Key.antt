-- ===== src/Message/Secret/Key.antt =====
-- `emi_aes_encrypt` and `emi_aes_decrypt` (emi_aes.c): how they make the key. The functions of the
-- library that they call are arguments.
use emi.Prelude.{
  ℕ, zero, suc, ◌+◌, ◌-◌, ◌<◌, ◌≤◌, ◌≡◌, ◌≢◌, refl, ap, sym, ◌∙◌, true, false, ◌||◌, Option, some,
  List, [], ◌∷◌, ◌++◌, ltb, leb, ◌==◌, if◌then◌else◌, length, take, set, get_elem?, length-append,
  length-set, get_elem?-set_self, get_elem?-set_ne, Bool-cases, ==_iff, inl, inr, arith, ℤ, pos,
  minus_one, is_nonzero,
}
use emi.Message.Secret.{Cipher}

-- `schedule_key`, with its result and both schedules, and `aes_encrypt` and `aes_decrypt`, with their
-- results and the block.
pub record Aes : Type 0 where
  pub schedule_key : (key : List ℕ) (keylen : ℕ) → ℤ × List ℕ × List ℕ
  pub aes_encrypt : (pt ek : List ℕ) (nr : ℕ) → ℤ × List ℕ
  pub aes_decrypt : (ct dk : List ℕ) (nr : ℕ) → ℤ × List ℕ

-- `unsigned char k[32]`
abbrev pub default_key : List ℕ
default_key =
    0x12 ∷ 0x45 ∷ 0xaf ∷ 0x31 ∷ 0x5e ∷ 0x96 ∷ 0xe3 ∷ 0xd6 ∷ 0x9d ∷ 0x7e ∷ 0x49 ∷ 0x19 ∷ 0x42 ∷ 0x38
    ∷ 0x48 ∷ 0x53 ∷ 0x1a ∷ 0x04 ∷ 0x32 ∷ 0x94 ∷ 0xa5 ∷ 0xd5 ∷ 0x4e ∷ 0x20 ∷ 0xe8 ∷ 0x21 ∷ 0x50
    ∷ 0x06 ∷ 0x0a ∷ 0x4d ∷ 0x58 ∷ 0x8a ∷ []

-- `for(;i>0;i--) k[i]=*key++;`. The bytes of the key are those before its zero byte, which `i` does
-- not exceed.
unfoldable pub key_loop : (i : ℕ) (key k : List ℕ) → List ℕ
key_loop zero key k = k
key_loop (suc i) [] k = k
key_loop (suc i) (b ∷ key) k = key_loop i key (set k (suc i) b)

unfoldable pub make_key : List ℕ → List ℕ
unfolding key_loop
make_key key = let i = length key in key_loop (if leb 32 i then 31 else i) key default_key

unfoldable pub emi_aes_encrypt : Aes → (pt out key : List ℕ) → ℤ × List ℕ
unfolding make_key
emi_aes_encrypt aes pt out key =
    let (r, ek, _) = aes.schedule_key (make_key key) 16 in
    if is_nonzero r
    then (minus_one, out)
    else (let (q, ct) = aes.aes_encrypt pt ek 10 in
        if is_nonzero q then (minus_one, ct) else (pos 0, ct))

unfoldable pub emi_aes_decrypt : Aes → (ct out key : List ℕ) → ℤ × List ℕ
unfolding make_key
emi_aes_decrypt aes ct out key =
    let (r, _, dk) = aes.schedule_key (make_key key) 16 in
    if is_nonzero r
    then (minus_one, out)
    else (let (q, pt) = aes.aes_decrypt ct dk 10 in
        if is_nonzero q then (minus_one, pt) else (pos 0, pt))

abbrev pub cipher : Aes → Cipher
cipher aes = record {
  encrypt = λ key block out. emi_aes_encrypt aes block out key;
  decrypt = λ key block out. emi_aes_decrypt aes block out key;
}

-- `schedule_key` reads as many bytes of the key as it is told.
abbrev pub ReadsKeylen : Aes → Type 0
ReadsKeylen aes =
    (key : List ℕ) (keylen : ℕ)
    → aes.schedule_key key keylen ≡ aes.schedule_key (take keylen key) keylen

key_loop-step :
    (i b : ℕ) (key k : List ℕ) (j : ℕ)
    → (suc i == j) ≡ false
    → (s r : Option ℕ) → r ≡ (if j == 0 || ltb i j then s else get_elem? key (i - j))
    → s ≡ get_elem? k j
    → r ≡ (if j == 0 || ltb (suc i) j then get_elem? k j else get_elem? (b ∷ key) (suc i - j))
key_loop-step i b key k j e s r ih other = elim (Bool-cases (j == 0 || ltb i j)) [
  | inl d ↦ let d' : (j == 0 || ltb (suc i) j) ≡ true = ground arith in ih ∙ rw (d, d') other
  | inr d ↦
      let d' : (j == 0 || ltb (suc i) j) ≡ false = ground arith in
      let less : suc i - j ≡ suc (i - j) = ground arith in ih ∙ rw (d, d', less) refl
]

-- Byte `j` of the key that is made: the first and those behind `i` are the default.
key_loop-at :
    (i : ℕ) (key k : List ℕ) (j : ℕ)
    → i ≤ length key
    → i < length k
    → get_elem? (key_loop i key k) j
      ≡ (if j == 0 || ltb i j then get_elem? k j else get_elem? key (i - j))
unfolding key_loop
key_loop-at zero key k j h l = ground arith
key_loop-at (suc i) [] k j h l = absurd (omega arith)
key_loop-at (suc i) (b ∷ key) k j h l =
    let ih =
      key_loop-at i key (set k (suc i) b) j (omega arith) (omega (arith, length-set k (suc i) b)) in
    elim (Bool-cases (suc i == j)) [
      | inl e ↦
          let here : suc i ≡ j = (==_iff _ _).0 e in
          let none_left : suc i - j ≡ 0 = omega (arith, here) in
          let default : (j == 0 || ltb i j) ≡ true = ground (arith, here) in
          let default' : (j == 0 || ltb (suc i) j) ≡ false = ground (arith, here) in
          ih
          ∙ rw (default, default', none_left)
              (ap (get_elem? (set k (suc i) b)) (sym here) ∙ get_elem?-set_self k (suc i) b l)
      | inr e ↦
          let apart : suc i ≢ j = ground arith in
          let other = get_elem?-set_ne k b apart in
          key_loop-step i b key k j e (get_elem? (set k (suc i) b) j) _ ih other
    ]

get_elem?-append_right : (a c : List ℕ) (m : ℕ) → get_elem? (a ++ c) (length a + m) ≡ get_elem? c m
get_elem?-append_right [] c m = let same : 0 + m ≡ m = omega arith in rw same refl
get_elem?-append_right (x ∷ a) c m =
    let next : suc (length a) + m ≡ suc (length a + m) = omega arith in
    rw next (get_elem?-append_right a c m)

-- Two lists that agree below `n` begin alike.
take-agree :
    (n : ℕ) (k l : List ℕ) → ((j : ℕ) → j < n → get_elem? k j ≡ get_elem? l j) → take n k ≡ take n l
take-agree zero k l h = refl
take-agree (suc n) [] [] h = refl
take-agree (suc n) [] (y ∷ l) h = cc (h 0 (omega arith))
take-agree (suc n) (x ∷ k) [] h = cc (h 0 (omega arith))
take-agree (suc n) (x ∷ k) (y ∷ l) h =
    let rest = take-agree n k l (λ j lt. h (suc j) (omega arith)) in
    let first : x ≡ y = cc (h 0 (omega arith)) in cc

make_key-byte :
    (a c : List ℕ) (j : ℕ)
    → length c ≡ 15
    → j < 16
    → length (a ++ c) ≡ length a + length c
    → (if j == 0 || ltb (length (a ++ c)) j
        then get_elem? default_key j
        else get_elem? (a ++ c) (length (a ++ c) - j))
      ≡ (if j == 0 then some 0x12 else get_elem? c (15 - j))
make_key-byte a c zero n lt whole = refl
make_key-byte a c (suc j) n lt whole =
    let within : ltb (length (a ++ c)) (suc j) ≡ false = ground arith in
    let from_end : length (a ++ c) - suc j ≡ length a + (15 - suc j) = omega (arith, whole) in
    let some_byte : (suc j == 0) ≡ false = ground arith in
    rw (within, from_end, some_byte) (get_elem?-append_right a c (15 - suc j))

-- Byte `j` of the key, from 1 to 15, is the `j`th of the last bytes.
make_key-at :
    (a c : List ℕ) (j : ℕ)
    → length c ≡ 15
    → length a ≤ 16
    → j < 16
    → get_elem? (make_key (a ++ c)) j ≡ (if j == 0 then some 0x12 else get_elem? c (15 - j))
unfolding make_key
make_key-at a c j n room lt =
    let whole = length-append a c in
    let short : leb 32 (length (a ++ c)) ≡ false = ground arith in
    let at =
      key_loop-at (length (a ++ c)) (a ++ c) default_key j (omega arith) (omega (arith, whole)) in
    rw short (at ∙ make_key-byte a c j n lt whole)

make_key-tail :
    (a b c : List ℕ)
    → length c ≡ 15
    → length a ≤ 16
    → length b ≤ 16
    → take 16 (make_key (a ++ c)) ≡ take 16 (make_key (b ++ c))
make_key-tail a b c n ha hb =
    take-agree 16 (make_key (a ++ c)) (make_key (b ++ c))
      (λ j lt. make_key-at a c j n ha lt ∙ sym (make_key-at b c j n hb lt))

-- Of a key of up to 31 bytes only the last 15 count: with a `schedule_key` that reads 16 bytes when it
-- is told that the key has 16, two keys that end in the same 15 bytes encrypt and decrypt alike,
-- whatever stands before those.
pub emi_aes-forgets :
    (aes : Aes) (a b c : List ℕ)
    → ReadsKeylen aes
    → length c ≡ 15
    → length a ≤ 16
    → length b ≤ 16
    → (block out : List ℕ)
    → (emi_aes_encrypt aes block out (a ++ c) ≡ emi_aes_encrypt aes block out (b ++ c))
      × (emi_aes_decrypt aes block out (a ++ c) ≡ emi_aes_decrypt aes block out (b ++ c))
unfolding emi_aes_encrypt emi_aes_decrypt
emi_aes-forgets aes a b c reads n ha hb block out =
    let same =
      reads (make_key (a ++ c)) 16
      ∙ ap (λ k. aes.schedule_key k 16) (make_key-tail a b c n ha hb)
      ∙ sym (reads (make_key (b ++ c)) 16) in
    (rw same refl, rw same refl)
