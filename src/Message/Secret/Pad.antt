-- ===== src/Message/Secret/Pad.antt =====
-- The pad of 16 bytes.
use emi.Prelude.{
  is_some, ℕ, zero, suc, ◌+◌, ◌-◌, ◌%◌, ◌≤◌, ◌<◌, ◌≡◌, refl, ◌∙◌, sym, true, false, Option, none,
  some, List, [], ◌∷◌, ltb, leb, ◌==◌, if◌then◌else◌, length, take, drop, get_elem?, length-take,
  replicate, arith, ℤ, is_negative, Option-cases, inl, inr,
}
use emi.Message.{EmiMsg}
use emi.MsgTable.{◌>>=◌}
use emi.Message.Secret.{Cipher, next_j, sub_pad, add_pad, encode_aes, decode_aes}

abbrev pub AllBytes : List ℕ → Type 0
AllBytes [] = Unit {0}
AllBytes (b ∷ l) = (b < 256) × AllBytes l

-- Adding a pad of bytes gives back the bytes that it was subtracted from.
pub add_pad-sub_pad :
    (p : List ℕ) (j : ℕ) (l r : List ℕ)
    → ((i k : ℕ) → get_elem? p i ≡ some k → k < 256)
    → AllBytes l
    → sub_pad p j l ≡ some r
    → add_pad p j r ≡ some l
unfolding sub_pad add_pad
add_pad-sub_pad p j [] r bytes all h = ground arith
add_pad-sub_pad p j (b ∷ l) r bytes all h = elim (Option-cases (get_elem? p j)) [
  | inl e ↦ ground arith
  | inr (k, e) ↦ elim (Option-cases (sub_pad p (next_j j) l)) [
    | inl f ↦ ground arith
    | inr (rest, f) ↦
        let small = bytes j k e in
        let ih = add_pad-sub_pad p (next_j j) l rest bytes all.1 f in
        let back : ((b + (256 - k)) % 256 + k) % 256 ≡ b = omega (arith, all.0) in
        let run : sub_pad p j (b ∷ l) ≡ some ((b + (256 - k)) % 256 ∷ rest) =
          rw (e, sub_pad, f) refl in
        let whole : r ≡ (b + (256 - k)) % 256 ∷ rest = cc (h, run) in
        rw (whole, e, add_pad, ih, back) refl
  ]
]

shift : (i n : ℕ) → ltb i n ≡ ltb (suc i) (suc n)
shift i n = ground arith

get_elem?-within : (p : List ℕ) (i : ℕ) → is_some (get_elem? p i) ≡ ltb i (length p)
get_elem?-within [] i = ground arith
get_elem?-within (x ∷ p) zero = ground arith
get_elem?-within (x ∷ p) (suc i) = get_elem?-within p i ∙ shift i (length p)

is_some-bind {ℓ κ} :
    {A : Type ℓ} {B : Type κ} (o : Option A) (f : A → B)
    → is_some (o >>= λ a. some (f a)) ≡ is_some o
is_some-bind none f = refl
is_some-bind (some a) f = refl

-- From `j` on, a pad of 16 bytes serves for the bytes up to its end and no more.
sub_pad-reach :
    (p : List ℕ) (j : ℕ) (l : List ℕ)
    → length p ≡ 16
    → j ≤ 16
    → is_some (sub_pad p j l) ≡ leb (j + length l) 16
unfolding sub_pad
sub_pad-reach p j [] n h = ground arith
sub_pad-reach p j (b ∷ l) n h = elim (Option-cases (get_elem? p j)) [
  | inl e ↦
      let far : is_some (get_elem? p j) ≡ false = rw e refl in
      let past : ltb j (length p) ≡ false = sym (get_elem?-within p j) ∙ far in
      let over : leb (j + suc (length l)) 16 ≡ false = ground arith in rw (e, sub_pad, over) refl
  | inr (k, e) ↦
      let near : is_some (get_elem? p j) ≡ true = rw e refl in
      let inside : ltb j (length p) ≡ true = sym (get_elem?-within p j) ∙ near in
      let step : next_j j ≡ suc j = ground arith in
      let ih = sub_pad-reach p (suc j) l n (ground arith) in
      let more : leb (suc j + length l) 16 ≡ leb (j + suc (length l)) 16 = ground arith in
      rw (e, sub_pad, step)
        (is_some-bind (sub_pad p (suc j) l) (λ r. (b + (256 - k)) % 256 ∷ r) ∙ ih ∙ more)
]

-- Adding reaches as far as subtracting.
add_pad-like : (c : List ℕ) (j : ℕ) (l : List ℕ) → is_some (add_pad c j l) ≡ is_some (sub_pad c j l)
unfolding add_pad sub_pad
add_pad-like c j [] = refl
add_pad-like c j (b ∷ l) = ground (arith, add_pad-like c (next_j j) l)

-- With 16 random bytes, `emi_msg_encode_aes` of data that are there stays inside the pad and the
-- data exactly if there are 16 bytes: the pad is read beyond its end from the seventeenth byte on,
-- and a shorter message has no room for the encrypted pad.
pub encode_aes-sixteen :
    (aes : Cipher) (p key : List ℕ) (ret : ℤ) (m : EmiMsg)
    → is_negative ret ≡ false
    → length p ≡ 16
    → m.size ≤ length m.payload
    → is_some (encode_aes aes (ret, p) key m) ≡ (m.size == 16)
unfolding encode_aes
encode_aes-sixteen aes p key ret m ok n room =
    let covers = length-take m.size m.payload in
    let reach = sub_pad-reach p 0 (take m.size m.payload) n (omega arith) in
    ground (arith, covers, reach)

-- `emi_msg_decode_aes` with a cipher that gives 16 bytes stays inside them exactly if the message
-- has from 16 to 32 bytes.
pub decode_aes-reach :
    (aes : Cipher) (key : List ℕ) (m : EmiMsg)
    → ((k b o : List ℕ) → is_negative (aes.decrypt k b o).0 ≡ false)
    → ((k b o : List ℕ) → length (aes.decrypt k b o).1 ≡ 16)
    → m.size ≤ length m.payload
    → is_some (decode_aes aes key m) ≡ (if ltb m.size 16 then false else leb m.size 32)
unfolding decode_aes
decode_aes-reach aes key m ok n room =
    let left = m.size - 16 in
    let tail = take 16 (drop left m.payload) in
    let c = (aes.decrypt key tail (replicate 16 0)).1 in
    let covers = length-take left m.payload in
    let reach =
      add_pad-like c 0 (take left m.payload)
      ∙ sub_pad-reach c 0 (take left m.payload) (n key tail (replicate 16 0)) (omega arith) in
    ground (arith, covers, reach, ok key tail (replicate 16 0))
