-- ===== src/Message/Secret/Lost.antt =====
-- A message that is encoded and then decoded (`emi_msg_encode_aes`, `emi_msg_decode_aes` in emi_if.c).
use emi.Prelude.{
  ℕ, zero, suc, ◌+◌, ◌-◌, ◌≤◌, ◌≡◌, refl, ap, sym, ◌∙◌, true, false, some, List, [], ◌∷◌, ◌++◌,
  ==_iff, length, take, drop, replicate, is_some, length-append, Bool-cases, Option-cases, inl, inr,
  arith, ℤ, pos, negsuc, is_nonzero, is_negative,
}
use emi.Message.{EmiMsg}
use emi.Message.Secret.{Cipher, sub_pad, add_pad, encode_aes, decode_aes}
use emi.Message.Secret.Pad.{encode_aes-sixteen}
use emi.Message.Secret.Key.{Aes, make_key, emi_aes_encrypt, emi_aes_decrypt, cipher}

-- With the schedules of one key, `aes_decrypt` takes back what `aes_encrypt` made, a block of 16 bytes.
pub record IsBlockCipher (aes : Aes) : Type 0 where
  pub inverts :
      (k pt ct : List ℕ)
      → aes.aes_encrypt pt (aes.schedule_key k 16).1 10 ≡ (pos 0, ct)
      → aes.aes_decrypt ct (aes.schedule_key k 16).2 10 ≡ (pos 0, pt)
  pub block :
      (k pt ct : List ℕ)
      → aes.aes_encrypt pt (aes.schedule_key k 16).1 10 ≡ (pos 0, ct)
      → length ct ≡ 16

no_error : (q : ℤ) → is_nonzero q ≡ false → q ≡ pos 0
no_error (pos n) e = ground arith
no_error (negsuc n) e = cc e

abbrev Recovers : Aes → (key pt : List ℕ) → ℤ × List ℕ → Type 0
Recovers aes key pt r =
    (length r.1 ≡ 16) × ((out : List ℕ) → emi_aes_decrypt aes r.1 out key ≡ (pos 0, pt))

emi_aes_decrypt-encrypt :
    (aes : Aes) (key pt out : List ℕ)
    → IsBlockCipher aes
    → is_negative (emi_aes_encrypt aes pt out key).0 ≡ false
    → Recovers aes key pt (emi_aes_encrypt aes pt out key)
unfolding emi_aes_encrypt emi_aes_decrypt
emi_aes_decrypt-encrypt aes key pt out c ok =
    let k = make_key key in
    let run = aes.aes_encrypt pt (aes.schedule_key k 16).1 10 in
    elim (Bool-cases (is_nonzero (aes.schedule_key k 16).0)) [
      | inl bad ↦ ground arith
      | inr scheduled ↦ elim (Bool-cases (is_nonzero run.0)) [
        | inl bad ↦ ground arith
        | inr clean ↦
            let made : run ≡ (pos 0, run.1) = ap (λ (q : ℤ). (q, run.1)) (no_error run.0 clean) in
            let back = c.inverts k pt run.1 made in
            rw (scheduled, clean) (c.block k pt run.1 made, λ o. rw back refl)
      ]
    ]

take-append {ℓ} : {A : Type ℓ} (xs ys : List A) (n : ℕ) → length xs ≡ n → take n (xs ++ ys) ≡ xs
take-append [] ys zero e = refl
take-append [] ys (suc n) e = absurd (omega (arith, e))
take-append (x ∷ xs) ys zero e = absurd (omega (arith, e))
take-append (x ∷ xs) ys (suc n) e = ap (λ l. x ∷ l) (take-append xs ys n (omega (arith, e)))

drop-append {ℓ} : {A : Type ℓ} (xs ys : List A) (n : ℕ) → length xs ≡ n → drop n (xs ++ ys) ≡ ys
drop-append [] ys zero e = refl
drop-append [] ys (suc n) e = absurd (omega (arith, e))
drop-append (x ∷ xs) ys zero e = absurd (omega (arith, e))
drop-append (x ∷ xs) ys (suc n) e = drop-append xs ys n (omega (arith, e))

-- A message of 16 bytes that begins with an encrypted block decodes to no bytes.
decode_aes-block :
    (aes : Aes) (key block rest pt : List ℕ) (m : EmiMsg)
    → m.size ≡ 16
    → m.payload ≡ block ++ rest
    → length block ≡ 16
    → ((out : List ℕ) → emi_aes_decrypt aes block out key ≡ (pos 0, pt))
    → decode_aes (cipher aes) key m
      ≡ some (pos 0, record m { size = 0; payload = replicate 16 0 ++ rest })
unfolding decode_aes add_pad
decode_aes-block aes key block rest pt m n e b back =
    let whole = length-append block rest in
    let taken : take 16 (drop (m.size - 16) m.payload) ≡ block =
      let none_left : m.size - 16 ≡ 0 = omega (arith, n) in
      ap (λ (k : ℕ). take 16 (drop k m.payload)) none_left
      ∙ ap (take 16) e
      ∙ take-append block rest 16 b in
    let behind : drop m.size m.payload ≡ rest =
      ap (λ (k : ℕ). drop k m.payload) n ∙ ap (drop 16) e ∙ drop-append block rest 16 b in
    let nothing : take (m.size - 16) m.payload ≡ [] =
      let none_left : m.size - 16 ≡ 0 = omega (arith, n) in
      ap (λ (k : ℕ). take k m.payload) none_left in
    let sized : length m.payload ≡ 16 + length rest = omega (arith, ap length e, whole) in
    ground (arith, taken, behind, nothing, back (replicate 16 0))

encode_aes-read :
    (aes : Cipher) (ret : ℤ) (p key : List ℕ) (m m' : EmiMsg)
    → encode_aes aes (ret, p) key m ≡ some (pos 0, m')
    → is_negative ret ≡ false
unfolding encode_aes
encode_aes-read aes (pos n) p key m m' e = refl
encode_aes-read aes (negsuc n) p key m m' e = ground arith

encode_aes-block :
    (aes : Aes) (ret : ℤ) (p key : List ℕ) (m m' : EmiMsg)
    → m.size ≡ 16
    → encode_aes (cipher aes) (ret, p) key m ≡ some (pos 0, m')
    → (out : List ℕ) × (is_negative (emi_aes_encrypt aes p out key).0 ≡ false)
      × (m' ≡ record m { payload = (emi_aes_encrypt aes p out key).1 ++ drop 16 m.payload })
unfolding encode_aes
encode_aes-block aes ret p key m m' n e =
    elim (Option-cases (sub_pad p 0 (take m.size m.payload))) [
      | inl f ↦ ground arith
      | inr (body, f) ↦
          let out = take 16 (drop (m.size - 16) body) in
          let none_left : m.size - 16 ≡ 0 = omega (arith, n) in
          let front : take (m.size - 16) body ≡ [] = ap (λ (k : ℕ). take k body) none_left in
          let behind : drop m.size m.payload ≡ drop 16 m.payload =
            ap (λ (k : ℕ). drop k m.payload) n in
          (out, ground (arith, f), ground (arith, f, front, behind))
    ]

-- Let the cipher invert itself on blocks of 16 bytes, and let 16 random bytes be read. Whatever
-- `emi_msg_encode_aes` encodes within the bounds of the pad and of the data, `emi_msg_decode_aes` with
-- the same key decodes without an error, and nothing is left: the message comes back with size 0, its
-- 16 bytes zeroed.
pub decode_aes-encode_aes :
    (aes : Aes) (ret : ℤ) (p key : List ℕ) (m m' : EmiMsg)
    → IsBlockCipher aes
    → length p ≡ 16
    → m.size ≤ length m.payload
    → encode_aes (cipher aes) (ret, p) key m ≡ some (pos 0, m')
    → decode_aes (cipher aes) key m'
      ≡ some (pos 0, record m { size = 0; payload = replicate 16 0 ++ drop 16 m.payload })
decode_aes-encode_aes aes ret p key m m' c n room e =
    let inside : is_some (encode_aes (cipher aes) (ret, p) key m) ≡ true = rw e refl in
    let read = encode_aes-read (cipher aes) ret p key m m' e in
    let sized = sym (encode_aes-sixteen (cipher aes) p key ret m read n room) ∙ inside in
    let sixteen = (==_iff _ _).0 sized in
    let (out, ok, same) = encode_aes-block aes ret p key m m' sixteen e in
    let (b, back) = emi_aes_decrypt-encrypt aes key p out c ok in
    let block = (emi_aes_encrypt aes p out key).1 in
    rw same (
      decode_aes-block aes key block (drop 16 m.payload) p
        (record m { payload = block ++ drop 16 m.payload }) sixteen refl b back)
