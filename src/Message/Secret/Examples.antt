-- ===== src/Message/Secret/Examples.antt =====
-- Keys and encoded messages at concrete inputs.
use emi.Prelude.{
  ℕ, zero, suc, ap, sym, ◌≡◌, refl, some, List, [], ◌∷◌, ◌++◌, ◌==◌, if◌then◌else◌, length, take,
  drop, replicate, arith, pos, minus_one,
}
use emi.Message.{EmiMsg, zero_msg}
use emi.Message.Secret.{sub_pad, encode_aes, decode_aes}
use emi.Message.Secret.Key.{
  Aes, make_key, emi_aes_encrypt, emi_aes_decrypt, cipher, emi_aes-forgets,
}
use emi.Message.Secret.Lost.{IsBlockCipher, decode_aes-encode_aes}

-- A cipher that keeps the block.
abbrev plain : Aes
plain = record {
  schedule_key = λ k n. (pos 0, take n k, take n k);
  aes_encrypt = λ pt ek nr. if length pt == 16 then (pos 0, pt) else (minus_one, []);
  aes_decrypt = λ ct dk nr. (pos 0, ct);
}

take-take : (n : ℕ) (l : List ℕ) → take n (take n l) ≡ take n l
take-take zero l = refl
take-take (suc n) [] = refl
take-take (suc n) (x ∷ l) = ap (λ r. x ∷ r) (take-take n l)

plain-IsBlockCipher : IsBlockCipher plain
plain-IsBlockCipher = record {
  inverts = λ k pt ct e. ground arith;
  block = λ k pt ct e. ground arith;
}

abbrev ending : List ℕ
ending = replicate 15 b'x'

emi_aes-forgets_example :
    (emi_aes_encrypt plain ending [] (b'a' ∷ [] ++ ending)
      ≡ emi_aes_encrypt plain ending [] (b'b' ∷ b'c' ∷ [] ++ ending))
    × (emi_aes_decrypt plain ending [] (b'a' ∷ [] ++ ending)
        ≡ emi_aes_decrypt plain ending [] (b'b' ∷ b'c' ∷ [] ++ ending))
emi_aes-forgets_example =
    emi_aes-forgets plain (b'a' ∷ []) (b'b' ∷ b'c' ∷ []) ending
      (λ k n. ap (λ l. (pos 0, l, l)) (sym (take-take n k))) refl (omega arith) (omega arith) ending
      []

-- The keys "ab" and "b" differ in the second byte from the end.
two_bytes : take 4 (make_key (b'a' ∷ b'b' ∷ [])) ≡ 0x12 ∷ b'b' ∷ b'a' ∷ 0x31 ∷ []
unfolding make_key
two_bytes = refl

abbrev pad : List ℕ
pad = replicate 16 1

abbrev secret : EmiMsg
secret = record (zero_msg (replicate 16 b's' ++ 7 ∷ [])) { size = 16 }

abbrev encoded : EmiMsg
encoded = record secret { payload = pad ++ 7 ∷ [] }

encoded_lem : encode_aes (cipher plain) (pos 16, pad) [] secret ≡ some (pos 0, encoded)
unfolding encode_aes emi_aes_encrypt sub_pad
encoded_lem = refl

decode_aes-encode_aes_example :
    decode_aes (cipher plain) [] encoded
    ≡ some (pos 0, record secret { size = 0; payload = replicate 16 0 ++ drop 16 secret.payload })
decode_aes-encode_aes_example =
    decode_aes-encode_aes plain (pos 16) pad [] secret encoded plain-IsBlockCipher refl
      (omega arith) encoded_lem
