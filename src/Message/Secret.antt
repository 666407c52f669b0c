-- ===== src/Message/Secret.antt =====
-- `emi_msg_encode_aes` and `emi_msg_decode_aes` (emi_if.c). The cipher is an argument, and so
-- is what the read of random bytes gives. `none` is an access outside the 16 bytes of the pad, or
-- outside the data of the message.
pub mod Pad
pub mod Key
pub mod Lost
mod Examples
use emi.Prelude.{
  ℕ, zero, suc, ◌+◌, ◌-◌, ◌%◌, Bool, true, false, ◌||◌, Option, none, some, List, [], ◌∷◌, ◌++◌,
  ltb, if◌then◌else◌, length, take, drop, get_elem?, replicate, ℤ, pos, minus_one, is_negative,
}
use emi.MsgTable.{◌>>=◌}
use emi.Message.{EmiMsg}

-- `emi_aes_encrypt` and `emi_aes_decrypt` (emi_aes.c) of a block under a key: the result, and the
-- bytes that are then where `out` was.
pub record Cipher : Type 0 where
  pub encrypt : (key block out : List ℕ) → ℤ × List ℕ
  pub decrypt : (key block out : List ℕ) → ℤ × List ℕ

-- `j=j<16?(j+1):0`
abbrev pub next_j : ℕ → ℕ
next_j j = if ltb j 16 then suc j else 0

-- `*tmp++-=p[j]` and `*tmp+++=c[j]` over the bytes, from `j`.
unfoldable pub sub_pad : List ℕ → ℕ → List ℕ → Option (List ℕ)
sub_pad p j [] = some []
sub_pad p j (b ∷ l) = elim (get_elem? p j) [
  | none ↦ none
  | some k ↦ sub_pad p (next_j j) l >>= λ r. some ((b + (256 - k)) % 256 ∷ r)
]

unfoldable pub add_pad : List ℕ → ℕ → List ℕ → Option (List ℕ)
add_pad c j [] = some []
add_pad c j (b ∷ l) = elim (get_elem? c j) [
  | none ↦ none
  | some k ↦ add_pad c (next_j j) l >>= λ r. some ((b + k) % 256 ∷ r)
]

-- The last 16 of the message's bytes lie in its data.
abbrev pub has_tail : EmiMsg → Bool
has_tail m = if ltb m.size 16 then false else if ltb (length m.payload) m.size then false else true

-- `emi_msg_encode_aes`: the encrypted pad takes the place of the last 16 bytes.
unfoldable pub encode_aes :
    Cipher → (random : ℤ × List ℕ) → (key : List ℕ) → EmiMsg → Option (ℤ × EmiMsg)
encode_aes aes (ret, p) key m =
    if is_negative ret
    then some (minus_one, m)
    else (sub_pad p 0 (take m.size m.payload) >>= λ body.
        let (r, block) = aes.encrypt key p (take 16 (drop (m.size - 16) body)) in
        if has_tail m
        then some (
          (if is_negative r then minus_one else pos 0),
          record m { payload = take (m.size - 16) body ++ block ++ drop m.size m.payload },
        )
        else none)

-- `emi_msg_decode_aes`: the pad is taken out of the last 16 bytes, which are zeroed.
unfoldable pub decode_aes : Cipher → (key : List ℕ) → EmiMsg → Option (ℤ × EmiMsg)
decode_aes aes key m =
    let left = m.size - 16 in
    let (r, c) = aes.decrypt key (take 16 (drop left m.payload)) (replicate 16 0) in
    if has_tail m
    then (if is_negative r
        then some (minus_one, m)
        else (add_pad c 0 (take left m.payload) >>= λ body. some (
          pos 0,
          record m { size = left; payload = body ++ replicate 16 0 ++ drop m.size m.payload },
        )))
    else none
