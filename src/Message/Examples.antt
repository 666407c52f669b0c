-- ===== src/Message/Examples.antt =====
-- The theorems on the functions that build messages, at concrete messages.
use emi.Prelude.{ℕ, List, replicate, ◌≡◌, refl, true, some, [], ◌∷◌, arith, pos}
use emi.Message.{EmiMsg, Host, zero_msg, localhost, emi_obtain_msg}
use emi.Message.Flag
use emi.Message.Secret.{Cipher}
use emi.Message.Fill.{Obtained, emi_obtain_msg-Obtained}

-- A machine on which every address resolves, and a message has room for three bytes.
abbrev machine : Host
machine = record {
  inet_addr = λ l. 0x0100007f;
  htons = λ n. n;
  getpid = 42;
  emi_port = 1361;
  emi_data_size_per_msg = 3;
}

emi_obtain_msg-Obtained_example :
    (m : EmiMsg) × (emi_obtain_msg machine true
        (9 ∷ 9 ∷ 9 ∷ [])
        (some localhost)
        (some (1 ∷ 2 ∷ []))
        2
        5
        77
        Flag.flag_block
      ≡ some (some m))
    × Obtained (some (1 ∷ 2 ∷ [])) (9 ∷ 9 ∷ 9 ∷ []) 2 5 77 Flag.flag_block m
emi_obtain_msg-Obtained_example =
    emi_obtain_msg-Obtained machine (9 ∷ 9 ∷ 9 ∷ []) (some localhost) (some (1 ∷ 2 ∷ [])) 2 5 77
      Flag.flag_block (refl, refl) (omega arith, omega arith)

-- A pad of ones, and a cipher that changes nothing.
abbrev ones : List ℕ
ones = replicate 16 1

abbrev aes : Cipher
aes = record { encrypt = λ key b out. (pos 0, b); decrypt = λ key b out. (pos 0, ones) }

abbrev long_msg : EmiMsg
long_msg = record (zero_msg (replicate 17 9)) { size = 17 }
