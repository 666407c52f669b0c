-- ===== src/Config.antt =====
-- emi_config.c and include/emi_config.h: the configuration and the file that it is read from. The
-- file is mapped into memory: behind its bytes lie `slack` zeros, up to the end of the page, and a
-- read behind those is a fault, `none`. A pointer into the file is the list of bytes from there on.
pub mod Lines
pub mod Faults
mod Examples
use emi.Prelude.{
  ℕ, zero, suc, ◌+◌, Bool, true, false, ◌&&◌, ◌||◌, Option, none, some, List, [], ◌∷◌, ◌++◌, ◌==◌,
  ltb, leb, if◌then◌else◌, length, replicate, drop, ℤ, pos, minus_one, is_negative,
}
use emi.MsgTable.{◌>>=◌}
use emi.Space.Bounds.{emi_data_size_per_msg_default}

-- `struct emi_config`
pub record EmiConfig : Type 0 where
  pub emi_port : ℕ
  pub emi_data_size_per_msg : ℕ
  pub emi_key : ℕ

-- `set_default_config`: EMI_PORT, EMI_DATA_SIZE_PER_MSG and EMI_KEY.
unfoldable pub set_default_config : EmiConfig
set_default_config = record {
  emi_port = 361;
  emi_data_size_per_msg = emi_data_size_per_msg_default;
  emi_key = 0x0fe02570;
}

-- `terms`, in the order of the fields of `struct emi_config`.
pub data Term : Type 0 where
  port size key : Term

abbrev pub text : Term → List ℕ
text port = b'E' ∷ b'M' ∷ b'I' ∷ b'_' ∷ b'P' ∷ b'O' ∷ b'R' ∷ b'T' ∷ []
text size =
    b'E' ∷ b'M' ∷ b'I' ∷ b'_' ∷ b'D' ∷ b'A' ∷ b'T' ∷ b'A' ∷ b'_' ∷ b'S' ∷ b'I' ∷ b'Z' ∷ b'E' ∷ b'_'
    ∷ b'P' ∷ b'E' ∷ b'R' ∷ b'_' ∷ b'M' ∷ b'S' ∷ b'G' ∷ []
text key = b'E' ∷ b'M' ∷ b'I' ∷ b'_' ∷ b'K' ∷ b'E' ∷ b'Y' ∷ []

-- `*((int *)(config)+i)=v`
abbrev pub assign : Term → ℕ → EmiConfig → EmiConfig
assign port v c = record c { emi_port = v }
assign size v c = record c { emi_data_size_per_msg = v }
assign key v c = record c { emi_key = v }

-- Does a line, or what can be read of it, end here?
abbrev pub ends : ℕ → Bool
ends c = c == b'#' || c == b'\n'

-- `for(;*p!='\n';p++);`
unfoldable pub to_newline : List ℕ → Option (List ℕ)
to_newline [] = none
to_newline (c ∷ p) = elim (c == b'\n') [ true ↦ some (c ∷ p) | false ↦ to_newline p ]

-- `!strncmp(term,p,strlen(term))`, which reads up to the first byte that differs.
unfoldable pub starts : List ℕ → List ℕ → Option Bool
starts [] p = some true
starts (t ∷ term) [] = none
starts (t ∷ term) (c ∷ p) = elim (c == t) [ true ↦ starts term p | false ↦ some false ]

abbrev pub cons_value : ℕ → Option (List ℕ × List ℕ) → Option (List ℕ × List ℕ)
cons_value c none = none
cons_value c (some (value, p)) = some (c ∷ value, p)

-- The loop that fills `stack`: it skips a '=' and then takes the next byte, whatever it is.
unfoldable pub read_value : List ℕ → Option (List ℕ × List ℕ)
read_value [] = none
read_value (c ∷ []) = if ends c then some ([], c ∷ []) else none
read_value (c ∷ d ∷ p) = elim (ends c) [
  | true ↦ some ([], c ∷ d ∷ p)
  | false ↦ elim (c == b'=') [
    | true ↦ cons_value d (read_value p)
    | false ↦ cons_value c (read_value (d ∷ p))
  ]
]

-- One turn of the loop over the terms. `stack` has 256 bytes, the last of which has to stay zero;
-- `atoi` stands for the library's function and the conversion of its result to 32 bits.
unfoldable pub try_term :
    (atoi : List ℕ → ℕ) → Term → List ℕ × EmiConfig → Option (List ℕ × EmiConfig)
unfolding starts read_value
try_term atoi t (p, c) = starts (text t) p >>= λ found.
    if found
    then (read_value (drop (length (text t)) p) >>= λ r.
        if ltb (length r.0) 256 then some (r.1, assign t (atoi r.0) c) else none)
    else some (p, c)

-- The body of the loop over the file, with `p++`.
unfoldable pub config_step : (atoi : List ℕ → ℕ) → List ℕ → EmiConfig → Option (List ℕ × EmiConfig)
unfolding to_newline try_term
config_step atoi [] c = none
config_step atoi (b ∷ p) c = (if ends b then to_newline (b ∷ p) else some (b ∷ p)) >>= λ q.
    try_term atoi port (q, c) >>= try_term atoi size >>= try_term atoi key >>= λ r.
    some (drop 1 r.0, r.1)

-- `for(p=addr;p-addr<sb.st_size;p++)`: the file is not used up while more is left than the slack.
-- `none` is a fault, or the end of the fuel.
unfoldable pub config_loop :
    (atoi : List ℕ → ℕ) (slack fuel : ℕ) → List ℕ → EmiConfig → Option EmiConfig
unfolding config_step
config_loop atoi slack zero p c = none
config_loop atoi slack (suc fuel) p c = elim (ltb slack (length p)) [
  | false ↦ some c
  | true ↦ elim (config_step atoi p c) [
    | none ↦ none
    | some (q, c') ↦ config_loop atoi slack fuel q c'
  ]
]

-- What the system calls answer: `open` for each of the four names, and then `fstat` and `mmap`.
pub record ConfigFile : Type 0 where
  pub open_file : ℕ → ℤ
  pub fstat : ℤ
  pub mapped : Bool
  pub bytes : List ℕ
  pub slack : ℕ

-- The loop over the names from number `i` on: the last descriptor that was asked for.
unfoldable pub open_any : (ℕ → ℤ) → (rounds i : ℕ) → ℤ → ℤ
open_any open_file zero i fd = fd
open_any open_file (suc rounds) i fd = elim (open_file i) [
  | pos (suc n) ↦ pos (suc n)
  | other ↦ open_any open_file rounds (suc i) other
]

-- `get_config`. A mapping that fails is not NULL, and is read where the file is not empty.
unfoldable pub get_config : (atoi : List ℕ → ℕ) → ConfigFile → Option (ℤ × EmiConfig)
unfolding set_default_config open_any config_loop
get_config atoi f =
    let fd = open_any f.open_file 4 0 minus_one in
    if is_negative fd || is_negative f.fstat
    then some (minus_one, set_default_config)
    else if f.mapped || length f.bytes == 0
    then (config_loop atoi f.slack (suc (length f.bytes)) (f.bytes ++ replicate f.slack 0)
          set_default_config
        >>= λ c. some (pos 0, c))
    else none
