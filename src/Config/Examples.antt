-- ===== src/Config/Examples.antt =====
-- Tests of the parser, and its theorems at concrete files.
use emi.Prelude.{
  ℕ, ◌+◌, ◌*◌, ◌-◌, ◌≡◌, refl, true, some, ◌==◌, if◌then◌else◌, List, [], ◌∷◌, ◌++◌, arith, pos,
  minus_one,
}
use mathlib.Core.Option
use emi.Config.{set_default_config, port, key, text, ConfigFile, open_any, get_config}
use emi.Config.Lines.{Line, value, comment, blank, render, render_all, get_config-lines}

-- Decimal digits.
abbrev number : ℕ → List ℕ → ℕ
number n [] = n
number n (c ∷ l) = number (n * 10 + (c - b'0')) l

abbrev atoi : List ℕ → ℕ
atoi = number 0

-- The third name opens.
abbrev file_of : List ℕ → ConfigFile
file_of bytes = record {
  open_file = λ i. if i == 2 then pos 5 else minus_one;
  fstat = pos 0;
  mapped = true;
  bytes = bytes;
  slack = 2;
}

abbrev three_lines : List Line
three_lines = comment (b'x' ∷ []) ∷ value port b'8' (b'0' ∷ []) ∷ blank ∷ value key b'7' [] ∷ []

get_config-lines_example :
    get_config atoi (file_of (render_all three_lines))
    ≡ some (pos 0, record { emi_port = 80; emi_data_size_per_msg = 1024; emi_key = 7 })
unfolding open_any set_default_config
get_config-lines_example =
    get_config-lines atoi (file_of (render_all three_lines)) three_lines (refl, refl, refl) refl
      ((refl, tt), (((refl, refl, tt), omega arith), (tt, ((tt, omega arith), tt))))

-- An empty value takes the end of its line, and the next line with it.
empty_value :
    Option.map
      (λ r. r.1.emi_key)
      (get_config atoi (file_of (text port ++ b'=' ∷ b'\n' ∷ render (value key b'5' []))))
    ≡ some 0x0fe02570
unfolding get_config
empty_value = refl
