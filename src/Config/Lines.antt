-- ===== src/Config/Lines.antt =====
-- Files that are written line by line, and what `get_config` reads from them.
use mathlib.Core.List.{append_assoc}
use emi.Prelude.{
  ℕ, zero, suc, ◌<◌, ◌≡◌, refl, ◌∙◌, ap, true, false, Option, some, List, [], ◌∷◌, ◌++◌, ◌==◌, ltb,
  lt→ltb, length, length-append, length-replicate, replicate, arith, pos, minus_one, is_negative,
}
use emi.MsgTable.{◌>>=◌}
use emi.Config.{
  EmiConfig, Term, port, size, key, text, assign, ends, to_newline, starts, cons_value, read_value,
  try_term, config_step, config_loop, set_default_config, ConfigFile, open_any, get_config,
}

-- A line: a value for a term, which has a first byte, or a comment, or nothing.
pub data Line : Type 0 where
  value : Term → (first : ℕ) → List ℕ → Line
  comment : List ℕ → Line
  blank : Line

abbrev pub render : Line → List ℕ
render (value t d v) = text t ++ b'=' ∷ d ∷ (v ++ b'\n' ∷ [])
render (comment s) = b'#' ∷ (s ++ b'\n' ∷ [])
render blank = b'\n' ∷ []

abbrev pub render_all : List Line → List ℕ
render_all [] = []
render_all (l ∷ ls) = render l ++ render_all ls

-- What a line means.
abbrev pub apply : (List ℕ → ℕ) → Line → EmiConfig → EmiConfig
apply atoi (value t d v) c = assign t (atoi (d ∷ v)) c
apply atoi (comment s) c = c
apply atoi blank c = c

abbrev pub apply_all : (List ℕ → ℕ) → List Line → EmiConfig → EmiConfig
apply_all atoi [] c = c
apply_all atoi (l ∷ ls) c = apply_all atoi ls (apply atoi l c)

-- No byte of a value is '#', '\n' or '='.
abbrev pub IsPlain : List ℕ → Type 0
IsPlain [] = Unit {0}
IsPlain (c ∷ v) = (ends c ≡ false) × ((c == b'=') ≡ false) × IsPlain v

abbrev pub NoNewline : List ℕ → Type 0
NoNewline [] = Unit {0}
NoNewline (c ∷ s) = ((c == b'\n') ≡ false) × NoNewline s

abbrev pub IsLine : Line → Type 0
IsLine (value t d v) = IsPlain v × (length v < 255)
IsLine (comment s) = NoNewline s
IsLine blank = Unit {0}

abbrev pub AllLines : List Line → Type 0
AllLines [] = Unit {0}
AllLines (l ∷ ls) = IsLine l × AllLines ls

to_newline-comment :
    (s rest : List ℕ) → NoNewline s → to_newline (s ++ b'\n' ∷ rest) ≡ some (b'\n' ∷ rest)
unfolding to_newline
to_newline-comment [] rest h = refl
to_newline-comment (c ∷ s) rest h = rw (h.0, to_newline) (to_newline-comment s rest h.1)

module _ (atoi : List ℕ → ℕ) (e : ℕ) (final : ends e ≡ true) where
  read_value-plain : (v rest : List ℕ) → IsPlain v → read_value (v ++ e ∷ rest) ≡ some (v, e ∷ rest)
  unfolding read_value
  read_value-plain [] [] h = rw final refl
  read_value-plain [] (x ∷ rest) h = rw (final, read_value) refl
  read_value-plain (c ∷ []) rest h =
      rw (h.0, read_value, h.1) (ap (cons_value c) (read_value-plain [] rest tt))
  read_value-plain (c ∷ d ∷ v) rest h =
      rw (h.0, read_value, h.1) (ap (cons_value c) (read_value-plain (d ∷ v) rest h.2))

  no_term : (e == b'E') ≡ false
  no_term = ground arith

  -- A term that its value follows.
  try_term-own :
      (t : Term) (d : ℕ) (v rest : List ℕ) (c : EmiConfig)
      → IsPlain v
      → length v < 255
      → try_term atoi t (text t ++ b'=' ∷ d ∷ (v ++ e ∷ rest), c)
        ≡ some (e ∷ rest, assign t (atoi (d ∷ v)) c)
  unfolding try_term
  try_term-own port d v rest c plain short =
      rw (read_value-plain v rest plain, lt→ltb (suc (length v)) 256 (omega arith)) refl
  try_term-own size d v rest c plain short =
      rw (read_value-plain v rest plain, lt→ltb (suc (length v)) 256 (omega arith)) refl
  try_term-own key d v rest c plain short =
      rw (read_value-plain v rest plain, lt→ltb (suc (length v)) 256 (omega arith)) refl

  try_term-end :
      (t : Term) (rest : List ℕ) (c : EmiConfig)
      → try_term atoi t (e ∷ rest, c) ≡ some (e ∷ rest, c)
  unfolding try_term
  try_term-end port rest c = rw (no_term, starts) refl
  try_term-end size rest c = rw (no_term, starts) refl
  try_term-end key rest c = rw (no_term, starts) refl

  -- A line with a value up to `e`: the byte `e` is skipped too.
  pub config_step-value :
      (t : Term) (d : ℕ) (v rest : List ℕ) (c : EmiConfig)
      → IsPlain v
      → length v < 255
      → config_step atoi (text t ++ b'=' ∷ d ∷ (v ++ e ∷ rest)) c
        ≡ some (rest, assign t (atoi (d ∷ v)) c)
  unfolding config_step
  config_step-value port d v rest c plain short = rw (try_term-own port d v rest c plain short) (
      rw (try_term-end size rest (assign port (atoi (d ∷ v)) c))
        (rw (try_term-end key rest (assign port (atoi (d ∷ v)) c)) refl))
  config_step-value size d v rest c plain short =
      rw (try_term-own size d v rest c plain short)
        (rw (try_term-end key rest (assign size (atoi (d ∷ v)) c)) refl)
  config_step-value key d v rest c plain short = rw (try_term-own key d v rest c plain short) refl

module _ (atoi : List ℕ → ℕ) where
  render-value :
      (t : Term) (d : ℕ) (v rest : List ℕ)
      → render (value t d v) ++ rest ≡ text t ++ b'=' ∷ d ∷ (v ++ b'\n' ∷ rest)
  render-value port d v rest = rw (append_assoc v (b'\n' ∷ []) rest) refl
  render-value size d v rest = rw (append_assoc v (b'\n' ∷ []) rest) refl
  render-value key d v rest = rw (append_assoc v (b'\n' ∷ []) rest) refl

  -- One turn of the loop reads one line.
  config_step-line :
      (l : Line) (rest : List ℕ) (c : EmiConfig)
      → IsLine l
      → config_step atoi (render l ++ rest) c ≡ some (rest, apply atoi l c)
  unfolding config_step
  config_step-line (value t d v) rest c h =
      ap (λ p. config_step atoi p c) (render-value t d v rest)
      ∙ config_step-value atoi b'\n' refl t d v rest c h.0 h.1
  config_step-line (comment s) rest c h =
      rw (append_assoc s (b'\n' ∷ []) rest, to_newline-comment s rest h) refl
  config_step-line blank rest c h = refl

  render-pos : (l : Line) → 0 < length (render l)
  render-pos (value port d v) = omega arith
  render-pos (value size d v) = omega arith
  render-pos (value key d v) = omega arith
  render-pos (comment s) = omega arith
  render-pos blank = omega arith

  pub config_loop-step :
      (slack fuel : ℕ) (p q : List ℕ) (c c' : EmiConfig)
      → ltb slack (length p) ≡ true
      → config_step atoi p c ≡ some (q, c')
      → config_loop atoi slack (suc fuel) p c ≡ config_loop atoi slack fuel q c'
  unfolding config_loop
  config_loop-step slack fuel p q c c' more e = rw (more, config_loop, e) refl

  pub config_loop-lines :
      (slack fuel : ℕ) (ls : List Line) (c : EmiConfig)
      → AllLines ls
      → length (render_all ls) < fuel
      → config_loop atoi slack fuel (render_all ls ++ replicate slack 0) c
        ≡ some (apply_all atoi ls c)
  unfolding config_loop
  config_loop-lines slack zero ls c all enough = absurd (omega arith)
  config_loop-lines slack (suc fuel) [] c all enough =
      let used : ltb slack (length (replicate {A = ℕ} slack 0)) ≡ false =
        ground (arith, length-replicate {A = ℕ} slack 0) in
      rw (used, config_loop) refl
  config_loop-lines slack (suc fuel) (l ∷ ls) c all enough =
      let tail = render_all ls ++ replicate slack 0 in
      let one = render-pos l in
      let parts = length-append (render l) (render_all ls) in
      let more : ltb slack (length (render l ++ tail)) ≡ true = lt→ltb _ _ (
        omega (
          arith,
          length-append (render l) tail,
          length-append (render_all ls) (replicate slack 0),
          length-replicate {A = ℕ} slack 0,
          one,
        )) in
      ap (λ p. config_loop atoi slack (suc fuel) p c)
        (append_assoc (render l) (render_all ls) (replicate slack 0))
      ∙ config_loop-step slack fuel (render l ++ tail) tail c (apply atoi l c) more
          (config_step-line l tail c all.0)
      ∙ config_loop-lines slack fuel ls (apply atoi l c) all.1 (omega arith)

-- A file that opens, has a size and is mapped.
abbrev pub IsReadable : ConfigFile → Type 0
IsReadable f =
    (is_negative (open_any f.open_file 4 0 minus_one) ≡ false)
    × (is_negative f.fstat ≡ false)
    × (f.mapped ≡ true)

-- What the loop makes of the bytes of a readable file.
pub get_config-run :
    (atoi : List ℕ → ℕ) (f : ConfigFile) (b : List ℕ) (r : Option EmiConfig)
    → IsReadable f
    → f.bytes ≡ b
    → config_loop atoi f.slack (suc (length b)) (b ++ replicate f.slack 0) set_default_config ≡ r
    → get_config atoi f ≡ (r >>= λ c. some (pos 0, c))
unfolding get_config
get_config-run atoi f b r h e run = rw (h.0, h.1, h.2, e, run) refl

-- A readable file of lines, each with a value for a term, a comment or nothing, gives what its
-- lines mean, from the first to the last, over the defaults. A value has from 1 to 255 bytes, of
-- which only the first may be '#', '=' or the end of the line; a comment ends with its line.
pub get_config-lines :
    (atoi : List ℕ → ℕ) (f : ConfigFile) (ls : List Line)
    → IsReadable f
    → f.bytes ≡ render_all ls
    → AllLines ls
    → get_config atoi f ≡ some (pos 0, apply_all atoi ls set_default_config)
get_config-lines atoi f ls r e all = get_config-run atoi f (render_all ls) _ r e (
    config_loop-lines atoi f.slack (suc (length (render_all ls))) ls set_default_config all
      (omega arith))
