-- ===== src/Config/Faults.antt =====
-- Files that `get_config` does not read as their lines.
use mathlib.Core.List.{append_assoc, append-nil}
use emi.Prelude.{
  ℕ, zero, suc, ◌<◌, ◌≡◌, refl, ◌∙◌, sym, ap, true, none, some, List, [], ◌∷◌, ◌++◌, ltb, lt→ltb,
  length, length-append, length-replicate, replicate, arith, pos,
}
use emi.Config.{
  EmiConfig, Term, port, size, key, text, assign, to_newline, config_step, config_loop,
  set_default_config, ConfigFile, get_config,
}
use emi.Config.Lines.{
  IsPlain, NoNewline, IsReadable, value, render, get_config-run, config_step-value,
  config_loop-step, config_loop-lines,
}

regroup :
    (t : Term) (d : ℕ) (v l zeros : List ℕ)
    → (text t ++ b'=' ∷ d ∷ (v ++ b'#' ∷ l)) ++ zeros
      ≡ text t ++ b'=' ∷ d ∷ (v ++ b'#' ∷ (l ++ zeros))
regroup port d v l zeros = rw (append_assoc v (b'#' ∷ l) zeros) refl
regroup size d v l zeros = rw (append_assoc v (b'#' ∷ l) zeros) refl
regroup key d v l zeros = rw (append_assoc v (b'#' ∷ l) zeros) refl

regroup-length :
    (t : Term) (d : ℕ) (v l : List ℕ) → length l < length (text t ++ b'=' ∷ d ∷ (v ++ b'#' ∷ l))
regroup-length t d v l =
    omega (arith, length-append (text t) (b'=' ∷ d ∷ (v ++ b'#' ∷ l)), length-append v (b'#' ∷ l))

-- A comment behind a value is skipped by its first byte only: a value in the comment counts.
pub get_config-comment_counts :
    (atoi : List ℕ → ℕ) (f : ConfigFile) (t t' : Term) (d d' : ℕ) (v v' : List ℕ)
    → IsReadable f
    → f.bytes ≡ text t ++ b'=' ∷ d ∷ (v ++ b'#' ∷ render (value t' d' v'))
    → IsPlain v
    → length v < 255
    → IsPlain v'
    → length v' < 255
    → get_config atoi f
      ≡ some (pos 0, assign t' (atoi (d' ∷ v')) (assign t (atoi (d ∷ v)) set_default_config))
get_config-comment_counts atoi f t t' d d' v v' r e plain short plain' short' =
    let line = render (value t' d' v') in
    let zeros : List ℕ = replicate f.slack 0 in
    let size = regroup-length t d v line in
    let c1 = assign t (atoi (d ∷ v)) set_default_config in
    get_config-run atoi f (text t ++ b'=' ∷ d ∷ (v ++ b'#' ∷ line)) _ r e (
      ap
        (λ p.
          config_loop atoi f.slack (suc (length (text t ++ b'=' ∷ d ∷ (v ++ b'#' ∷ line)))) p
            set_default_config)
        (regroup t d v line zeros)
      ∙ config_loop-step atoi f.slack _ _ (line ++ zeros) set_default_config c1
          (lt→ltb _ _ (
            omega (
              arith,
              regroup-length t d v (line ++ zeros),
              length-append line zeros,
              length-replicate {A = ℕ} f.slack 0,
            )))
          (config_step-value atoi b'#' refl t d v (line ++ zeros) set_default_config plain short)
      ∙ ap
          (λ p.
            config_loop atoi f.slack (length (text t ++ b'=' ∷ d ∷ (v ++ b'#' ∷ line))) (p ++ zeros)
              c1)
          (sym (append-nil line))
      ∙ config_loop-lines atoi f.slack _ (value t' d' v' ∷ []) c1 ((plain', short'), tt)
          (omega (arith, size, ap length (append-nil line))))

to_newline-none : (s : List ℕ) → NoNewline s → to_newline s ≡ none
unfolding to_newline
to_newline-none [] h = refl
to_newline-none (c ∷ s) h = rw (h.0, to_newline) (to_newline-none s h.1)

NoNewline-zeros : (s : List ℕ) (slack : ℕ) → NoNewline s → NoNewline (s ++ replicate slack 0)
NoNewline-zeros [] zero h = tt
NoNewline-zeros [] (suc slack) h = (refl, NoNewline-zeros [] slack tt)
NoNewline-zeros (c ∷ s) slack h = (h.0, NoNewline-zeros s slack h.1)

open_comment :
    (atoi : List ℕ → ℕ) (slack fuel : ℕ) (s : List ℕ) (c : EmiConfig)
    → NoNewline s
    → config_loop atoi slack (suc (suc fuel)) (b'#' ∷ s ++ replicate slack 0) c ≡ none
unfolding config_loop config_step
open_comment atoi slack fuel s c h =
    let more : ltb slack (suc (length (s ++ replicate slack 0))) ≡ true =
      lt→ltb _ _
        (omega (arith, length-append s (replicate slack 0), length-replicate {A = ℕ} slack 0)) in
    rw (more, config_loop, to_newline-none (s ++ replicate slack 0) (NoNewline-zeros s slack h))
      refl

-- A file that ends in a comment with no end of its line is read beyond its mapping.
pub get_config-open_comment :
    (atoi : List ℕ → ℕ) (f : ConfigFile) (s : List ℕ)
    → IsReadable f
    → f.bytes ≡ b'#' ∷ s
    → NoNewline s
    → get_config atoi f ≡ none
get_config-open_comment atoi f s r e h =
    get_config-run atoi f (b'#' ∷ s) none r e
      (open_comment atoi f.slack (length s) s set_default_config h)
