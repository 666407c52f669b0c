-- ===== src/Client/Handler/Order.antt =====
-- Which functions the handler calls, and what becomes of the flag.
use emi.Prelude.{
  ℕ, ◌-◌, ◌≡◌, refl, ◌∙◌, ap, Bool, true, false, not, List, [], ◌∷◌, ◌==◌, if◌then◌else◌, arith, ℤ,
  is_nonzero, inl, inr, Bool-cases,
}
use emi.Prelude.Bits.{has, has-bit_or, masked_off}
use emi.Message.{EmiMsg}
use emi.Message.Flag
use emi.Client.{FuncList}
use emi.Client.Handler.{Run, judge, handle}

-- The functions for a number, in the order of the list.
abbrev pub funcs_for : ℕ → List FuncList → List ℕ
funcs_for msg [] = []
funcs_for msg (f ∷ l) = if f.msg == msg then f.func ∷ funcs_for msg l else funcs_for msg l

-- All the functions of a list in turn.
abbrev pub run_all : Run → List ℕ → EmiMsg → EmiMsg
run_all run [] m = m
run_all run (f ∷ fs) m = run_all run fs (run f m).1

-- The functions leave the number and the flag of a message alone.
pub record Tame (run : Run) : Type 0 where
  pub number : (f : ℕ) (m : EmiMsg) → (run f m).1.msg ≡ m.msg
  pub mode : (f : ℕ) (m : EmiMsg) → (run f m).1.flag ≡ m.flag

-- A message that does not return data goes through every function registered for its number, in
-- the order of the list, if the functions leave its number and its flag alone and the build does
-- not stop at the first.
pub handle-run_all :
    (run : Run) (l : List FuncList) (m : EmiMsg)
    → Tame run
    → has m.flag Flag.flag_block_return ≡ false
    → handle false run l m ≡ run_all run (funcs_for m.msg l) m
unfolding handle
handle-run_all run [] m tame plain = refl
handle-run_all run (f ∷ l) m tame plain = elim (Bool-cases (f.msg == m.msg)) [
  | inr e ↦ rw (e, handle) (handle-run_all run l m tame plain)
  | inl e ↦
      let m1 = (run f.func m).1 in
      let still : has m1.flag Flag.flag_block_return ≡ false =
        ap (λ k. has k Flag.flag_block_return) (tame.mode f.func m) ∙ plain in
      rw (e, plain, handle)
        (handle-run_all run l m1 tame still
          ∙ ap (λ k. run_all run (funcs_for k l) m1) (tame.number f.func m))
]

pub judge-flag : (r : ℤ × EmiMsg) → has (judge r).flag Flag.cmd_succeeded ≡ not (is_nonzero r.0)
unfolding judge has
judge-flag r = ground (
  arith,
  masked_off r.1.flag (0xffff_ffff - Flag.cmd_succeeded) Flag.cmd_succeeded refl,
  has-bit_or r.1.flag Flag.cmd_succeeded Flag.cmd_succeeded,
)

handle-judge :
    (exclusive_msg : Bool) (run : Run) (l : List FuncList) (m : EmiMsg) (f : ℕ) (fs : List ℕ)
    → has m.flag Flag.flag_block_return ≡ true
    → funcs_for m.msg l ≡ f ∷ fs
    → handle exclusive_msg run l m ≡ judge (run f m)
unfolding handle
handle-judge exclusive_msg run [] m f fs returns e = cc
handle-judge exclusive_msg run (x ∷ l) m f fs returns e = elim (Bool-cases (x.msg == m.msg)) [
  | inl hit ↦
      let same : x.func ≡ f = ground arith in
      rw (hit, returns, handle) (ap (λ k. judge (run k m)) same)
  | inr miss ↦ rw (miss, handle) (handle-judge exclusive_msg run l m f fs returns (ground arith))
]

-- In the BLOCK_RETURN mode the first function for the number is the only one, and the message
-- says success exactly if that function answers 0.
pub handle-first :
    (exclusive_msg : Bool) (run : Run) (l : List FuncList) (m : EmiMsg) (f : ℕ) (fs : List ℕ)
    → has m.flag Flag.flag_block_return ≡ true
    → funcs_for m.msg l ≡ f ∷ fs
    → (handle exclusive_msg run l m ≡ judge (run f m))
      × (has (handle exclusive_msg run l m).flag Flag.cmd_succeeded ≡ not (is_nonzero (run f m).0))
handle-first exclusive_msg run l m f fs returns e =
    let first = handle-judge exclusive_msg run l m f fs returns e in
    (first, ap (λ k. has k.flag Flag.cmd_succeeded) first ∙ judge-flag (run f m))
