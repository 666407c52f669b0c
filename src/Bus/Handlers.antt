-- ===== src/Bus/Handlers.antt =====
-- What the handlers do to shared memory, as work on the message and on its count.
use emi.Prelude.{
  ℕ, suc, ◌+◌, ◌-◌, ◌*◌, ◌%◌, ◌^◌, ◌<◌, ◌≡◌, refl, sym, ap, ◌∙◌, Bool, true, List, [], ◌∷◌, ◌==◌,
  length, arith, Bool-cases, inl, inr,
}
use emi.Prelude.Bits.{has}
use emi.Message.{EmiMsg}
use emi.Message.Flag
use emi.Client.{FuncList}
use emi.Client.Handler.{Run, Shared, judge, handle, func_sterotype}
use emi.Bus.{Processes, work_of, put_cell, run_handlers}

abbrev pub counted : ℕ → EmiMsg → EmiMsg
counted c m = record m { count = c }

-- The functions neither read nor write the count.
abbrev pub IgnoresCount : Run → Type 0
IgnoresCount run =
    (f : ℕ) (m : EmiMsg) (c : ℕ) → run f (counted c m) ≡ ((run f m).0, counted c (run f m).1)

pub handle-counted :
    (exclusive_msg : Bool) (run : Run) (l : List FuncList) (m : EmiMsg) (c : ℕ)
    → IgnoresCount run
    → handle exclusive_msg run l (counted c m) ≡ counted c (handle exclusive_msg run l m)
unfolding handle judge
handle-counted x run [] m c i = refl
handle-counted x run (f ∷ l) m c i = elim (Bool-cases (f.msg == m.msg)) [
  | inr miss ↦ rw (miss, handle) (handle-counted x run l m c i)
  | inl hit ↦ elim (Bool-cases (has m.flag Flag.flag_block_return)) [
    | inl returns ↦ rw (handle, hit, returns, i f.func m c) refl
    | inr plain ↦ elim (Bool-cases x) [
      | inl stops ↦ rw (handle, hit, plain, stops, i f.func m c) refl
      | inr goes_on ↦
          rw (hit, plain, goes_on, i f.func m c, handle)
            (handle-counted x run l (run f.func m).1 c i)
    ]
  ]
]

-- What is left of the count when `n` handlers have taken their one off.
abbrev pub lowered : ℕ → ℕ → ℕ
lowered c n = (c + n * (2 ^ 32 - 1)) % 2 ^ 32

-- The signals to processes about the message at `nth`.
abbrev pub signals : ℕ → List ℕ → List (ℕ × ℕ)
signals nth [] = []
signals nth (pid ∷ ps) = (pid, nth) ∷ signals nth ps

work_of-counted :
    (p : Processes) (nth : ℕ) (ps : List ℕ) (m : EmiMsg) (c : ℕ)
    → ((pid : ℕ) → IgnoresCount (p.run pid))
    → work_of p (signals nth ps) (counted c m) ≡ counted c (work_of p (signals nth ps) m)
work_of-counted p nth [] m c i = refl
work_of-counted p nth (pid ∷ ps) m c i =
    ap (work_of p (signals nth ps))
      (handle-counted p.exclusive_msg (p.run pid) (p.funcs pid) m c (i pid))
    ∙ work_of-counted p nth ps (handle p.exclusive_msg (p.run pid) (p.funcs pid) m) c i

one_handler :
    (p : Processes) (nth pid : ℕ) (m : EmiMsg) (s : Shared) (c : ℕ)
    → ((pid : ℕ) → IgnoresCount (p.run pid))
    → s.slot nth ≡ counted c m
    → (func_sterotype p.exclusive_msg (p.run pid) (p.funcs pid) pid (put_cell pid nth s)).slot nth
      ≡ counted (lowered c 1) (handle p.exclusive_msg (p.run pid) (p.funcs pid) m)
unfolding func_sterotype
one_handler p nth pid m s c i e =
    let hit : (pid == pid) ≡ true = ground arith in
    let there : (nth == nth) ≡ true = ground arith in
    let less : (c + (2 ^ 32 - 1)) % 2 ^ 32 ≡ lowered c 1 = omega arith in
    rw (hit, there, e, handle-counted p.exclusive_msg (p.run pid) (p.funcs pid) m c (i pid))
      (ap (λ k. counted k (handle p.exclusive_msg (p.run pid) (p.funcs pid) m)) less)

run_handlers-counted :
    (p : Processes) (nth : ℕ) (ps : List ℕ) (m : EmiMsg) (s : Shared) (c : ℕ)
    → ((pid : ℕ) → IgnoresCount (p.run pid))
    → c < 2 ^ 32
    → s.slot nth ≡ counted c m
    → (run_handlers p (signals nth ps) s).slot nth
      ≡ counted (lowered c (length ps)) (work_of p (signals nth ps) m)
unfolding run_handlers
run_handlers-counted p nth [] m s c i small e =
    let same : c ≡ lowered c 0 = omega arith in e ∙ ap (λ k. counted k m) same
run_handlers-counted p nth (pid ∷ ps) m s c i small e =
    let m1 = handle p.exclusive_msg (p.run pid) (p.funcs pid) m in
    let s1 = func_sterotype p.exclusive_msg (p.run pid) (p.funcs pid) pid (put_cell pid nth s) in
    let all : lowered (lowered c 1) (length ps) ≡ lowered c (suc (length ps)) = omega arith in
    run_handlers-counted p nth ps m1 s1 (lowered c 1) i (omega arith)
      (one_handler p nth pid m s c i e)
    ∙ ap (λ k. counted k (work_of p (signals nth ps) m1)) all

-- If the functions of all processes ignore the count, then the handlers of fewer than 2 ^ 32
-- processes that were signalled about a message, run one after the other from a slot that holds it
-- with one counted for each of them, leave in the slot what the work of the processes makes of the
-- message with the count 0.
pub run_handlers-work_of :
    (p : Processes) (nth : ℕ) (ps : List ℕ) (m : EmiMsg) (s : Shared)
    → ((pid : ℕ) → IgnoresCount (p.run pid))
    → length ps < 2 ^ 32
    → s.slot nth ≡ counted (length ps) m
    → (run_handlers p (signals nth ps) s).slot nth ≡ work_of p (signals nth ps) (counted 0 m)
run_handlers-work_of p nth ps m s i small e =
    let none_left : lowered (length ps) (length ps) ≡ 0 = omega arith in
    run_handlers-counted p nth ps m s (length ps) i small e
    ∙ ap (λ c. counted c (work_of p (signals nth ps) m)) none_left
    ∙ sym (work_of-counted p nth ps m 0 i)
