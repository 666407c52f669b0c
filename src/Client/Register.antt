-- ===== src/Client/Register.antt =====
-- The list of functions that `__emi_msg_register` keeps, and the descriptor that it opens.
use emi.Prelude.{
  ℕ, ◌≡◌, refl, inl, inr, Bool, true, false, ◌||◌, Option, none, some, List, [], ◌∷◌, ◌==◌,
  if◌then◌else◌, arith, ℤ, is_negative, Option-cases,
}
use emi.Message.{EmiMsg, Host, af_inet}
use emi.Socket.{Os, World, SkDpr, emi_open, write_msg, tick}
use emi.Client.Descriptors.{connect-fds, write_msg-fds, read_msg-fds}
use emi.Space.Bounds.{sizeof_emi_msg}
use emi.Client.{
  FuncList, Local, connect, replace_func, add_func, register_msg, register_exchange, register,
  emi_msg_register, emi_msg_register_exclusive, unregister_one, unregister_all, emi_msg_unregister,
}

-- Does an entry have the number?
abbrev pub has_number : ℕ → List FuncList → Bool
has_number msg [] = false
has_number msg (f ∷ l) = (f.msg == msg) || has_number msg l

-- No two entries have the same number.
abbrev pub OnePerNumber : List FuncList → Type 0
OnePerNumber [] = Unit {0}
OnePerNumber (f ∷ l) = (has_number f.msg l ≡ false) × OnePerNumber l

-- A registration is undone by unregistering the same function, if there was memory for it and the
-- build does not replace functions.
pub unregister-register :
    (sigaction : ℤ) (func msg : ℕ) (l : List FuncList)
    → emi_msg_unregister msg (some func) (add_func false true sigaction func msg l).1 ≡ some l
unfolding emi_msg_unregister add_func unregister_one
unregister-register sigaction func msg l = ground arith

-- Unregistering without a function reads freed memory exactly if an entry has the number, and
-- changes nothing otherwise.
pub unregister-null :
    (msg : ℕ) (l : List FuncList)
    → emi_msg_unregister msg none l ≡ (if has_number msg l then none else some l)
unfolding emi_msg_unregister unregister_all
unregister-null msg [] = refl
unregister-null msg (f ∷ l) = ground (arith, unregister-null msg l)

-- The list with the function replaced, or the old list where there is nothing to replace.
abbrev pub kept : List FuncList → Option (List FuncList) → List FuncList
kept l none = l
kept l (some l') = l'

replace_func-number :
    (func msg other : ℕ) (l : List FuncList)
    → has_number other (kept l (replace_func func msg l)) ≡ has_number other l
unfolding replace_func
replace_func-number func msg other [] = refl
replace_func-number func msg other (f ∷ l) = ground (arith, replace_func-number func msg other l)

replace_func-none :
    (func msg : ℕ) (l : List FuncList) → replace_func func msg l ≡ none → has_number msg l ≡ false
unfolding replace_func
replace_func-none func msg [] h = refl
replace_func-none func msg (f ∷ l) h = ground (arith, replace_func-none func msg l)

replace_func-OnePerNumber :
    (func msg : ℕ) (l : List FuncList)
    → OnePerNumber l
    → OnePerNumber (kept l (replace_func func msg l))
unfolding replace_func
replace_func-OnePerNumber func msg [] u = u
replace_func-OnePerNumber func msg (f ∷ l) (h, u) =
    ground (arith, replace_func-OnePerNumber func msg l u, replace_func-number func msg f.msg l)

-- Where the build replaces functions, a registration keeps the entries' numbers different.
pub add_func-OnePerNumber :
    (memory : Bool) (sigaction : ℤ) (func msg : ℕ) (l : List FuncList)
    → OnePerNumber l
    → OnePerNumber (add_func true memory sigaction func msg l).1
unfolding add_func
add_func-OnePerNumber memory sigaction func msg l u =
    ground (arith, replace_func-none func msg l, replace_func-OnePerNumber func msg l u)

-- `emi_msg_register_exclusive` does what `emi_msg_register` does: the flag that it passes is lost.
pub register_exclusive-same :
    (os : Os) (host : Host) (here : Local) (msg func : ℕ) (l : List FuncList) (w : World)
    → emi_msg_register_exclusive os host here msg func l w
      ≡ emi_msg_register os host here msg func l w
unfolding emi_msg_register emi_msg_register_exclusive register register_msg
register_exclusive-same os host here msg func l w = refl

exchange-fds :
    (os : Os) (sd : SkDpr) (cmd : EmiMsg) (w : World)
    → is_negative (register_exchange os sd cmd w).0 ≡ false
    → (register_exchange os sd cmd w).1.fds ≡ w.fds
unfolding register_exchange
exchange-fds os sd cmd w h =
    let (r, w1) = connect os sd cmd.src_addr w in
    let (sent, w2) = write_msg os sizeof_emi_msg cmd w1 in
    ground (
      arith,
      connect-fds os sd cmd.src_addr w,
      write_msg-fds os sizeof_emi_msg cmd w1,
      read_msg-fds os cmd w2,
    )

-- A registration that succeeds leaves the socket that it opened open.
pub register-leaves_open :
    (os : Os) (host : Host) (here : Local) (msg func : ℕ) (l l' : List FuncList) (w w' : World)
    (r : ℤ)
    → is_negative r ≡ false
    → emi_msg_register os host here msg func l w ≡ some ((r, l'), w')
    → w'.fds ≡ os.socket w.time ∷ w.fds
unfolding emi_msg_register register emi_open
register-leaves_open os host here msg func l l' w w' r good h =
    let sd : SkDpr = record { d = os.socket w.time; af = af_inet } in
    let w1 : World = record (tick w) { fds = os.socket w.time ∷ w.fds } in
    elim (Option-cases (register_msg host here.junk msg 0)) [
      | inl e ↦ ground arith
      | inr (cmd, e) ↦ ground (arith, exchange-fds os sd cmd.1 w1)
    ]
