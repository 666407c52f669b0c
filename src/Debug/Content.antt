-- ===== src/Debug/Content.antt =====
-- What `debug_msg` and `debug_msg_map` (emi_dbg.c) read and say.
use Prim.Native.String.{String}
use emi.Prelude.{
  ℕ, zero, suc, ◌<◌, ◌≡◌, ◌≢◌, refl, ◌∙◌, Bool, true, false, not, ◌&&◌, ◌||◌, Option, none, some,
  List, [], ◌∷◌, ◌++◌, arith, leb, ◌==◌, if◌then◌else◌, length, is_some, Bool-cases, Option-cases,
  inl, inr,
}
use mathlib.Core.Bool.{or-false}
use emi.Prelude.Bits.{has}
use emi.MsgTable.{MsgMap, Table, emi_max_msg, emi_hash, ◌>>=◌}
use emi.MsgTable.Search.{emi_hsearch-null}
use emi.Message.{EmiMsg}
use emi.Message.Flag
use emi.Debug.{
  Line, Net, flag_unmatched, msgtonum, flag_loop, debug_flag, c_string, bytes_loop, data_lines,
  cmd_lines, debug_msg, debug_addr, found_line, debug_msg_map, msg_map_debugging, hash_value,
  not_in_table, no_flag_matched, msg_is, flag_is, byte,
}

-- Does a text end in these bytes?
abbrev pub ends : List ℕ → Bool
ends [] = false
ends (b ∷ l) = b == 0 || ends l

is_some-bind {ℓ κ} :
    {A : Type ℓ} {B : Type κ} (o : Option A) (f : A → B)
    → is_some (o >>= λ a. some (f a)) ≡ is_some o
is_some-bind none f = refl
is_some-bind (some a) f = refl

c_string-ends : (l : List ℕ) → is_some (c_string l) ≡ ends l
unfolding c_string
c_string-ends [] = refl
c_string-ends (b ∷ l) =
    ground (arith, is_some-bind (c_string l) (λ (r : List ℕ). b ∷ r), c_string-ends l)

bytes_loop-within : (n : ℕ) (l : List ℕ) → is_some (bytes_loop n l) ≡ leb n (length l)
unfolding bytes_loop
bytes_loop-within zero l = ground arith
bytes_loop-within (suc n) [] = ground arith
bytes_loop-within (suc n) (b ∷ l) =
    ground
      (arith, is_some-bind (bytes_loop n l) (λ (r : List Line). byte b ∷ r), bytes_loop-within n l)

data_lines-stays :
    (m : EmiMsg) → is_some (data_lines m) ≡ (ends m.payload && leb m.size (length m.payload))
unfolding data_lines
data_lines-stays m = ground (arith, c_string-ends m.payload, bytes_loop-within m.size m.payload)

-- What `debug_msg` shows of a message stays in its memory exactly if no more than its address is
-- asked for, or it has no size, or its data have a zero byte and are as long as the size says: `%s`
-- reads on to the first zero byte, whatever the size.
pub debug_msg-stays :
    (net : Net) (m : EmiMsg) (more : ℕ)
    → is_some (debug_msg net m more)
      ≡ (more == 0 || (m.size == 0 || (ends m.payload && leb m.size (length m.payload))))
unfolding debug_msg
debug_msg-stays net m more = ground (arith, data_lines-stays m)

-- Is a warning among the lines?
abbrev pub warned : List Line → Bool
warned [] = false
warned (flag_unmatched ∷ l) = true
warned (line ∷ l) = warned l

warned-append : (l k : List Line) → warned (l ++ k) ≡ (warned l || warned k)
warned-append [] k = refl
warned-append (flag_unmatched ∷ l) k = refl
warned-append (_ ∷ l) k = warned-append l k

flag_loop-quiet : (l : List (String × ℕ)) (flag : ℕ) → warned (flag_loop l flag).1 ≡ false
unfolding flag_loop
flag_loop-quiet [] flag = refl
flag_loop-quiet ((msg, num) ∷ l) flag = ground (arith, flag_loop-quiet l flag)

debug_flag-quiet : (flag : ℕ) → warned (debug_flag flag) ≡ false
unfolding debug_flag
debug_flag-quiet flag = elim (Bool-cases ((flag_loop msgtonum flag).0 == 0)) [
  | inl e ↦ rw e (
      warned-append (flag_loop msgtonum flag).1 (no_flag_matched ∷ [])
      ∙ rw (flag_loop-quiet msgtonum flag) refl)
  | inr e ↦ rw e (flag_loop-quiet msgtonum flag)
]

bytes_loop-quiet : (n : ℕ) (l : List ℕ) (k : List Line) → bytes_loop n l ≡ some k → warned k ≡ false
unfolding bytes_loop
bytes_loop-quiet zero l k e = ground arith
bytes_loop-quiet (suc n) [] k e = ground arith
bytes_loop-quiet (suc n) (b ∷ l) k e = elim (Option-cases (bytes_loop n l)) [
  | inl f ↦ ground arith
  | inr (r, f) ↦ ground (arith, bytes_loop-quiet n l r f)
]

data_lines-warned :
    (m : EmiMsg) (k : List Line)
    → data_lines m ≡ some k
    → warned k ≡ not (has m.flag Flag.type_data)
unfolding data_lines
data_lines-warned m k e = elim (Option-cases (c_string m.payload)) [
  | inl f ↦ ground arith
  | inr (text, f) ↦ elim (Option-cases (bytes_loop m.size m.payload)) [
    | inl g ↦ ground arith
    | inr (bytes, g) ↦ ground (arith, bytes_loop-quiet m.size m.payload bytes g)
  ]
]

cmd_lines-warned : (m : EmiMsg) → warned (cmd_lines m) ≡ (m.flag == 0)
unfolding cmd_lines
cmd_lines-warned m = elim (Bool-cases (m.flag == 0)) [
  | inl e ↦ rw e (unfold has in refl)
  | inr e ↦ rw e (unfold has in refl)
]

abbrev body : EmiMsg → Option (List Line)
body m = if m.size == 0 then some [] else data_lines m

abbrev command : EmiMsg → List Line
command m = if m.cmd == 0 then [] else cmd_lines m

body-warned :
    (m : EmiMsg) (k : List Line)
    → body m ≡ some k
    → warned k ≡ (not (m.size == 0) && not (has m.flag Flag.type_data))
body-warned m k e = elim (Bool-cases (m.size == 0)) [
  | inl z ↦ ground arith
  | inr z ↦ ground (arith, data_lines-warned m k)
]

command-warned : (m : EmiMsg) → warned (command m) ≡ (not (m.cmd == 0) && m.flag == 0)
command-warned m = ground (arith, cmd_lines-warned m)

rest-warned :
    (m : EmiMsg) (k : List Line)
    → warned (k ++ command m ++ msg_is m.msg ∷ flag_is m.flag ∷ debug_flag m.flag)
      ≡ (warned k || warned (command m))
rest-warned m k =
    let tail = msg_is m.msg ∷ flag_is m.flag ∷ debug_flag m.flag in
    warned-append (k ++ command m) tail
    ∙ rw (debug_flag-quiet m.flag, or-false, warned-append k (command m)) refl

-- With more than the address, `debug_msg` warns exactly if the message has a size and not the bit for
-- data, or has a command and no bit at all: a command without its own bit is not enough, since
-- `!msg->flag` is taken before the bit.
pub debug_msg-warns :
    (net : Net) (m : EmiMsg) (more : ℕ) (lines : List Line)
    → more ≢ 0
    → debug_msg net m more ≡ some lines
    → warned lines ≡ (
        (not (m.size == 0) && not (has m.flag Flag.type_data)) || (not (m.cmd == 0) && m.flag == 0))
unfolding debug_msg debug_addr
debug_msg-warns net m more lines h e = elim (Option-cases (body m)) [
  | inl f ↦ ground arith
  | inr (k, f) ↦ ground (arith, body-warned m k f, command-warned m, rest-warned m k)
]

-- `debug_msg_map` never shows the node that it was asked about: in a table that has a bucket for its
-- number, whatever stands there, it says that the registration is not in the table.
pub debug_msg_map-not_in_table :
    (fuel : ℕ) (table : Table) (map : MsgMap)
    → emi_hash map < emi_max_msg
    → length (table (emi_hash map)) < fuel
    → (links : List (ℕ × ℕ)) × (debug_msg_map fuel table map
        ≡ some (msg_map_debugging ∷ hash_value (emi_hash map) ∷ not_in_table ∷ [], links))
unfolding debug_msg_map found_line
debug_msg_map-not_in_table fuel table map inside enough =
    let (links, run) =
      emi_hsearch-null fuel table map (unfold emi_hash in inside) (unfold emi_hash in enough) in
    (links, rw run refl)
