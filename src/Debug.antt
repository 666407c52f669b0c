-- ===== src/Debug.antt =====
-- emi_dbg.c: what the debug output shows. A call of `printf` is a `Line`, a constructor for each
-- format with the arguments that it prints, but for the addresses of objects. `none` is a read
-- outside the table, or behind the data of a message.
pub mod Rows
pub mod Content
mod Examples
use Prim.Native.String.{String}
use emi.Prelude.{
  ℕ, zero, suc, ◌≡◌, true, false, not, Option, none, some, List, [], ◌∷◌, ◌++◌, get_elem?, ◌==◌,
  if◌then◌else◌, is_nonzero,
}
use emi.Prelude.Bits.{has}
use emi.MsgTable.{MsgMap, Chain, Table, emi_hash_mask, load_chain, emi_hash, emi_hsearch, ◌>>=◌}
use emi.Message.{EmiAddr, EmiMsg}
use emi.Message.Flag

pub data Line : Type 0 where
  flag_include : (name : String) (num : ℕ) → Line
  no_flag_matched : Line
  addr : (name : String) (ip : List ℕ) (port pid : ℕ) → Line
  emi_msg_debuging : Line
  size_is : ℕ → Line
  flag_unmatched : Line
  content : (size : ℕ) (text : List ℕ) → Line
  byte : ℕ → Line
  cmd_is : ℕ → Line
  msg_is : ℕ → Line
  flag_is : ℕ → Line
  single_map : (msg pid : ℕ) → Line
  single_map_null : Line
  msg_map_debugging : Line
  hash_value : ℕ → Line
  not_in_table : Line
  msg_chain_debugging : Line
  chan : ℕ → Line
  printing_table : Line
  printing_full_table : Line
  row : ℕ → Line
  newline : Line

-- `inet_ntoa` and `ntohs`.
pub record Net : Type 0 where
  pub inet_ntoa : ℕ → List ℕ
  pub ntohs : ℕ → ℕ

-- `msgtonum`
abbrev pub msgtonum : List (String × ℕ)
msgtonum =
    ("EMI_MSG_TYPE_CMD", 0x00000001)
    ∷ ("EMI_MSG_TYPE_DATA", 0x00000002)
    ∷ ("EMI_MSG_TYPE_BIN", 0x00000004)
    ∷ ("EMI_MSG_FLAG_UNIDIRECTION", 0x00000010)
    ∷ ("EMI_MSG_FLAG_BIDIRECTION", 0x00000020)
    ∷ ("EMI_MSG_FLAG_LOCAL", 0x00000040)
    ∷ ("EMI_MSG_FLAG_REMOTE", 0x00000080)
    ∷ ("EMI_MSG_FLAG_BLOCK", 0x00000100)
    ∷ ("EMI_MSG_FLAG_BLOCK_RETURN", 0x00000200)
    ∷ ("EMI_MSG_FLAG_NONBLOCK", 0x00000400)
    ∷ ("EMI_MSG_FLAG_CREATE", 0x00002000)
    ∷ ("EMICORE_CMD_REGISTER", 0x00004000)
    ∷ ("EMICORE_CMD_GET", 0x00008000)
    ∷ ("EMI_MSG_CMD_SUCCEEDED", 0x00010000)
    ∷ ("EMI_MSG_CMD_FAILED", 0x00020000)
    ∷ []

-- The loop of `debug_flag`: `j`, and what was printed.
unfoldable pub flag_loop : List (String × ℕ) → ℕ → ℕ × List Line
flag_loop [] flag = (0, [])
flag_loop ((msg, num) ∷ l) flag =
    let (j, lines) = flag_loop l flag in
    if has flag num then (suc j, flag_include msg num ∷ lines) else (j, lines)

unfoldable pub debug_flag : ℕ → List Line
unfolding flag_loop
debug_flag flag =
    let (j, lines) = flag_loop msgtonum flag in
    if j == 0 then lines ++ no_flag_matched ∷ [] else lines

unfoldable pub debug_addr : Net → EmiAddr → String → Line
debug_addr net a p = addr p (net.inet_ntoa a.ip) (net.ntohs a.port) a.pid

-- `%s`: the bytes before the first zero.
unfoldable pub c_string : List ℕ → Option (List ℕ)
c_string [] = none
c_string (b ∷ l) = if b == 0 then some [] else (c_string l >>= λ r. some (b ∷ r))

-- `for(i=0;i<msg->size;i++)` over the data. A `byte` is the byte that stands there, which `%d` shows
-- with the sign that a `char` has on the machine.
unfoldable pub bytes_loop : ℕ → List ℕ → Option (List Line)
bytes_loop zero d = some []
bytes_loop (suc left) [] = none
bytes_loop (suc left) (b ∷ d) = bytes_loop left d >>= λ r. some (byte b ∷ r)

unfoldable pub data_lines : EmiMsg → Option (List Line)
unfolding c_string bytes_loop
data_lines m = do
  let warning = if not (has m.flag Flag.type_data) then flag_unmatched ∷ [] else []
  text ← c_string m.payload
  bytes ← bytes_loop m.size m.payload
  some (warning ++ content m.size text ∷ bytes)

-- `!msg->flag&EMI_MSG_TYPE_CMD` is `(!msg->flag)&EMI_MSG_TYPE_CMD`.
unfoldable pub cmd_lines : EmiMsg → List Line
cmd_lines m =
    let denied : ℕ = if m.flag == 0 then 1 else 0 in
    (if has denied Flag.type_cmd then flag_unmatched ∷ [] else []) ++ cmd_is m.cmd ∷ []

unfoldable pub debug_msg : Net → EmiMsg → (more : ℕ) → Option (List Line)
unfolding debug_addr data_lines cmd_lines debug_flag
debug_msg net m more =
    if more == 0
    then some (emi_msg_debuging ∷ [])
    else ((if m.size == 0 then some [] else data_lines m) >>= λ body. some (
        emi_msg_debuging
        ∷ debug_addr net m.src_addr "src_addr"
        ∷ size_is m.size
        ∷ (body
            ++ (if m.cmd == 0 then [] else cmd_lines m)
            ++ msg_is m.msg ∷ flag_is m.flag ∷ debug_flag m.flag)))

unfoldable pub debug_single_map : Option MsgMap → Line
debug_single_map (some map) = single_map map.msg map.pid
debug_single_map none = single_map_null

unfoldable pub found_line : Option MsgMap → Line
unfolding debug_single_map
found_line none = not_in_table
found_line (some tmp) = debug_single_map (some tmp)

-- With the `same_next` writes of its search.
unfoldable pub debug_msg_map : ℕ → Table → MsgMap → Option (List Line × List (ℕ × ℕ))
unfolding found_line
debug_msg_map fuel table map = do
  (tmp, links) ← emi_hsearch fuel table map
  some (msg_map_debugging ∷ hash_value (emi_hash map) ∷ found_line tmp ∷ [], links)

-- The loop over a chain in `debug_msg_chain`, from node `j` on, and those in the two functions below.
unfoldable pub chain_lines : ℕ → Chain → List Line
unfolding debug_single_map
chain_lines j [] = []
chain_lines j (tmp ∷ c) = chan j ∷ debug_single_map (some tmp) ∷ chain_lines (suc j) c

unfoldable pub debug_msg_chain : Table → MsgMap → Option (List Line)
unfolding chain_lines
debug_msg_chain table map = do
  c ← load_chain table (emi_hash map)
  some (newline ∷ msg_chain_debugging ∷ (chain_lines 0 c ++ newline ∷ []))

-- The rows from `i` on, `left` in number.
unfoldable pub table_loop : (left i : ℕ) → Table → Option (List Line)
unfolding chain_lines
table_loop zero i table = some []
table_loop (suc left) i table = do
  c ← load_chain table i
  rest ← table_loop left (suc i) table
  some (row i ∷ (chain_lines 0 c ++ newline ∷ rest))

unfoldable pub debug_msg_table : Table → Option (List Line)
unfolding table_loop
debug_msg_table table = table_loop emi_hash_mask 0 table >>= λ rows. some (printing_table ∷ rows)

-- Rows without a chain are left out.
unfoldable pub full_loop : (left i : ℕ) → Table → Option (List Line)
unfolding chain_lines
full_loop zero i table = some []
full_loop (suc left) i table = do
  c ← load_chain table i
  rest ← full_loop left (suc i) table
  some (elim c [ [] ↦ rest | x ∷ l ↦ row i ∷ (chain_lines 0 (x ∷ l) ++ newline ∷ rest) ])

unfoldable pub debug_msg_full_table : Table → Option (List Line)
unfolding full_loop
debug_msg_full_table table =
    full_loop emi_hash_mask 0 table >>= λ rows. some (printing_full_table ∷ rows)
