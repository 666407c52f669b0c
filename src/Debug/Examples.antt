-- ===== src/Debug/Examples.antt =====
-- The debug output at concrete inputs.
use emi.Prelude.{
  ◌≡◌, refl, false, ◌&&◌, ◌||◌, none, some, List, [], ◌∷◌, ◌==◌, length, is_some, leb, Option,
}
use emi.Prelude.Bits.{has}
use emi.MsgTable.{msg_map, emi_hash, load_chain}
use emi.MsgTable.Examples.{mixed_table, mixed-IsWellFormed}
use emi.Message.{EmiMsg, zero_msg}
use emi.Message.Flag
use emi.Debug.{
  Line, Net, no_flag_matched, debug_flag, debug_msg_table, debug_msg_full_table, debug_msg,
  debug_msg_chain, newline, msg_chain_debugging, chan, single_map,
}
use emi.Debug.Rows.{shown, Shows, debug_msg_full_table-Shows}
use emi.Debug.Content.{ends, warned, debug_msg-stays}

debug_msg_full_table-Shows_example :
    (a b : List Line) × (debug_msg_table mixed_table ≡ some a)
    × (debug_msg_full_table mixed_table ≡ some b)
    × (shown a ≡ shown b)
    × Shows mixed_table b
debug_msg_full_table-Shows_example = debug_msg_full_table-Shows mixed_table mixed-IsWellFormed

abbrev net : Net
net = record { inet_ntoa = λ a. []; ntohs = λ p. p }

abbrev get_or_nil : Option (List Line) → List Line
get_or_nil none = []
get_or_nil (some l) = l

-- A command whose bit is not set, only another.
abbrev bare : EmiMsg
bare = record (zero_msg []) { cmd = 7; flag = Flag.flag_block }

bare-quiet : warned (get_or_nil (debug_msg net bare 1)) ≡ false
unfolding debug_msg has
bare-quiet = refl

-- The bit for AES has no name.
aes_unnamed : debug_flag Flag.flag_aes ≡ no_flag_matched ∷ []
unfolding debug_flag has
aes_unnamed = refl

-- Three bytes without a zero behind them.
abbrev unended : EmiMsg
unended = record (zero_msg (1 ∷ 2 ∷ 3 ∷ [])) { size = 3; flag = Flag.type_data }

debug_msg-stays_example : is_some (debug_msg net unended 1) ≡ (
    ◌==◌ 1 0
    || (unended.size == 0 || (ends unended.payload && leb unended.size (length unended.payload))))
debug_msg-stays_example = debug_msg-stays net unended 1

chain_shown :
    debug_msg_chain mixed_table (msg_map 1 0)
    ≡ some (
        newline
        ∷ msg_chain_debugging
        ∷ chan 0
        ∷ single_map 0x1001 9
        ∷ chan 1
        ∷ single_map 1 7
        ∷ chan 2
        ∷ single_map 1 8
        ∷ newline
        ∷ [])
unfolding debug_msg_chain emi_hash load_chain
chain_shown = refl
