-- ===== src/Message/Flag.antt =====
-- The bits of `msg->flag`, EMI_MSG_TYPE_CMD and so on.
use emi.Prelude.{ℕ}

abbrev pub type_cmd : ℕ
type_cmd = 0x00000001

abbrev pub type_data : ℕ
type_data = 0x00000002

abbrev pub flag_block : ℕ
flag_block = 0x00000100

abbrev pub flag_block_return : ℕ
flag_block_return = 0x00000200

abbrev pub flag_nonblock : ℕ
flag_nonblock = 0x00000400

abbrev pub flag_create : ℕ
flag_create = 0x00002000

abbrev pub cmd_register : ℕ
cmd_register = 0x00004000

abbrev pub cmd_get : ℕ
cmd_get = 0x00008000

abbrev pub cmd_succeeded : ℕ
cmd_succeeded = 0x00010000

abbrev pub flag_aes : ℕ
flag_aes = 0x00040000
