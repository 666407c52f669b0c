-- ===== src/Space/Bounds.antt =====
-- The shared memory that `int_global_shm_space` (emi_core.c) asks for, against the slots that
-- `emi_init_msg_space` lays out in it. On the ABIs at hand an `int` has 4 bytes and a
-- `struct emi_msg` 68, with no padding: two `struct emi_addr` of 24 and five `eu32`.
use emi.Prelude.{ℕ, suc, ◌+◌, ◌*◌, ◌≤◌, ◌<◌, ◌≢◌, ◌↔◌, arith}
use emi.MsgTable.{emi_max_msg}

abbrev pub sizeof_int : ℕ
sizeof_int = 4

abbrev pub sizeof_emi_msg : ℕ
sizeof_emi_msg = 68

abbrev pub emi_data_size_per_msg_default : ℕ
emi_data_size_per_msg_default = 1024

-- `GET_SIZE(struct emi_msg)`: the distance of the slots, which takes the default for the data.
abbrev pub slot_size : ℕ
slot_size = sizeof_emi_msg + emi_data_size_per_msg_default

-- The size given to `shmget`, with the data size that was configured.
unfoldable pub shm_size : (pid_max data_size : ℕ) → ℕ
shm_size pid_max data_size =
    pid_max * sizeof_int + sizeof_emi_msg * emi_max_msg + data_size * emi_max_msg

-- The bias that `main` gives to `emi_init_msg_space`: the index area comes first.
unfoldable pub bias : ℕ → ℕ
bias pid_max = pid_max * sizeof_int

-- The slot with number `i`.
abbrev pub slot_at : (pid_max i : ℕ) → ℕ
slot_at pid_max i = bias pid_max + i * slot_size

-- With the default data size, slot number `i` lies inside the shared memory exactly if it is not
-- the last one: slots are counted from 1, so the last one starts where the memory ends.
pub slot_fits_iff :
    (pid_max i : ℕ)
    → 0 < i
    → i ≤ emi_max_msg
    → (slot_at pid_max i + slot_size ≤ shm_size pid_max emi_data_size_per_msg_default)
      ↔ (i ≢ emi_max_msg)
unfolding shm_size bias
slot_fits_iff pid_max i lo hi = (λ h e. omega arith, λ ne. omega arith)

-- Whatever data size is configured, the slots keep the distance of the default: a message with
-- more data than the default reaches into the next slot, though `emi_recieve_operation` accepts
-- every size below the configured one.
pub data-overlaps_next :
    (pid_max i size : ℕ)
    → emi_data_size_per_msg_default < size
    → slot_at pid_max (suc i) < slot_at pid_max i + sizeof_emi_msg + size
unfolding bias
data-overlaps_next pid_max i size h = omega arith
