-- ===== src/Core/Start.antt =====
-- The start of the daemon: `main` (emi_core.c) up to its accept loop. A `Setup` says what each call
-- answers; the outcome says what is left behind, and which calls were made.
pub mod Order
mod Examples
use emi.Prelude.{
  ℕ, Bool, true, false, not, ◌&&◌, Option, none, some, List, [], ◌∷◌, ◌++◌, ◌==◌, if◌then◌else◌, ℤ,
  pos, negsuc, zero, minus_one, is_negative, is_nonzero, ◌≡◌, ◌||◌, arith,
}

-- `get_pid_max`: the number in /proc/sys/kernel/pid_max, or a default; `atoi` stands for the
-- library's function, and the bytes for what `read` leaves in the buffer.
unfoldable pub get_pid_max : (atoi : List ℕ → ℕ) (opened read : ℤ) → List ℕ → ℕ
get_pid_max atoi opened read buf =
    if is_negative opened then 32768 else if is_negative read then 32768 else atoi buf

-- The options `-d` and `-s`.
pub record Options : Type 0 where
  pub daemonize : Bool
  pub singlize : Bool

-- The letters of one argument behind its '-'; `none` prints the usage.
unfoldable pub parse_letters : List ℕ → Options → Option Options
parse_letters [] o = some o
parse_letters (opt ∷ l) o = elim (opt == b'd') [
  | true ↦ parse_letters l (record o { daemonize = true })
  | false ↦ elim (opt == b's') [
    | true ↦ parse_letters l (record o { singlize = true })
    | false ↦ none
  ]
]

-- The arguments, up to the first without a '-'.
unfoldable pub parse_args : List (List ℕ) → Options → Option Options
unfolding parse_letters
parse_args [] o = some o
parse_args ([] ∷ args) o = some o
parse_args ((c ∷ l) ∷ args) o = elim (c == b'-') [
  | false ↦ some o
  | true ↦ elim (parse_letters l o) [ none ↦ none | some o' ↦ parse_args args o' ]
]

-- `z == -1`
abbrev pub is_minus_one : ℤ → Bool
is_minus_one (negsuc zero) = true
is_minus_one _ = false

-- SIGTERM and SIGINT
abbrev pub sigterm : ℕ
sigterm = 15

abbrev pub sigint : ℕ
sigint = 2

pub record Setup : Type 0 where
  pub uid : ℕ
  pub get_config : ℤ
  pub runing_check : ℤ
  pub fork : ℤ
  pub shmget : ℤ
  pub shmat : Bool
  pub init_msg_space : ℤ
  pub emi_open : Bool
  pub setsockopt : ℤ
  pub bind : ℤ
  pub listen : ℤ

-- The calls that `main` makes, in this order: `runing_check` of the file of the user or of the system,
-- `sigaction` for a signal, and `remove_shm` for `shmctl` with IPC_RMID.
pub data Call : Type 0 where
  print_usage init_msg_table get_config read_pid_max umask fork setsid chdir : Call
  runing_check : (local : Bool) → Call
  sigaction : (signal : ℕ) → Call
  emi_init_locks shmget shmat remove_shm emi_init_msg_space : Call
  emi_open setsockopt emi_bind emi_listen emi_close : Call

-- How `main` goes on: it returns, or it serves; whether the shared memory of this run exists; and the
-- calls that were made.
pub record Outcome : Type 0 where
  pub code : Option ℤ
  pub shm : Bool
  pub calls : List Call

abbrev pub stop : ℤ → Bool → Outcome
stop code shm = record { code = some code; shm = shm; calls = [] }

-- The calls, and then what comes after them.
abbrev pub after : List Call → Outcome → Outcome
after calls o = record o { calls = calls ++ o.calls }

-- `int_global_shm_space`: the result, whether the segment is there afterwards, and the calls.
unfoldable pub int_global_shm_space : Setup → ℤ × Bool × List Call
int_global_shm_space x =
    if is_negative x.shmget
    then (minus_one, false, shmget ∷ [])
    else if x.shmat
    then (pos 0, true, shmget ∷ shmat ∷ [])
    else (minus_one, false, shmget ∷ shmat ∷ remove_shm ∷ [])

-- From the signals on.
unfoldable pub start_server : Setup → Outcome
unfolding int_global_shm_space
start_server x =
    let (failed, there, made) = int_global_shm_space x in
    after (setsid ∷ sigaction sigterm ∷ sigaction sigint ∷ chdir ∷ emi_init_locks ∷ made) (
      if is_nonzero failed
      then stop minus_one there
      else after (emi_init_msg_space ∷ []) (
          if is_nonzero x.init_msg_space
          then stop minus_one there
          else after (emi_open ∷ []) (
              if not x.emi_open
              then after (remove_shm ∷ []) (stop minus_one false)
              else after (setsockopt ∷ []) (
                  if is_minus_one x.setsockopt
                  then stop minus_one there
                  else after (emi_bind ∷ []) (
                      if is_negative x.bind
                      then after (emi_close ∷ remove_shm ∷ []) (stop minus_one false)
                      else after (emi_listen ∷ []) (
                          if is_negative x.listen
                          then after (emi_close ∷ remove_shm ∷ []) (stop minus_one false)
                          else record { code = none; shm = there; calls = [] }))))))

-- From the lock file on.
unfoldable pub start_daemon : Setup → Options → Outcome
unfolding start_server
start_daemon x o = after (runing_check o.singlize ∷ []) (
    if is_nonzero x.runing_check
    then stop minus_one false
    else after (read_pid_max ∷ umask ∷ []) (
        if o.daemonize
        then after (fork ∷ []) (
            if is_negative x.fork
            then stop minus_one false
            else if is_nonzero x.fork
            then stop (pos 0) false
            else start_server x)
        else start_server x))

unfoldable pub main : Setup → List (List ℕ) → Outcome
main x args = elim (parse_args args (record { daemonize = false; singlize = false })) [
  | none ↦ after (print_usage ∷ []) (stop (pos 0) false)
  | some o ↦
      if not o.singlize && not (x.uid == 0)
      then after (print_usage ∷ []) (stop (pos 0) false)
      else after (init_msg_table ∷ get_config ∷ []) (
          if o.singlize && is_negative x.get_config then stop minus_one false else start_daemon x o)
]

-- Was shared memory made, and then the pool or the socket option refused?
abbrev pub forgets : Setup → Bool
forgets x =
    not (is_negative x.shmget)
    && x.shmat
    && (is_nonzero x.init_msg_space || (x.emi_open && is_minus_one x.setsockopt))

-- Is there a code that `main` returns?
abbrev pub returns : Outcome → Bool
returns r = elim r.code [ none ↦ false | some c ↦ true ]

-- When the start fails, the shared memory that it made still exists exactly if the pool was
-- refused, or the socket was there and its option was refused.
pub start_server-shm :
    (x : Setup) → returns (start_server x) ≡ true → (start_server x).shm ≡ forgets x
unfolding start_server
start_server-shm x failed = ground arith

-- If `main` returns although it made shared memory that still exists, then the pool was refused,
-- or the socket was there and its option was refused; every other return leaves no shared memory.
pub main-shm :
    (x : Setup) (args : List (List ℕ))
    → returns (main x args) ≡ true
    → forgets x ≡ false
    → (main x args).shm ≡ false
unfolding main start_daemon start_server
main-shm x args r kept = ground arith
