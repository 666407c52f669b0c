-- ===== src/Core/Start/Order.antt =====
-- The order of the calls of `main` (emi_core.c), and what they leave.
use emi.Prelude.{
  ℕ, Bool, true, false, not, ◌&&◌, Option, none, some, List, [], ◌∷◌, ◌++◌, if◌then◌else◌,
  is_negative, is_nonzero, ◌≡◌, refl, arith, Option-cases, inl, inr,
}
use emi.Core.Start.{
  Setup, Options, Call, shmget, init_msg_table, get_config, runing_check, read_pid_max, umask, fork,
  setsid, sigaction, sigterm, sigint, chdir, emi_init_locks, shmat, remove_shm, parse_args,
  int_global_shm_space, start_server, start_daemon, main,
}

-- The calls before the shared memory is asked for; `none` if it is not.
abbrev pub until_shmget : List Call → Option (List Call)
until_shmget [] = none
until_shmget (shmget ∷ l) = some []
until_shmget (c ∷ l) = elim (until_shmget l) [ none ↦ none | some k ↦ some (c ∷ k) ]

abbrev pub preparation : Options → List Call
preparation o =
    init_msg_table
    ∷ get_config
    ∷ runing_check o.singlize
    ∷ read_pid_max
    ∷ umask
    ∷ ((if o.daemonize then fork ∷ [] else [])
        ++ setsid ∷ sigaction sigterm ∷ sigaction sigint ∷ chdir ∷ emi_init_locks ∷ [])

-- The calls of `int_global_shm_space` behind the first.
abbrev attach : Setup → List Call
attach x =
    if is_negative x.shmget then [] else if x.shmat then shmat ∷ [] else shmat ∷ remove_shm ∷ []

int_global-calls : (x : Setup) → (int_global_shm_space x).2 ≡ shmget ∷ attach x
unfolding int_global_shm_space
int_global-calls x = ground arith

start_server-until :
    (x : Setup)
    → until_shmget (start_server x).calls
      ≡ some (setsid ∷ sigaction sigterm ∷ sigaction sigint ∷ chdir ∷ emi_init_locks ∷ [])
unfolding start_server
start_server-until x = rw (int_global-calls x) refl

start_daemon-until :
    (x : Setup) (o : Options) (k : List Call)
    → until_shmget (start_daemon x o).calls ≡ some k
    → init_msg_table ∷ get_config ∷ k ≡ preparation o
unfolding start_daemon
start_daemon-until x o k e = ground (arith, start_server-until x)

start_daemon-locked :
    (x : Setup) (o : Options) (k : List Call)
    → until_shmget (start_daemon x o).calls ≡ some k
    → is_nonzero x.runing_check ≡ false
unfolding start_daemon
start_daemon-locked x o k e = ground arith

-- If `main` asks for the shared memory, then its arguments are options that there are, the lock file
-- was taken, and the calls before are these: the table is cleared, the configuration read, the lock
-- file taken, and then, with `-d`, `fork` called; both signals are set up and the locks initialised.
pub main-prepares :
    (x : Setup) (args : List (List ℕ)) (k : List Call)
    → until_shmget (main x args).calls ≡ some k
    → (o : Options) × (parse_args args (record { daemonize = false; singlize = false }) ≡ some o)
      × (is_nonzero x.runing_check ≡ false)
      × (k ≡ preparation o)
unfolding main
main-prepares x args k e =
    elim (Option-cases (parse_args args (record { daemonize = false; singlize = false }))) [
      | inl f ↦ ground arith
      | inr (o, f) ↦ elim (Option-cases (until_shmget (start_daemon x o).calls)) [
        | inl g ↦ ground arith
        | inr (l, g) ↦
            (o, f, start_daemon-locked x o l g, ground (arith, start_daemon-until x o l g))
      ]
    ]

-- Was the segment asked for and made, and not removed?
abbrev pub asked : List Call → Bool
asked [] = false
asked (shmget ∷ l) = true
asked (c ∷ l) = asked l

abbrev pub removed : List Call → Bool
removed [] = false
removed (remove_shm ∷ l) = true
removed (c ∷ l) = removed l

abbrev pub left_over : Setup → List Call → Bool
left_over x l = asked l && not (is_negative x.shmget) && not (removed l)

start_server-left : (x : Setup) → (start_server x).shm ≡ left_over x (start_server x).calls
unfolding start_server int_global_shm_space
start_server-left x = ground arith

main-left : (x : Setup) (args : List (List ℕ)) → (main x args).shm ≡ left_over x (main x args).calls
unfolding main start_daemon
main-left x args = ground (arith, start_server-left x)
