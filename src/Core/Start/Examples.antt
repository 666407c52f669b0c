-- ===== src/Core/Start/Examples.antt =====
-- The start at a concrete machine.
use emi.Prelude.{List, is_nonzero, true, false, [], ◌∷◌, ◌≡◌, refl, some, none, pos, minus_one}
use emi.Core.Start.{
  Setup, Call, Options, parse_args, main, start_daemon, start_server, int_global_shm_space,
  init_msg_table, get_config, runing_check, read_pid_max, umask, fork, setsid, sigaction, sigterm,
  sigint, chdir, emi_init_locks,
}
use emi.Core.Start.Order.{until_shmget, preparation, main-prepares}

-- The port is taken.
abbrev taken_port : Setup
taken_port = record {
  uid = 0;
  get_config = pos 0;
  runing_check = pos 0;
  fork = pos 0;
  shmget = pos 5;
  shmat = true;
  init_msg_space = pos 0;
  emi_open = true;
  setsockopt = pos 0;
  bind = minus_one;
  listen = pos 0;
}

-- The option `-d`, and an option that there is not.
daemon_option :
    parse_args ((b'-' ∷ b'd' ∷ []) ∷ []) (record { daemonize = false; singlize = false })
    ≡ some (record { daemonize = true; singlize = false })
unfolding parse_args
daemon_option = refl

bad_option :
    parse_args ((b'-' ∷ b'x' ∷ []) ∷ []) (record { daemonize = false; singlize = false }) ≡ none
unfolding parse_args
bad_option = refl

-- With `-d`, up to the shared memory.
abbrev prepared : List Call
prepared =
    init_msg_table
    ∷ get_config
    ∷ runing_check false
    ∷ read_pid_max
    ∷ umask
    ∷ fork
    ∷ setsid
    ∷ sigaction sigterm
    ∷ sigaction sigint
    ∷ chdir
    ∷ emi_init_locks
    ∷ []

taken_port-asks : until_shmget (main taken_port ((b'-' ∷ b'd' ∷ []) ∷ [])).calls ≡ some prepared
unfolding main start_daemon start_server int_global_shm_space parse_args
taken_port-asks = refl

main-prepares_example :
    (o : Options) × (parse_args
        ((b'-' ∷ b'd' ∷ []) ∷ [])
        (record { daemonize = false; singlize = false })
      ≡ some o)
    × (is_nonzero taken_port.runing_check ≡ false)
    × (prepared ≡ preparation o)
main-prepares_example = main-prepares taken_port ((b'-' ∷ b'd' ∷ []) ∷ []) prepared taken_port-asks
