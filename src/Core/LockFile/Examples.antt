-- ===== src/Core/LockFile/Examples.antt =====
-- The lock file at concrete inputs.
use emi.Prelude.{◌+◌, ◌^◌, true, none, [], ◌∷◌, pos, minus_one, ◌≡◌, refl}
use emi.Core.LockFile.{construct_local_lock_name, LockCalls, Globals, runing_check}

-- A number with the highest bit gives the name that root has.
high_uid : construct_local_lock_name 11 (2 ^ 31 + 1000) ≡ construct_local_lock_name 11 0
unfolding construct_local_lock_name
high_uid = refl

-- A file that can be opened and is locked by another daemon: it is closed again.
abbrev locked : LockCalls
locked = record {
  opened = pos 3;
  fcntl = minus_one;
  ftruncate = pos 0;
  text = b'7' ∷ [];
  write = pos 2;
}

abbrev fresh : Globals
fresh = record {
  lock_fd = minus_one;
  sd = none;
  client_sd = none;
  core_shmid = minus_one;
  shm = true;
  world = record { time = 0; fds = pos 0 ∷ []; log = [] };
}

locked_closes : (runing_check locked fresh).1.world.fds ≡ pos 0 ∷ []
unfolding runing_check
locked_closes = refl
