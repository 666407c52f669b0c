-- ===== src/Core/LockFile.antt =====
-- The file that keeps a second daemon from starting: its name, `construct_local_lock_name`
-- (emi_shmem.c), and `runing_check` and `sig_release` (emi_core.c), which take and leave it.
mod Examples
use emi.Prelude.{
  lt→ltb, ◌&&◌, ◌⊎◌, ℕ, zero, suc, ◌+◌, ◌-◌, ◌*◌, ◌/◌, ◌%◌, ◌^◌, ◌<◌, ◌≤◌, Bool, true, false, not,
  Option, none, some, List, [], ◌∷◌, ◌++◌, ltb, if◌then◌else◌, length, ℤ, pos, negsuc, minus_one,
  is_negative, is_nonzero, ◌≡◌, refl, arith, ap,
}
use emi.MsgTable.{◌>>=◌}
use emi.Socket.{World, SkDpr, data_events, remove_fd, same_fd, tick, emi_close}

-- LOCKBASENAME
abbrev pub lock_basename : List ℕ
lock_basename =
    b'/' ∷ b't' ∷ b'm' ∷ b'p' ∷ b'/' ∷ b'e' ∷ b'm' ∷ b'i' ∷ b'_' ∷ b'c' ∷ b'o' ∷ b'r' ∷ b'e' ∷ b'.'
    ∷ []

-- `for(j=sizeof(buf)-1;uid>0;j++)`: the digits, the lowest first. `none` is out of fuel.
unfoldable pub uid_digits : (fuel : ℕ) → ℕ → Option (List ℕ)
uid_digits zero uid = none
uid_digits (suc fuel) uid =
    let rest = uid_digits fuel (uid / 10) in
    if ltb 0 uid then (rest >>= λ l. some ((uid % 10 + b'0') ∷ l)) else some []

-- `construct_local_lock_name`: `getuid` has 32 bits, of which the upper half is negative as an int.
unfoldable pub construct_local_lock_name : (fuel getuid : ℕ) → Option (List ℕ)
construct_local_lock_name fuel getuid =
    uid_digits fuel (if ltb getuid (2 ^ 31) then getuid else 0) >>= λ l. some (lock_basename ++ l)

-- The number that digits spell, the lowest first.
abbrev pub spelled : List ℕ → ℕ
spelled [] = 0
spelled (c ∷ l) = (c - b'0') + 10 * spelled l

-- Digits that spell `uid`, as many as `fuel` allows.
abbrev pub Spells : (fuel uid : ℕ) → List ℕ → Option (List ℕ) → Type 0
Spells fuel uid l name = (name ≡ some l) × (spelled l ≡ uid) × (length l ≤ fuel)

-- A digit more.
power : (n : ℕ) → 10 ^ suc n ≡ 10 * 10 ^ n
power n = omega arith

uid_digits-Spells :
    (fuel uid : ℕ) → uid < 10 ^ fuel → (l : List ℕ) × Spells fuel uid l (uid_digits (suc fuel) uid)
unfolding uid_digits
uid_digits-Spells fuel zero h = ([], (refl, refl, omega arith))
uid_digits-Spells zero (suc uid) h = absurd (omega arith)
uid_digits-Spells (suc fuel) (suc uid) h =
    let (l, (found, value, short)) =
      uid_digits-Spells fuel (suc uid / 10) (omega (arith, power fuel)) in
    (
      (suc uid % 10 + b'0') ∷ l,
      (
        rw (lt→ltb 0 (suc uid) (omega arith), found) refl,
        omega (arith, value),
        omega (arith, short),
      ),
    )

-- For a user whose number is below 2 ^ 31 the name of the lock file is the basename and at most ten
-- digits, which spell the number, the lowest digit first; ten rounds and one more are enough.
pub construct_local_lock_name-Spells :
    (getuid : ℕ)
    → getuid < 2 ^ 31
    → (l : List ℕ) × (construct_local_lock_name 11 getuid ≡ some (lock_basename ++ l))
      × (spelled l ≡ getuid)
      × (length l ≤ 10)
unfolding construct_local_lock_name
construct_local_lock_name-Spells getuid h =
    let (l, (found, value, short)) = uid_digits-Spells 10 getuid (omega arith) in
    (l, rw (lt→ltb getuid (2 ^ 31) h, found) refl, value, short)

-- What the calls of `runing_check` answer; the text is what `sprintf` makes of the pid.
pub record LockCalls : Type 0 where
  pub opened : ℤ
  pub fcntl : ℤ
  pub ftruncate : ℤ
  pub text : List ℕ
  pub write : ℤ

-- The globals `lock_fd`, `sd`, `client_sd` and `core_shmid`, whether the shared memory exists, and
-- the descriptors.
pub record Globals : Type 0 where
  pub lock_fd : ℤ
  pub sd : Option SkDpr
  pub client_sd : Option SkDpr
  pub core_shmid : ℤ
  pub shm : Bool
  pub world : World

abbrev pub close_fd : ℤ → World → World
close_fd fd w = record (tick w) { fds = remove_fd fd w.fds }

unfoldable pub runing_check : LockCalls → Globals → ℤ × Globals
runing_check os g =
    let opened = record g {
      lock_fd = os.opened;
      world = record (tick g.world) { fds = os.opened ∷ g.world.fds };
    } in
    let closed = record opened { world = close_fd os.opened opened.world } in
    let written = record opened {
      world = record opened.world {
        log = opened.world.log ++ data_events os.write (length os.text) os.text;
      };
    } in
    if is_negative os.opened
    then (minus_one, record g { world = tick g.world })
    else if is_negative os.fcntl
    then (minus_one, closed)
    else if is_nonzero os.ftruncate
    then (minus_one, closed)
    else if is_negative os.write
    then (minus_one, record written { world = close_fd os.opened written.world })
    else (pos 0, written)

-- What is left when the process exits in `sig_release`.
unfoldable pub sig_release : Globals → Globals
sig_release g =
    let w = if is_negative g.lock_fd then g.world else close_fd g.lock_fd g.world in
    record g {
      world = emi_close g.client_sd (emi_close g.sd w);
      shm = is_negative g.core_shmid && g.shm;
    }

-- If `runing_check` succeeds, the file it opened is `lock_fd` and stays open, with what `write` took
-- of the pid as the last that was written; if it fails, the open descriptors are those from before.
pub runing_check-fds :
    (os : LockCalls) (g : Globals)
    → let (result, h) = runing_check os g in
      ((result ≡ pos 0)
        × (h.lock_fd ≡ os.opened)
        × (h.world.fds ≡ os.opened ∷ g.world.fds)
        × (h.world.log ≡ g.world.log ++ data_events os.write (length os.text) os.text))
      ⊎ ((result ≡ minus_one) × (h.world.fds ≡ g.world.fds))
unfolding runing_check
runing_check-fds os g = ground arith
