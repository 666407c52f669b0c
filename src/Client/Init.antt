-- ===== src/Client/Init.antt =====
-- `emi_init` (emi_if.c): a process reads the configuration and finds the shared memory.
use emi.Prelude.{
  ℕ, arith, ◌≡◌, ap, Option, some, List, if◌then◌else◌, ℤ, pos, minus_one, is_negative,
}
use emi.MsgTable.{◌>>=◌}
use emi.Config.{EmiConfig, ConfigFile, set_default_config, get_config}
use emi.Config.Lines.{Line, render_all, apply_all, AllLines, IsReadable, get_config-lines}

-- `struct emi_global`, without `sem_id`, which nothing uses.
pub record EmiGlobal : Type 0 where
  pub shm_id : ℤ
  pub urandom_fd : ℤ

-- What `shmget` answers for a key, and `open` for /dev/urandom.
pub record Machine : Type 0 where
  pub shmget : ℕ → ℤ
  pub urandom : ℤ

-- From the configuration on.
unfoldable pub find_shared : Machine → EmiConfig → EmiGlobal → ℤ × EmiGlobal
find_shared x config g =
    let found = record g { shm_id = x.shmget config.emi_key } in
    if is_negative found.shm_id
    then (minus_one, found)
    else (if is_negative x.urandom
        then (minus_one, record found { urandom_fd = x.urandom })
        else (pos 0, record found { urandom_fd = x.urandom }))

-- What `get_config` answers does not count. `none` is its fault.
unfoldable pub emi_init :
    (atoi : List ℕ → ℕ) → ConfigFile → Machine → EmiGlobal → Option (ℤ × EmiGlobal)
unfolding find_shared
emi_init atoi f x g = get_config atoi f >>= λ r. some (find_shared x r.1 g)

-- Does the process find its shared memory and its random numbers?
abbrev pub ready : Machine → ℕ → ℤ
ready x k =
    if is_negative (x.shmget k)
    then minus_one
    else if is_negative x.urandom
    then minus_one
    else pos 0

find_shared-ready :
    (x : Machine) (config : EmiConfig) (g : EmiGlobal)
    → ((find_shared x config g).0 ≡ ready x config.emi_key)
      × ((find_shared x config g).1.shm_id ≡ x.shmget config.emi_key)
unfolding find_shared
find_shared-ready x config g = (ground arith, ground arith)

-- With a readable file of lines, `emi_init` looks for the shared memory whose key the lines mean,
-- keeps what `shmget` answers for it, and answers 0 exactly if it is there and /dev/urandom opens.
pub emi_init-lines :
    (atoi : List ℕ → ℕ) (f : ConfigFile) (ls : List Line) (x : Machine) (g : EmiGlobal)
    → IsReadable f
    → f.bytes ≡ render_all ls
    → AllLines ls
    → (h : EmiGlobal) × (emi_init atoi f x g
        ≡ some (ready x (apply_all atoi ls set_default_config).emi_key, h))
      × (h.shm_id ≡ x.shmget (apply_all atoi ls set_default_config).emi_key)
unfolding emi_init
emi_init-lines atoi f ls x g r e all =
    let config = apply_all atoi ls set_default_config in
    let found = find_shared x config g in
    let looked = find_shared-ready x config g in
    (
      found.1,
      rw (get_config-lines atoi f ls r e all) (ap (λ z. some (z, found.1)) looked.0),
      looked.1,
    )
