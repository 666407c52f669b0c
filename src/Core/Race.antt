-- ===== src/Core/Race.antt =====
-- The delivery of one message as the processes run it: the thread of the daemon (emi_core.c, the
-- loop of `emi_recieve_operation` and the wait for `msg_pos->count` behind it) between the handlers
-- of the processes that it signals (`func_sterotype` in emi_if.c), a shared access at a time and in
-- any order. `count++` and `count--` are a load and a store.
pub mod Lost
mod Examples
use emi.Prelude.{ℕ, suc, ◌+◌, ◌-◌, ◌%◌, ◌^◌, Bool, true, false, List, [], ◌∷◌, ◌≡◌}

-- `msg_pos->count` and the index cell of the process that was signalled last.
pub record Shared : Type 0 where
  pub count : ℕ
  pub cell : ℕ

-- Where the thread of the daemon stands, and how many rounds of its loop are left.
pub data Phase : Type 0 where
  searching : (left : ℕ) → Phase  -- before `__emi_hsearch`
  signalled : (left : ℕ) → Phase  -- behind a `kill` that succeeded
  raising : (left seen : ℕ) → Phase  -- between the load and the store of `count++`
  waiting : (left : ℕ) → Phase  -- `while(*pid_num)`
  draining : Phase  -- `while(msg_pos->count)`
  finished : Phase

-- Where a handler stands.
pub data Handler : Type 0 where
  called : Handler  -- the signal is sent
  inside : Handler  -- the cell is cleared, the functions run
  lowering : (seen : ℕ) → Handler  -- between the load and the store of `count--`
  done : Handler

-- The handlers, the newest first.
pub record System : Type 0 where
  pub mem : Shared
  pub handlers : List Handler
  pub daemon : Phase

abbrev pub u32 : ℕ → ℕ
u32 n = n % 2 ^ 32

abbrev pub raised : Shared → ℕ → Shared
raised m seen = record m { count = u32 (seen + 1) }

abbrev pub lowered : Shared → ℕ → Shared
lowered m seen = record m { count = u32 (seen + (2 ^ 32 - 1)) }

-- One step of one handler.
pub data Turn (m : Shared) : List Handler → Shared → List Handler → Type 0 where
  clear : {hs : List Handler} → Turn m (called ∷ hs) (record m { cell = 0 }) (inside ∷ hs)
  load : {hs : List Handler} → Turn m (inside ∷ hs) m (lowering m.count ∷ hs)
  store : {seen : ℕ} {hs : List Handler} → Turn m (lowering seen ∷ hs) (lowered m seen) (done ∷ hs)
  older :
      {h : Handler} {hs ks : List Handler} {n : Shared}
      → Turn m hs n ks
      → Turn m (h ∷ hs) n (h ∷ ks)

-- One step of the daemon, with the message at the offset `nth`. A wait is no step: it goes on when
-- what it waits for is there.
pub data Act (nth : ℕ) (m : Shared) (hs : List Handler)
    : Phase → Shared → List Handler → Phase → Type 0 where
  signal :
      {left : ℕ}
      → Act nth m hs (searching (suc left)) (record m { cell = nth }) (called ∷ hs) (signalled left)
  gone :
      {left : ℕ} → Act nth m hs (searching (suc left)) (record m { cell = 0 }) hs (searching left)
  fetch : {left : ℕ} → Act nth m hs (signalled left) m hs (raising left m.count)
  put : {left seen : ℕ} → Act nth m hs (raising left seen) (raised m seen) hs (waiting left)
  go_on : {left : ℕ} → m.cell ≡ 0 → Act nth m hs (waiting left) m hs (searching left)
  drain : Act nth m hs (searching 0) m hs draining
  leave : m.count ≡ 0 → Act nth m hs draining m hs finished

pub data Move (nth : ℕ) (s : System) : System → Type 0 where
  act :
      {m : Shared} {hs : List Handler} {p : Phase}
      → Act nth s.mem s.handlers s.daemon m hs p
      → Move nth s (record { mem = m; handlers = hs; daemon = p })
  turn :
      {m : Shared} {hs : List Handler}
      → Turn s.mem s.handlers m hs
      → Move nth s (record { mem = m; handlers = hs; daemon = s.daemon })

-- The message was read from a sender that left the count at zero, and the loop has `left` rounds.
abbrev pub init : ℕ → System
init left = record { mem = record { count = 0; cell = 0 }; handlers = []; daemon = searching left }

pub data Reach (nth : ℕ) (s : System) : System → Type 0 where
  here : Reach nth s s
  later : {t u : System} → Reach nth s t → Move nth t u → Reach nth s u

-- Whatever is picked next, the daemon finishes.
pub data Inevitable (nth : ℕ) : System → Type 0 where
  now : {s : System} → s.daemon ≡ finished → Inevitable nth s
  soon :
      {s : System} (t : System)
      → Move nth s t
      → ((u : System) → Move nth s u → Inevitable nth u)
      → Inevitable nth s

-- How many handlers have not taken their one off the count.
abbrev pub pending : List Handler → ℕ
pending [] = 0
pending (done ∷ hs) = pending hs
pending (called ∷ hs) = suc (pending hs)
pending (inside ∷ hs) = suc (pending hs)
pending (lowering seen ∷ hs) = suc (pending hs)
