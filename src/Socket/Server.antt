-- ===== src/Socket/Server.antt =====
-- The side of the daemon in emi_sock.c, `emi_listen`, `emi_bind` and `emi_accept`, and the accept
-- loop of `main` (emi_core.c). What the kernel answers is a `Daemon`, call by call.
use emi.Prelude.{
  ℕ, zero, suc, ◌+◌, Bool, true, false, Option, none, some, List, [], ◌∷◌, ◌++◌, ◌==◌,
  if◌then◌else◌, map, length, length-append, ℤ, pos, minus_one, is_negative, is_nonzero, ◌≡◌, refl,
  arith, Bool-cases, inl, inr,
}
use mathlib.Core.List.{append_assoc, append-nil, map-append}
use mathlib.Core.Path.{subst}
use emi.Message.{af_inet}
use emi.Socket.{World, SkDpr, tick, emi_close}

-- `malloc`, `accept` with the family of the peer, `pthread_create`, `pthread_detach`, and `bind`
-- and `listen` of a descriptor.
pub record Kernel : Type 0 where
  pub malloc : ℕ → Bool
  pub accept : ℕ → ℤ × ℕ
  pub pthread_create : ℕ → ℤ
  pub pthread_detach : ℕ → ℤ
  pub bind : ℕ → ℤ → ℕ → ℤ
  pub listen : ℕ → ℤ → ℤ

unfoldable pub emi_listen : Kernel → SkDpr → World → ℤ × World
emi_listen os sd w = (if is_negative (os.listen w.time sd.d) then minus_one else pos 0, tick w)

unfoldable pub emi_bind : Kernel → SkDpr → ℕ → World → ℤ × World
emi_bind os sd emi_port w =
    if sd.af == af_inet
    then (if is_negative (os.bind w.time sd.d emi_port) then minus_one else pos 0, tick w)
    else (minus_one, w)

-- The world, the blocks of memory that were taken and not freed, and the connections that were
-- given to a thread, the newest first.
pub record Server : Type 0 where
  pub world : World
  pub blocks : ℕ
  pub threads : List SkDpr

abbrev pub called : Server → Server
called s = record s { world = tick s.world }

abbrev pub took_block : Server → Server
took_block s = record s { world = tick s.world; blocks = s.blocks + 1 }

-- `emi_accept`; `with_addr` says whether the caller wants the address of the peer.
unfoldable pub emi_accept : Kernel → (with_addr : Bool) → Server → Option SkDpr × Server
emi_accept os with_addr s =
    let s1 = took_block s in
    let (d, sa_family) = os.accept s1.world.time in
    if os.malloc s.world.time
    then (if is_negative d then (none, called s1) else (
      some (record { d = d; af = if with_addr then sa_family else 0 }),
      record s1 { world = record (tick s1.world) { fds = d ∷ s1.world.fds } },
    ))
    else (none, called s)

-- From the test of `client_sd` on. `emi_close(client_sd)` gets NULL there.
unfoldable pub hand_over : Kernel → Option SkDpr → Server → Server
hand_over os none s = record s { world = emi_close none s.world }
hand_over os (some client_sd) s =
    let s1 = took_block s in
    if os.malloc s.world.time
    then (if is_nonzero (os.pthread_create s1.world.time)
        then called s1
        else (let s2 = record (called s1) { threads = client_sd ∷ s1.threads } in
            if is_nonzero (os.pthread_detach s2.world.time) then called s2 else called s2))
    else called s

-- The body of `while(1)`.
unfoldable pub accept_round : Kernel → Server → Server
unfolding emi_accept hand_over
accept_round os s = let (client_sd, s1) = emi_accept os false s in hand_over os client_sd s1

-- The first rounds of `while(1)`.
unfoldable pub accept_loop : Kernel → (rounds : ℕ) → Server → Server
accept_loop os zero s = s
accept_loop os (suc rounds) s = accept_loop os rounds (accept_round os s)

-- Nothing is refused: there is memory, and threads can be created.
abbrev pub IsPlenty : Kernel → Type 0
IsPlenty os = ((t : ℕ) → os.malloc t ≡ true) × ((t : ℕ) → is_nonzero (os.pthread_create t) ≡ false)

-- The connections that `accept` answers in the first rounds from time `t` on, the newest first: a round
-- makes a call of `malloc` and one of `accept`, and three more when there is a connection.
abbrev pub accepted : Kernel → (rounds t : ℕ) → List SkDpr
accepted os zero t = []
accepted os (suc rounds) t =
    if is_negative (os.accept (t + 1)).0
    then accepted os rounds (t + 2)
    else accepted os rounds (t + 5) ++ record { d = (os.accept (t + 1)).0; af = 0 } ∷ []

-- What rounds add: the threads `new`, their descriptors, and blocks of memory.
pub record Adds (rounds : ℕ) (new : List SkDpr) (s t : Server) : Type 0 where
  pub threads : t.threads ≡ new ++ s.threads
  pub fds : t.world.fds ≡ map (λ x. x.d) new ++ s.world.fds
  pub blocks : t.blocks ≡ s.blocks + rounds + length new

module _ (os : Kernel) (s : Server) (plenty : IsPlenty os) where
  -- A round in which `accept` fails, and one in which it does not.
  accept_round-fails :
      is_negative (os.accept (s.world.time + 1)).0 ≡ true
      → Adds 1 [] s (accept_round os s) × ((accept_round os s).world.time ≡ s.world.time + 2)
  unfolding accept_round emi_accept hand_over emi_close
  accept_round-fails e =
      rw (accept_round, emi_accept, plenty.0 s.world.time, e, hand_over)
        (record { threads = refl; fds = refl; blocks = omega arith }, omega arith)

  accept_round-accepts :
      is_negative (os.accept (s.world.time + 1)).0 ≡ false
      → Adds 1 (record { d = (os.accept (s.world.time + 1)).0; af = 0 } ∷ []) s (accept_round os s)
        × ((accept_round os s).world.time ≡ s.world.time + 5)
  unfolding accept_round emi_accept hand_over emi_close
  accept_round-accepts e =
      rw
        (
          accept_round,
          emi_accept,
          plenty.0 s.world.time,
          e,
          hand_over,
          plenty.0 (s.world.time + 1 + 1),
          plenty.1 (s.world.time + 1 + 1 + 1),
        )
        (record { threads = ground arith; fds = ground arith; blocks = ground arith }, ground arith)

Adds-trans :
    (n : ℕ) (a b : List SkDpr) (s t u : Server)
    → Adds 1 a s t
    → Adds n b t u
    → Adds (suc n) (b ++ a) s u
Adds-trans n a b s t u x y = record {
  threads = rw (y.threads, x.threads, append_assoc b a s.threads) refl;
  fds = rw (y.fds, x.fds, map-append (λ x. x.d) b a, append_assoc (map (λ x. x.d) b)) refl;
  blocks = omega (arith, x.blocks, y.blocks, length-append b a);
}

-- If there is memory and threads can be created, then after any number of rounds the main thread has
-- made a thread for each connection that `accept` answered in them, in this order, and no other. Where
-- nothing is closed or freed meanwhile, the descriptors of these connections are open besides those
-- from before, and the memory has grown by one block for each round and one for each thread: a round
-- whose `accept` fails leaves its block behind.
pub accept_loop-Adds :
    (os : Kernel) (rounds : ℕ) (s : Server)
    → IsPlenty os
    → Adds rounds (accepted os rounds s.world.time) s (accept_loop os rounds s)
unfolding accept_loop
accept_loop-Adds os zero s plenty = record { threads = refl; fds = refl; blocks = omega arith }
accept_loop-Adds os (suc rounds) s plenty =
    let t = accept_round os s in
    let u = accept_loop os rounds t in
    elim (Bool-cases (is_negative (os.accept (s.world.time + 1)).0)) [
      | inl e ↦
          let (first, time) = accept_round-fails os s plenty e in
          let later = accept_loop-Adds os rounds t plenty in
          let rest = subst (λ k. Adds rounds (accepted os rounds k) t u) time later in
          rw e (
            subst (λ l. Adds (suc rounds) l s u) (append-nil _)
              (Adds-trans rounds [] (accepted os rounds (s.world.time + 2)) s t u first rest))
      | inr e ↦
          let (first, time) = accept_round-accepts os s plenty e in
          let later = accept_loop-Adds os rounds t plenty in
          let rest = subst (λ k. Adds rounds (accepted os rounds k) t u) time later in
          rw e (Adds-trans rounds _ (accepted os rounds (s.world.time + 5)) s t u first rest)
    ]
