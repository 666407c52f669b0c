-- ===== src/Core/Race/Lost.antt =====
-- An update of the count can be lost.
use emi.Prelude.{ℕ, zero, suc, ◌+◌, ◌-◌, ◌%◌, ◌^◌, ◌<◌, List, [], ◌∷◌, ◌≡◌, ◌≢◌, refl, arith}
use emi.Core.Race.{
  Shared, Phase, searching, draining, finished, Handler, called, inside, lowering, done, System,
  u32, Turn, Act, Move, Reach, Inevitable, init, pending, clear, load, store, older, signal, gone,
  fetch, put, go_on, drain, leave, act, turn, here, later, now, soon,
}

-- Between two rounds.
abbrev between : (count : ℕ) → List Handler → (left : ℕ) → System
between count hs left = record {
  mem = record { count = count; cell = 0 };
  handlers = hs;
  daemon = searching left;
}

module _ (nth : ℕ) {s : System} where
  -- A round in which the handler runs to its end before the next begins.
  round :
      (count : ℕ) (hs : List Handler) (left : ℕ)
      → count < 2 ^ 32
      → Reach nth s (between count hs (suc left))
      → Reach nth s (between count (done ∷ hs) left)
  round count hs left h r =
      let back : (u32 (count + 1) + (2 ^ 32 - 1)) % 2 ^ 32 ≡ count = omega arith in
      let r1 = later r (act signal) in
      let r2 = later r1 (act fetch) in
      let r3 = later r2 (act put) in
      let r4 = later r3 (turn clear) in
      let r5 = later r4 (act (go_on refl)) in
      let r6 = later r5 (turn load) in let r7 = later r6 (turn store) in rw back at r7

  -- A round in which the handler loads and stores between the load and the store of the daemon.
  lose :
      (hs : List Handler) (left : ℕ)
      → Reach nth s (between 0 hs (suc left))
      → Reach nth s (between 1 (done ∷ hs) left)
  lose hs left r =
      let r1 = later r (act signal) in
      let r2 = later r1 (act fetch) in
      let r3 = later r2 (turn clear) in
      let r4 = later r3 (turn load) in
      let r5 = later r4 (turn store) in let r6 = later r5 (act put) in later r6 (act (go_on refl))

  -- Two rounds, in which the first handler loads before and stores behind the second update of the
  -- daemon.
  outrun :
      (hs : List Handler)
      → Reach nth s (between 0 hs 2)
      → Reach nth s (record {
        mem = record { count = 0; cell = 0 };
        handlers = inside ∷ done ∷ hs;
        daemon = finished;
      })
  outrun hs r =
      let r1 = later r (act signal) in
      let r2 = later r1 (act fetch) in
      let r3 = later r2 (act put) in
      let r4 = later r3 (turn clear) in
      let r5 = later r4 (act (go_on refl)) in
      let r6 = later r5 (act signal) in
      let r7 = later r6 (turn (older load)) in
      let r8 = later r7 (act fetch) in
      let r9 = later r8 (act put) in
      let r10 = later r9 (turn (older store)) in
      let r11 = later r10 (turn clear) in
      let r12 = later r11 (act (go_on refl)) in
      let r13 = later r12 (act drain) in later r13 (act (leave refl))

  rounds :
      (count : ℕ) (n : ℕ) (hs : List Handler) (total left : ℕ)
      → count < 2 ^ 32
      → pending hs ≡ 0
      → total ≡ n + left
      → Reach nth s (between count hs total)
      → (ks : List Handler) × (pending ks ≡ 0) × Reach nth s (between count ks left)
  rounds count zero hs total left h q e r =
      let same : total ≡ left = omega (arith, e) in (hs, q, rw same at r)
  rounds count (suc n) hs total left h q e r =
      let more : total ≡ suc (n + left) = omega (arith, e) in
      rounds count n (done ∷ hs) (n + left) left h q refl
        (round count hs (n + left) h (rw more at r))

-- Nothing moves any more, though the daemon has not finished.
abbrev pub Hangs : System → Type 0
Hangs s = (s.daemon ≡ draining) × (s.mem.count ≡ 1) × (pending s.handlers ≡ 0)

-- As the code is, for every number of rounds but zero there is an order of steps after which each
-- handler is done and the count is 1, for which the daemon then waits for ever.
pub init-Hangs : (nth n : ℕ) → (s : System) × Reach nth (init (suc n)) s × Hangs s
init-Hangs nth n =
    let (ks, q, r) =
      rounds nth 1 n (done ∷ []) n 0 (omega arith) refl (omega arith) (lose nth [] n here) in
    (_, later r (act drain), (refl, refl, q))

-- As the code is, for every number of rounds from two on there is an order of steps after which the
-- daemon has finished, and gives the slot away, while a handler still works on it.
pub init-early :
    (nth n : ℕ)
    → (s : System) × Reach nth (init (n + 2)) s × (s.daemon ≡ finished) × (pending s.handlers ≡ 1)
init-early nth n =
    let (ks, q, r) = rounds nth 0 n [] (n + 2) 2 (omega arith) refl refl here in
    (_, outrun nth ks r, refl, omega (arith, q))

Turn-pending : {m k : Shared} {hs ks : List Handler} → Turn m hs k ks → 0 < pending hs
Turn-pending clear = omega arith
Turn-pending load = omega arith
Turn-pending store = omega arith
Turn-pending (older {h = called} t) = omega arith
Turn-pending (older {h = inside} t) = omega arith
Turn-pending (older {h = lowering seen} t) = omega arith
Turn-pending (older {h = done} t) = Turn-pending t

-- The daemon does not go back from its end, and waits while the count is not zero.
Act-draining :
    {nth : ℕ} {m k : Shared} {hs ks : List Handler} {p q : Phase}
    → Act nth m hs p k ks q
    → p ≡ draining
    → m.count ≡ 0
Act-draining signal e = cc e
Act-draining gone e = cc e
Act-draining fetch e = cc e
Act-draining put e = cc e
Act-draining (go_on z) e = cc e
Act-draining drain e = cc e
Act-draining (leave z) e = z

Act-finished :
    {nth : ℕ} {m k : Shared} {hs ks : List Handler} {p q : Phase}
    → Act nth m hs p k ks q
    → p ≢ finished
Act-finished signal e = cc e
Act-finished gone e = cc e
Act-finished fetch e = cc e
Act-finished put e = cc e
Act-finished (go_on z) e = cc e
Act-finished drain e = cc e
Act-finished (leave z) e = cc e

Hangs-stuck : {nth : ℕ} {s t : System} → Hangs s → ¬ Move nth s t
Hangs-stuck (d, c, q) (act a) = omega (arith, c, Act-draining a d)
Hangs-stuck (d, c, q) (turn t) = omega (arith, q, Turn-pending t)

Move-Inevitable : {nth : ℕ} {s t : System} → Inevitable nth s → Move nth s t → Inevitable nth t
Move-Inevitable (now e) (act a) = absurd (Act-finished a e)
Move-Inevitable (now e) (turn t) = now e
Move-Inevitable {t = t} (soon u m all) v = all t v

Reach-Inevitable : {nth : ℕ} {s t : System} → Inevitable nth s → Reach nth s t → Inevitable nth t
Reach-Inevitable i here = i
Reach-Inevitable i (later r m) = Move-Inevitable (Reach-Inevitable i r) m

Hangs-Inevitable : {nth : ℕ} {s : System} → Hangs s → ¬ Inevitable nth s
Hangs-Inevitable (d, c, q) (now e) = cc (d, e)
Hangs-Inevitable h (soon t m all) = Hangs-stuck h m

-- As the code is, it is not inevitable that the daemon finishes, whatever the number of rounds but
-- zero.
pub init-not_Inevitable : (nth n : ℕ) → ¬ Inevitable nth (init (suc n))
init-not_Inevitable nth n i =
    let (s, r, h) = init-Hangs nth n in Hangs-Inevitable h (Reach-Inevitable i r)
