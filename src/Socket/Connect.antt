-- ===== src/Socket/Connect.antt =====
-- How often `emi_connect` tries.
use emi.Prelude.{
  ℕ, zero, suc, ◌*◌, ◌%◌, ◌^◌, leb, ◌≡◌, refl, Bool, true, false, some, [], ◌∷◌, ◌++◌,
  if◌then◌else◌, ℤ, pos, minus_one, arith,
}
use emi.Message.{EmiAddr, af_inet}
use emi.Socket.{Os, World, SkDpr, connected, refused, tick, connect_loop, emi_connect}

abbrev pub is_zero : ℤ → Bool
is_zero (pos zero) = true
is_zero _ = false

-- The log of two tries, of which the second is made only if the first fails.
abbrev pub two_tries : Os → EmiAddr → World → ℤ × World
two_tries os addr w =
    if is_zero (os.connect w.time addr)
    then (pos 0, record (tick w) { log = w.log ++ connected addr ∷ [] })
    else (let w1 = record (tick w) { log = w.log ++ refused addr ∷ [] } in
        if is_zero (os.connect w1.time addr)
        then (pos 0, record (tick w1) { log = w1.log ++ connected addr ∷ [] })
        else (minus_one, record (tick w1) { log = w1.log ++ refused addr ∷ [] }))

-- One round with a try left: a refusal goes on to the next.
connect_loop-step :
    (os : Os) (fuel i : ℕ) (addr : EmiAddr) (w : World)
    → leb i 3 ≡ true
    → connect_loop os (suc fuel) i addr 1 w ≡ (
        if is_zero (os.connect w.time addr)
        then some (pos 0, record (tick w) { log = w.log ++ connected addr ∷ [] })
        else connect_loop os fuel
            ((i * 2) % 2 ^ 32)
            addr
            1
            (record (tick w) { log = w.log ++ refused addr ∷ [] }))
unfolding connect_loop
connect_loop-step os fuel i addr w h = rw (h, connect_loop) (ground arith)

connect_loop-end :
    (os : Os) (fuel : ℕ) (addr : EmiAddr) (w : World)
    → connect_loop os (suc fuel) 4 addr 1 w ≡ some (minus_one, w)
unfolding connect_loop
connect_loop-end os fuel addr w = refl

-- On a socket of AF_INET and with `retry` 1, the only value in use, `emi_connect` tries twice at
-- most: it answers 0 as soon as a try succeeds, -1 if none does, and three rounds of fuel are
-- enough.
pub emi_connect-two_tries :
    (os : Os) (fuel : ℕ) (sd : SkDpr) (addr : EmiAddr) (w : World)
    → sd.af ≡ af_inet
    → emi_connect os (suc (suc (suc fuel))) sd addr 1 w ≡ some (two_tries os addr w)
unfolding emi_connect
emi_connect-two_tries os fuel sd addr w e =
    let first = connect_loop-step os (suc (suc fuel)) 1 addr w refl in
    let w1 : World = record (tick w) { log = w.log ++ refused addr ∷ [] } in
    let second = connect_loop-step os (suc fuel) 2 addr w1 refl in
    let w2 : World = record (tick w1) { log = w1.log ++ refused addr ∷ [] } in
    ground (arith, first, second, connect_loop-end os fuel addr w2)

-- With `retry` 2 it tries not even once, since `2^2` is 0.
pub emi_connect-no_try :
    (os : Os) (fuel : ℕ) (sd : SkDpr) (addr : EmiAddr) (w : World)
    → emi_connect os (suc fuel) sd addr 2 w ≡ some (minus_one, w)
unfolding emi_connect
emi_connect-no_try os fuel sd addr w = ground arith
