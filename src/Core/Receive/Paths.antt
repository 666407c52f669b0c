-- ===== src/Core/Receive/Paths.antt =====
-- Whatever happens on the way, `emi_recieve_operation` closes its connection and gives its slot back.
use emi.Prelude.{
  ℕ, ◌+◌, ◌<◌, ◌≡◌, refl, ◌∙◌, sym, true, false, none, some, List, [], ◌∷◌, ◌++◌, ◌==◌, arith, ℤ,
  inl, inr, Option-cases,
}
use mathlib.Core.List.{append-nil}
use mathlib.Core.Path.{subst}
use emi.Core.Dispatch.{Delivery, deliver}
use emi.Space.{Buf, Space, null, return_space, obtain_space_num}
use emi.Space.Pool.{Splits, taken, given_back, obtain-Splits, obtain-full, return-Splits}
use emi.Message.{EmiMsg}
use emi.MsgTable.{msg_map}
use emi.Socket.{World, SkDpr, is_positive, emi_close, read_msg}
use emi.Space.Misuse.{return-null_full}
use emi.Client.Descriptors.{emi_close-newest, read_msg-fds}
use emi.Core.Receive.{
  Daemon, Around, set_slot, register_request, answer_request, deliver_request, read_body, serve,
  finish, receive,
}

-- The pool and the open descriptors are as they were.
abbrev pub Keeps : Daemon → World → Daemon × World → Type 0
Keeps d w r = (r.0.space ≡ d.space) × (r.1.fds ≡ w.fds)

register_request-Keeps :
    (x : Around) (addr : ℕ) (m : EmiMsg) (d : Daemon) (w : World) (r : Daemon × World)
    → register_request x addr m d w ≡ some r
    → Keeps d w r
unfolding register_request
register_request-Keeps x addr m d w r h = ground arith

answer_request-fds : (x : Around) (m : EmiMsg) (w : World) → (answer_request x m w).1.fds ≡ w.fds
unfolding answer_request
answer_request-fds x m w = ground arith

read_body-fds : (x : Around) (m : EmiMsg) (w : World) → (read_body x m w).1.fds ≡ w.fds
unfolding read_body
read_body-fds x m w = ground arith

deliver_request-Keeps :
    (x : Around) (fuel addr : ℕ) (m : EmiMsg) (d : Daemon) (w : World) (r : Daemon × World)
    → deliver_request x fuel addr m d w ≡ some r
    → Keeps d w r
unfolding deliver_request
deliver_request-Keeps x fuel addr m d w r h =
    let nth = obtain_space_num x.base addr 1 in
    let start : Delivery = record {
      table = d.table;
      index = d.index;
      count = m.count;
      sent = [];
    } in
    elim (Option-cases (deliver x.kill nth fuel (msg_map m.msg 0) 0 start)) [
      | inl e ↦ ground arith
      | inr (s, e) ↦ elim (Option-cases (x.wait s.sent (record m { count = s.count }))) [
        | inl f ↦ ground arith
        | inr (seen, f) ↦ ground (arith, answer_request-fds x seen w)
      ]
    ]

serve-Keeps :
    (x : Around) (fuel addr : ℕ) (d : Daemon) (w : World) (r : Daemon × World)
    → serve x fuel addr d w ≡ some r
    → Keeps d w r
unfolding serve
serve-Keeps x fuel addr d w r h =
    let (got, w1) = read_msg x.os (d.slot addr) w in
    let m = got.1 in
    let w2 = (read_body x m w1).1 in
    let d1 = set_slot addr m d in
    elim (Option-cases (read_body x m w1).0) [
      | inl e ↦ ground (
        arith,
        register_request-Keeps x addr m d1 w1 r,
        read_body-fds x m w1,
        read_msg-fds x.os (d.slot addr) w,
      )
      | inr (full, e) ↦ ground (
        arith,
        register_request-Keeps x addr m d1 w1 r,
        read_body-fds x m w1,
        read_msg-fds x.os (d.slot addr) w,
        deliver_request-Keeps x fuel addr full d1 w2 r,
      )
    ]

abbrev pub Closed : Around → ℕ → List ℤ → Buf → (fs bs : List Buf) → Daemon × World → Type 0
Closed x n l b fs bs r =
    (r.1.fds ≡ l) × Splits x.base n r.0.space (given_back (taken x.base b) ∷ fs) bs

-- The end of a request whose slot was taken from the pool.
finish-Closed :
    (x : Around) (n : ℕ) (sd : SkDpr) (l : List ℤ) (b : Buf) (fs bs : List Buf) (s : Space)
    → (r : Daemon × World) → Splits x.base n s fs (bs ++ taken x.base b ∷ [])
    → is_positive sd.d ≡ true
    → r.1.fds ≡ sd.d ∷ l
    → r.0.space ≡ s
    → Closed x n l b fs bs (finish sd (x.base + b.offset) r.0 r.1)
unfolding finish
finish-Closed x n sd l b fs bs s r i up e kept =
    let (s', ret, j) = return-Splits x.base n s fs bs (taken x.base b) [] i in
    let back : (return_space (x.base + b.offset) r.0.space).1 ≡ s' = rw (kept, ret) refl in
    (
      emi_close-newest sd l r.1 up e,
      rw back (subst (Splits x.base n s' (given_back (taken x.base b) ∷ fs)) (append-nil bs) j),
    )

-- If the pool is split over a base above 0 and has a free slot when `emi_recieve_operation`
-- starts on the newest descriptor, which is above 0, and it ends, then on every path that
-- descriptor is closed and no other, and the pool is split with the same slots handed out as
-- before.
pub receive-closes :
    (x : Around) (fuel n : ℕ) (sd : SkDpr) (l : List ℤ) (b : Buf) (fs bs : List Buf)
    → (d : Daemon) (w : World) (r : Daemon × World) → Splits x.base n d.space (b ∷ fs) bs
    → 0 < x.base
    → is_positive sd.d ≡ true
    → w.fds ≡ sd.d ∷ l
    → receive x fuel sd d w ≡ some r
    → Closed x n l b fs bs r
unfolding receive
receive-closes x fuel n sd l b fs bs d w r i nonzero up e h =
    let (s', got, i') = obtain-Splits x.base n d.space b fs bs i in
    let addr = x.base + b.offset in
    let here : (addr == null) ≡ false = ground arith in
    let d1 : Daemon = record d { space = s' } in
    elim (Option-cases (serve x fuel addr d1 w)) [
      | inl none_served ↦
          let stuck : receive x fuel sd d w ≡ none = rw (got, here, none_served) refl in
          cc (h, stuck)
      | inr (r1, served) ↦
          let run : receive x fuel sd d w ≡ some (finish sd addr r1.0 r1.1) =
            rw (got, here, served) refl in
          let kept = serve-Keeps x fuel addr d1 w r1 served in
          let same : r ≡ finish sd addr r1.0 r1.1 = cc (h, run) in
          subst (Closed x n l b fs bs) (sym same)
            (finish-Closed x n sd l b fs bs s' r1 i' up (kept.1 ∙ e) kept.0)
    ]

-- With no slot free it closes the connection and changes nothing else.
pub receive-full :
    (x : Around) (fuel n : ℕ) (sd : SkDpr) (b : Buf) (bs : List Buf) (d : Daemon) (w : World)
    → Splits x.base n d.space [] (b ∷ bs)
    → 0 < x.base
    → receive x fuel sd d w ≡ some (d, emi_close (some sd) w)
unfolding receive
receive-full x fuel n sd b bs d w i nonzero =
    rw (obtain-full x.base n d.space b bs i, return-null_full x.base n d.space (b ∷ bs) nonzero i)
      refl
