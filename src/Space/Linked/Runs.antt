-- ===== src/Space/Linked/Runs.antt =====
-- Sequences of calls on the pool, with the links and without.
use emi.Prelude.{
  ℕ, suc, ◌+◌, ◌*◌, ◌%◌, ◌<◌, ◌≡◌, inl, inr, refl, sym, ap, ◌∙◌, true, Option, none, some, List, [],
  ◌∷◌, length, length-append, ℤ, pos, arith, Bool-cases, Option-cases,
}
use mathlib.Core.Option.{some-injective, some-ne-none}
use mathlib.Core.Path.{subst}
use emi.ListHead.{Ptr}
use emi.Space.{Buf, Space, u32_mod, obtain_space, find_from_tail, return_space}
use emi.Space.Linked.{
  Store, obtain_linked, PoolCall, obtain, give_back, call_linked, call_list, run_calls,
}
use emi.Space.Linked.Refine.{Spells, obtain_linked-Spells, return_linked-Spells}

abbrev bufs_count : Space → ℕ
bufs_count p = length p.bufs

-- Neither call makes or drops an element.
module _ (base size : ℕ) where
  abbrev taken : Buf → Buf
  taken x = record { busy = true; addr = base + (x.offset * size) % u32_mod; offset = x.offset }

  obtain_list-count :
      (l : List Buf) (num : ℕ) (p' : Space) (a : ℕ)
      → obtain_space base size (record { bufs = l; num = num }) ≡ some (a, p')
      → length p'.bufs ≡ length l
  unfolding obtain_space
  obtain_list-count [] num p' a e = absurd (some-ne-none (a, p') (sym e))
  obtain_list-count (x ∷ l) num p' a e = elim (Bool-cases x.busy) [
    | inl b ↦ ground arith
    | inr b ↦ ground (arith, length-append l (taken x ∷ []))
  ]

find_from_tail-count :
    (addr : ℕ) (l others : List Buf) (b : Buf)
    → find_from_tail addr l ≡ some (b, others)
    → length l ≡ suc (length others)
unfolding find_from_tail
find_from_tail-count addr [] others b e = absurd (some-ne-none (b, others) (sym e))
find_from_tail-count addr (x ∷ l) others b e = elim (Option-cases (find_from_tail addr l)) [
  | inl f ↦ ground arith
  | inr ((y, r), f) ↦ ground (arith, find_from_tail-count addr l r y f)
]

return_space-count : (addr : ℕ) (p : Space) → bufs_count (return_space addr p).1 ≡ bufs_count p
unfolding return_space
return_space-count addr p = elim (Option-cases (find_from_tail addr p.bufs)) [
  | inl f ↦ rw (return_space, f) refl
  | inr ((y, r), f) ↦ rw (return_space, f) (sym (find_from_tail-count addr p.bufs r y f))
]

run_calls-some :
    {S : Type 0} (call : PoolCall → S → Option (ℤ × S)) (c : PoolCall) (cs : List PoolCall)
    (p p1 p2 : S) (r1 : ℤ) (rs1 : List ℤ)
    → call c p ≡ some (r1, p1)
    → run_calls call cs p1 ≡ some (rs1, p2)
    → run_calls call (c ∷ cs) p ≡ some (r1 ∷ rs1, p2)
run_calls-some call c cs p p1 p2 r1 rs1 f g = rw (run_calls, f, g) refl

run_calls-cons :
    {S : Type 0} (call : PoolCall → S → Option (ℤ × S)) (c : PoolCall) (cs : List PoolCall)
    (p p' : S) (rs : List ℤ)
    → run_calls call (c ∷ cs) p ≡ some (rs, p')
    → (r1 : ℤ) × (p1 : S) × (rs1 : List ℤ) × (call c p ≡ some (r1, p1))
      × (run_calls call cs p1 ≡ some (rs1, p'))
      × (rs ≡ r1 ∷ rs1)
run_calls-cons call c cs p p' rs e = elim (Option-cases (call c p)) [
  | inl f ↦ ground arith
  | inr ((r1, p1), f) ↦ elim (Option-cases (run_calls call cs p1)) [
    | inl g ↦ ground arith
    | inr ((rs1, p2), g) ↦
        let both = some-injective _ _ (sym e ∙ run_calls-some call c cs p p1 p2 r1 rs1 f g) in
        (r1, p1, rs1, f, g ∙ ap (λ z. some (rs1, z.1)) (sym both), ap (λ z. z.0) both)
  ]
]

module _ (base size : ℕ) (head : Ptr) (fuel : ℕ) where
  call_list-none :
      (p : Space) → obtain_space base size p ≡ none → call_list base size obtain p ≡ none
  call_list-none p f = rw (call_list, f) refl

  call_list-some :
      (p q : Space) (a : ℕ)
      → obtain_space base size p ≡ some (a, q)
      → call_list base size obtain p ≡ some (pos a, q)
  call_list-some p q a f = rw (call_list, f) refl

  -- One call.
  call_linked-Spells :
      (c : PoolCall) (s : Store) (p p' : Space) (r : ℤ)
      → Spells head s p
      → bufs_count p < fuel
      → call_list base size c p ≡ some (r, p')
      → (s' : Store) × (call_linked base size head fuel c s ≡ some (r, s'))
        × Spells head s' p'
        × (bufs_count p' < fuel)
  call_linked-Spells obtain s p p' r h l e = elim (Option-cases (obtain_space base size p)) [
    | inl f ↦ absurd (some-ne-none (r, p') (sym e ∙ call_list-none p f))
    | inr ((a, q), f) ↦
        let both = some-injective _ _ (sym (call_list-some p q a f) ∙ e) in
        let (same, h') = obtain_linked-Spells head s p h base size a q f in
        let s' = (obtain_linked base size head s).1 in
        (
          s',
          ap (λ z. some (pos z, s')) same ∙ ap (λ z. some (z.0, s')) both,
          subst (λ z. Spells head s' z.1) both h',
          subst (λ z. bufs_count z.1 < fuel) both
              (omega (arith, l, obtain_list-count base size p.bufs p.num q a f)),
        )
  ]
  call_linked-Spells (give_back addr) s p p' r h l e =
      let (s', f, h') = return_linked-Spells head s p h addr fuel l in
      let both = some-injective _ _ e in
      (
        s',
        f ∙ ap (λ q. some (q.0, s')) both,
        subst (λ q. Spells head s' q.1) both h',
        subst (λ q. bufs_count q.1 < fuel) both (omega (arith, l, return_space-count addr p)),
      )

  -- Let links and fields spell the list of the pool, and let there be more fuel than elements. Any
  -- sequence of `__emi_obtain_space` and `__emi_return_space` that the list answers gives the same
  -- results on the links, and in the end links and fields spell the list that is left.
  pub run_calls-refines :
      (cs : List PoolCall) (s : Store) (p p' : Space) (rs : List ℤ)
      → Spells head s p
      → bufs_count p < fuel
      → run_calls (call_list base size) cs p ≡ some (rs, p')
      → (s' : Store) × (run_calls (call_linked base size head fuel) cs s ≡ some (rs, s'))
        × Spells head s' p'
  run_calls-refines [] s p p' rs h l e =
      let both = some-injective _ _ e in
      (s, ap (λ z. some (z.0, s)) both, subst (λ z. Spells head s z.1) both h)
  run_calls-refines (c ∷ cs) s p p' rs h l e =
      let (r1, p1, rs1, f, g, both) = run_calls-cons (call_list base size) c cs p p' rs e in
      let (s1, f1, h1, l1) = call_linked-Spells c s p p1 r1 h l f in
      let (s2, g2, h2) = run_calls-refines cs s1 p1 p' rs1 h1 l1 g in
      (
        s2,
        run_calls-some (call_linked base size head fuel) c cs s s1 s2 r1 rs1 f1 g2
            ∙ ap (λ z. some (z, s2)) (sym both),
        h2,
      )
