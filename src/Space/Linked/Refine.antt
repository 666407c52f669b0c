-- ===== src/Space/Linked/Refine.antt =====
-- The list of the elements stands for the links and the fields of the pool.
use emi.Prelude.{
  ℕ, ◌+◌, ◌-◌, ◌*◌, ◌%◌, ◌<◌, ◌≡◌, ◌⊎◌, inl, inr, refl, sym, ap, ◌∙◌, true, false, none, some, List,
  [], ◌∷◌, ◌++◌, map, length, length-map, ◌==◌, ℤ, pos, minus_one, arith, Bool-cases,
}
use mathlib.Core.List.{map-append}
use mathlib.Core.Option.{some-injective, some-ne-none}
use mathlib.Core.Path.{subst}
use emi.ListHead.{Ptr, list_move, list_move_tail}
use emi.ListHead.Ring.{NotIn, IsList}
use emi.ListHead.Refine.{list_move-cons, list_move_tail-append}
use emi.Space.{Buf, Space, null, u32_mod, obtain_space, find_from_tail, return_space}
use emi.Space.Linked.Find.{or_else, last_match-cases, find_linked-IsList}
use emi.Space.Linked.{Store, write, obtain_linked, find_linked, return_linked}

-- The elements `xs` of a store, as the list that Space works on.
abbrev pub view : Store → List Ptr → Space
view s xs = record { bufs = map s.fields xs; num = s.num }

-- The links of the store spell a list, and its elements are those of the pool.
pub record Spells (head : Ptr) (s : Store) (p : Space) : Type 0 where
  pub elems : List Ptr
  pub ring : IsList s.links head elems
  pub same : view s elems ≡ p

pub map-write :
    (p : Ptr) (b : Buf) (f : Ptr → Buf) (xs : List Ptr)
    → NotIn p xs
    → map (write p b f) xs ≡ map f xs
map-write p b f [] n = refl
map-write p b f (x ∷ xs) n =
    let miss : (x == p) ≡ false = ground (arith, n.0) in rw (miss, map-write p b f xs n.1) refl

pub write-same : (p : Ptr) (b : Buf) (f : Ptr → Buf) → write p b f p ≡ b
write-same p b f = let hit : (p == p) ≡ true = ground arith in rw hit refl

module _ (base size : ℕ) (head : Ptr) (s : Store) where
  -- What `__emi_obtain_space` leaves when `x` is the first element, and free.
  abbrev given : Ptr → Buf
  given x = record {
    busy = true;
    addr = base + ((s.fields x).offset * size) % u32_mod;
    offset = (s.fields x).offset;
  }

  abbrev taken : Ptr → ℕ × Store
  taken x = (
    (given x).addr,
    record {
      links = list_move_tail x head s.links;
      fields = write x (given x) s.fields;
      num = (s.num + 1) % u32_mod;
    },
  )

  obtain_linked-busy :
      (x : Ptr)
      → s.links.next head ≡ x
      → (s.fields x).busy ≡ true
      → obtain_linked base size head s ≡ (null, s)
  unfolding obtain_linked
  obtain_linked-busy x e b = rw (e, b) refl

  obtain_linked-taken :
      (x : Ptr)
      → s.links.next head ≡ x
      → (s.fields x).busy ≡ false
      → obtain_linked base size head s ≡ taken x
  unfolding obtain_linked
  obtain_linked-taken x e b = rw (e, b) refl

  obtain_space-busy :
      (x : Ptr) (r : List Ptr)
      → (s.fields x).busy ≡ true
      → obtain_space base size (view s (x ∷ r)) ≡ some (null, view s (x ∷ r))
  unfolding obtain_space
  obtain_space-busy x r b = rw b refl

  obtain_space-taken :
      (x : Ptr) (r : List Ptr)
      → NotIn x r
      → (s.fields x).busy ≡ false
      → obtain_space base size (view s (x ∷ r)) ≡ some ((taken x).0, view (taken x).1 (r ++ x ∷ []))
  unfolding obtain_space
  obtain_space-taken x r n b =
      rw
        (
          b,
          map-append (write x (given x) s.fields) r (x ∷ []),
          map-write x (given x) s.fields r n,
          write-same x (given x) s.fields,
        )
        refl

  -- What the call gives is what the list gives.
  abbrev Obtained : List Ptr → ℕ × Store → Type 0
  Obtained xs o =
      (ys : List Ptr) × IsList o.1.links head ys
      × (obtain_space base size (view s xs) ≡ some (o.0, view o.1 ys))

  obtain-view :
      (x : Ptr) (r : List Ptr)
      → IsList s.links head (x ∷ r)
      → Obtained (x ∷ r) (obtain_linked base size head s)
  obtain-view x r i = elim (Bool-cases (s.fields x).busy) [
    | inl b ↦
        subst (Obtained (x ∷ r)) (sym (obtain_linked-busy x i.ring.0 b))
          (x ∷ r, i, obtain_space-busy x r b)
    | inr b ↦ subst (Obtained (x ∷ r)) (sym (obtain_linked-taken x i.ring.0 b)) (
      r ++ x ∷ [],
      list_move_tail-append s.links x head [] r i,
      obtain_space-taken x r i.uniq.1.0 b,
    )
  ]

  -- With an element, `__emi_obtain_space` does what the list says.
  obtain-cases :
      (xs : List Ptr)
      → IsList s.links head xs
      → (obtain_space base size (view s xs) ≡ none) ⊎ Obtained xs (obtain_linked base size head s)
  unfolding obtain_space
  obtain-cases [] i = inl refl
  obtain-cases (x ∷ r) i = inr (obtain-view x r i)

module _ (addr : ℕ) (head : Ptr) (s : Store) where
  -- What `__emi_return_space` leaves when `y` is the element that it finds.
  abbrev moved : Ptr → Store
  moved y = record {
    links = list_move y head s.links;
    fields = write y (record (s.fields y) { busy = false }) s.fields;
    num = (s.num + u32_mod - 1) % u32_mod;
  }

  module _ (fuel : ℕ) where
    return_linked-miss :
        find_linked addr head s fuel (s.links.prev head) ≡ some none
        → return_linked addr head fuel s ≡ some (minus_one, s)
    unfolding return_linked
    return_linked-miss e = rw (return_linked, e) refl

    return_linked-hit :
        (y : Ptr)
        → find_linked addr head s fuel (s.links.prev head) ≡ some (some y)
        → return_linked addr head fuel s ≡ some (pos 0, moved y)
    unfolding return_linked
    return_linked-hit y e = rw (return_linked, e) refl

  return_space-miss :
      (xs : List Ptr)
      → find_from_tail addr (map s.fields xs) ≡ none
      → return_space addr (view s xs) ≡ (minus_one, view s xs)
  unfolding return_space
  return_space-miss xs e = rw (return_space, e) refl

  return_space-hit :
      (xs rest : List Ptr) (y : Ptr)
      → find_from_tail addr (map s.fields xs) ≡ some (s.fields y, map s.fields rest)
      → NotIn y rest
      → return_space addr (view s xs) ≡ (pos 0, view (moved y) (y ∷ rest))
  unfolding return_space
  return_space-hit xs rest y e n =
      rw
        (
          return_space,
          e,
          write-same y (record (s.fields y) { busy = false }) s.fields,
          map-write y (record (s.fields y) { busy = false }) s.fields rest n,
        )
        refl

  return-view :
      (xs : List Ptr) (fuel : ℕ)
      → IsList s.links head xs
      → length xs < fuel
      → (s' : Store) × (ys : List Ptr) × (r : ℤ) × (return_linked addr head fuel s ≡ some (r, s'))
        × IsList s'.links head ys
        × (return_space addr (view s xs) ≡ (r, view s' ys))
  return-view xs fuel i l =
      let found = find_linked-IsList addr head s xs fuel i l in
      elim (last_match-cases s.fields addr xs) [
        | inl (m, g) ↦ (
          s,
          xs,
          minus_one,
          return_linked-miss fuel (found ∙ ap (λ o. or_else o (some none)) m),
          i,
          return_space-miss xs g,
        )
        | inr (pre, y, post, e, m, g) ↦
            let ring = list_move-cons s.links y head pre post (subst (IsList s.links head) e i) in
            (
              moved y,
              y ∷ pre ++ post,
              pos 0,
              return_linked-hit fuel y (found ∙ ap (λ o. or_else o (some none)) m),
              ring,
              return_space-hit xs (pre ++ post) y g ring.uniq.1.0,
            )
      ]

module _ (head : Ptr) (s : Store) (p : Space) (h : Spells head s p) where
  -- `__emi_obtain_space` gives the address that the list gives, and leaves links and fields that
  -- spell the list that is left.
  pub obtain_linked-Spells :
      (base size : ℕ) (a : ℕ) (p' : Space)
      → obtain_space base size p ≡ some (a, p')
      → ((obtain_linked base size head s).0 ≡ a) × Spells head (obtain_linked base size head s).1 p'
  obtain_linked-Spells base size a p' e = elim (obtain-cases base size head s h.elems h.ring) [
    | inl f ↦ absurd (some-ne-none (a, p') (sym (sym f ∙ ap (obtain_space base size) h.same ∙ e)))
    | inr (ys, ring, f) ↦
        let both = some-injective _ _ (sym f ∙ ap (obtain_space base size) h.same ∙ e) in
        (ap (λ q. q.0) both, record { elems = ys; ring = ring; same = ap (λ q. q.1) both })
  ]

  pub return_linked-Spells :
      (addr fuel : ℕ)
      → length p.bufs < fuel
      → (s' : Store) × (return_linked addr head fuel s ≡ some ((return_space addr p).0, s'))
        × Spells head s' (return_space addr p).1
  return_linked-Spells addr fuel l =
      let short : length h.elems < fuel =
        omega (arith, l, length-map h.elems s.fields, ap (λ q. length q.bufs) h.same) in
      let (s', ys, r, e, ring, f) = return-view addr head s h.elems fuel h.ring short in
      let both = sym f ∙ ap (return_space addr) h.same in
      (
        s',
        e ∙ ap (λ q. some (q.0, s')) both,
        record { elems = ys; ring = ring; same = ap (λ q. q.1) both },
      )
