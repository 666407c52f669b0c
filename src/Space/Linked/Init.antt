-- ===== src/Space/Linked/Init.antt =====
-- `emi_init_space` (emi_shmem.c) with its pointers.
use emi.Prelude.{
  ℕ, zero, suc, ◌+◌, ◌*◌, ◌%◌, ◌<◌, ◌≡◌, refl, sym, ap, ◌∙◌, Bool, true, false, Option, none, some,
  List, [], ◌∷◌, ◌++◌, map, ◌==◌, if◌then◌else◌, ℤ, pos, minus_one, arith, Option-cases, inl, inr,
  length,
}
use mathlib.Core.List.{map-append}
use mathlib.Core.Option.{some-injective, some-ne-none}
use mathlib.Core.Path.{subst}
use emi.ListHead.{Ptr, Links, list_add_tail, init_list_head}
use emi.ListHead.Ring.{NotIn, IsList}
use emi.ListHead.Refine.{list_add_tail-append, init_list_head-IsList}
use emi.Space.{Buf, Space, null, u32_mod, init_loop, emi_init_space}
use emi.Space.Linked.{Store, write, PoolCall, call_linked, call_list, run_calls}
use emi.Space.Linked.Runs.{run_calls-refines}
use emi.Space.Linked.Refine.{Spells, map-write, write-same}

-- The loop at `i`. `malloc i` is what `malloc` gives in round `i`; without memory the walk reads the
-- link of an element after it was freed, if there is one.
unfoldable pub init_linked :
    (malloc : ℕ → Option Ptr) (bias_base size : ℕ) (head : Ptr)
    → (i rounds : ℕ) → Store
    → Option (ℤ × Store)
unfolding list_add_tail
init_linked malloc bias_base size head i zero s = some (pos 0, s)
init_linked malloc bias_base size head i (suc rounds) s = elim (malloc i) [
  | none ↦ if s.links.next head == head then some (minus_one, s) else none
  | some buf ↦ init_linked malloc bias_base size head (suc i) rounds (record {
    links = list_add_tail buf head s.links;
    fields =
        write buf (record { busy = false; addr = null; offset = (bias_base + i * size) % u32_mod })
          s.fields;
    num = s.num;
  })
]

-- Did `malloc` give memory?
abbrev pub gives : Option Ptr → Bool
gives none = false
gives (some p) = true

-- Each answer from round `i` on is new, and no two are one.
abbrev pub AreNew : (ℕ → Option Ptr) → Ptr → (i rounds : ℕ) → List Ptr → Type 0
AreNew malloc head i zero xs = Unit {0}
AreNew malloc head i (suc rounds) xs = elim (malloc i) [
  | none ↦ Unit {0}
  | some buf ↦ NotIn buf (head ∷ xs) × AreNew malloc head (suc i) rounds (xs ++ buf ∷ [])
]

module _ (malloc : ℕ → Option Ptr) (bias_base size : ℕ) (head : Ptr) where
  abbrev new_buf : ℕ → Buf
  new_buf i = record { busy = false; addr = null; offset = (bias_base + i * size) % u32_mod }

  abbrev added : ℕ → Ptr → Store → Store
  added i buf s = record {
    links = list_add_tail buf head s.links;
    fields = write buf (new_buf i) s.fields;
    num = s.num;
  }

  added-map :
      (i : ℕ) (buf : Ptr) (s : Store) (xs : List Ptr)
      → NotIn buf xs
      → map (added i buf s).fields (xs ++ buf ∷ []) ≡ map s.fields xs ++ new_buf i ∷ []
  added-map i buf s xs n =
      rw
        (
          map-append (write buf (new_buf i) s.fields) xs (buf ∷ []),
          map-write buf (new_buf i) s.fields xs n,
          write-same buf (new_buf i) s.fields,
        )
        refl

  abbrev pub memory : ℕ → Bool
  memory k = gives (malloc k)

  AreNew-step :
      (i rounds : ℕ) (xs : List Ptr) (buf : Ptr)
      → malloc i ≡ some buf
      → AreNew malloc head i (suc rounds) xs
      → NotIn buf (head ∷ xs) × AreNew malloc head (suc i) rounds (xs ++ buf ∷ [])
  AreNew-step i rounds xs buf f new =
      subst
        (λ o. elim o [
          | none ↦ Unit {0}
          | some b ↦ NotIn b (head ∷ xs) × AreNew malloc head (suc i) rounds (xs ++ b ∷ [])
        ])
        f new

  -- A round with memory, on the list and on the links.
  init_loop-step :
      (i rounds : ℕ) (buf : Ptr) (l : List Buf)
      → malloc i ≡ some buf
      → init_loop memory bias_base size i (suc rounds) l
        ≡ init_loop memory bias_base size (suc i) rounds (l ++ new_buf i ∷ [])
  unfolding init_loop
  init_loop-step i rounds buf l f = rw (init_loop, f) refl

  init_linked-step :
      (i rounds : ℕ) (buf : Ptr) (s : Store)
      → malloc i ≡ some buf
      → init_linked malloc bias_base size head i (suc rounds) s
        ≡ init_linked malloc bias_base size head (suc i) rounds (added i buf s)
  unfolding init_linked
  init_linked-step i rounds buf s f = rw (init_linked, f) refl

  -- A round without memory.
  init_linked-fails :
      (i rounds : ℕ) (s : Store) (xs : List Ptr) (r : ℤ) (bufs : List Buf)
      → IsList s.links head xs
      → malloc i ≡ none
      → init_loop memory bias_base size i (suc rounds) (map s.fields xs) ≡ some (r, bufs)
      → (s' : Store) × (init_linked malloc bias_base size head i (suc rounds) s ≡ some (r, s'))
        × Spells head s' (record { bufs = bufs; num = s.num })
  unfolding init_loop init_linked
  init_linked-fails i rounds s [] r bufs ring f e =
      let hit : (s.links.next head == head) ≡ true = ground (arith, ring.ring.0) in
      let stop : init_loop memory bias_base size i (suc rounds) [] ≡ some (minus_one, []) =
        rw (init_loop, f) refl in
      let both = some-injective _ _ (sym stop ∙ e) in
      (
        s,
        rw (init_linked, f, hit) (ap (λ z. some (z.0, s)) both),
        record {
          elems = [];
          ring = ring;
          same = ap (λ z. record { bufs = z.1; num = s.num }) both;
        },
      )
  init_linked-fails i rounds s (x ∷ xs) r bufs ring f e =
      let stop : init_loop memory bias_base size i (suc rounds) (map s.fields (x ∷ xs)) ≡ none =
        rw (init_loop, f) refl in
      absurd (some-ne-none (r, bufs) (sym e ∙ stop))

  -- From a list on, what `emi_init_space` gives is what the list gives.
  pub init_linked-Spells :
      (i rounds : ℕ) (s : Store) (xs : List Ptr) (r : ℤ) (bufs : List Buf)
      → IsList s.links head xs
      → AreNew malloc head i rounds xs
      → init_loop memory bias_base size i rounds (map s.fields xs) ≡ some (r, bufs)
      → (s' : Store) × (init_linked malloc bias_base size head i rounds s ≡ some (r, s'))
        × Spells head s' (record { bufs = bufs; num = s.num })
  unfolding init_loop init_linked
  init_linked-Spells i zero s xs r bufs ring new e =
      let both = some-injective _ _ e in
      (
        s,
        ap (λ z. some (z.0, s)) both,
        record {
          elems = xs;
          ring = ring;
          same = ap (λ z. record { bufs = z.1; num = s.num }) both;
        },
      )
  init_linked-Spells i (suc rounds) s xs r bufs ring new e = elim (Option-cases (malloc i)) [
    | inl f ↦ init_linked-fails i rounds s xs r bufs ring f e
    | inr (buf, f) ↦
        let (far, new') = AreNew-step i rounds xs buf f new in
        let (s', g, h) =
          init_linked-Spells (suc i) rounds (added i buf s) (xs ++ buf ∷ []) r bufs
            (list_add_tail-append s.links buf head xs ring far) new'
            (ap (init_loop memory bias_base size (suc i) rounds) (added-map i buf s xs far.1)
              ∙ sym (init_loop-step i rounds buf (map s.fields xs) f)
              ∙ e) in
        (s', init_linked-step i rounds buf s f ∙ g, h)
  ]

-- `LIST_HEAD(__msg_list)`, with anything in the memory.
abbrev pub empty_pool : (head : Ptr) → Links → (Ptr → Buf) → Store
empty_pool head h fields = record { links = init_list_head head h; fields = fields; num = 0 }

-- Let `malloc` give new addresses. When the list of elements says that `emi_init_space` makes
-- the pool, and what a sequence of `__emi_obtain_space` and `__emi_return_space` then gives, the code
-- does both on links and fields, with more fuel than elements: it makes the pool, gives the same
-- results, and in the end links and fields spell the list that is left.
pub init_linked-run_calls :
    (malloc : ℕ → Option Ptr) (num bias_base size base unit head fuel : ℕ) (h : Links)
    (fields : Ptr → Buf) (bufs : List Buf) (cs : List PoolCall) (rs : List ℤ) (p' : Space)
    → AreNew malloc head 1 num []
    → emi_init_space (λ k. gives (malloc k)) num bias_base size ≡ some (pos 0, bufs)
    → length bufs < fuel
    → run_calls (call_list base unit) cs (record { bufs = bufs; num = 0 }) ≡ some (rs, p')
    → (made left : Store) × (init_linked malloc bias_base size head 1 num (empty_pool head h fields)
        ≡ some (pos 0, made))
      × (run_calls (call_linked base unit head fuel) cs made ≡ some (rs, left))
      × Spells head left p'
unfolding emi_init_space
init_linked-run_calls malloc num bias_base size base unit head fuel h fields bufs cs rs p' new e l
      run =
    let (made, f, spells) =
      init_linked-Spells malloc bias_base size head 1 num (empty_pool head h fields) [] (pos 0) bufs
        (init_list_head-IsList h head) new e in
    let (left, g, spells') =
      run_calls-refines base unit head fuel cs made (record { bufs = bufs; num = 0 }) p' rs spells l
        run in
    (made, left, f, g, spells')
