-- ===== src/ListHead/Ring.antt =====
-- Segments and rings: which list of elements the links spell.
use emi.Prelude.{◌≡◌, ◌≢◌, ◌∙◌, sym, List, [], ◌∷◌, ◌++◌}
use emi.ListHead.{Ptr, Links}

-- From `p` the links lead through `xs` to `q`, and back.
abbrev pub Seg : Links → Ptr → List Ptr → Ptr → Type 0
Seg h p [] q = (h.next p ≡ q) × (h.prev q ≡ p)
Seg h p (x ∷ xs) q = (h.next p ≡ x) × (h.prev x ≡ p) × Seg h x xs q

abbrev pub NotIn : Ptr → List Ptr → Type 0
NotIn p [] = Unit {0}
NotIn p (x ∷ xs) = (p ≢ x) × NotIn p xs

abbrev pub Uniq : List Ptr → Type 0
Uniq [] = Unit {0}
Uniq (x ∷ xs) = NotIn x xs × Uniq xs

-- `head` is the head of a list with exactly the elements `xs`.
pub record IsList (h : Links) (head : Ptr) (xs : List Ptr) : Type 0 where
  pub ring : Seg h head xs head
  pub uniq : Uniq (head ∷ xs)

-- The element before `q`, and the one after `p`.
abbrev pub last_of : Ptr → List Ptr → Ptr
last_of p [] = p
last_of p (x ∷ xs) = last_of x xs

abbrev pub first_of : List Ptr → Ptr → Ptr
first_of [] q = q
first_of (x ∷ xs) q = x

pub Seg-last :
    (h : Links) (p : Ptr) (xs : List Ptr) (q : Ptr) → Seg h p xs q → h.prev q ≡ last_of p xs
Seg-last h p [] q s = s.1
Seg-last h p (x ∷ xs) q s = Seg-last h x xs q s.2

pub Seg-first :
    (h : Links) (p : Ptr) (xs : List Ptr) (q : Ptr) → Seg h p xs q → h.next p ≡ first_of xs q
Seg-first h p [] q s = s.0
Seg-first h p (x ∷ xs) q s = s.0

-- A segment is cut at an element, and put together there.
pub Seg-cut :
    (h : Links) (p : Ptr) (xs : List Ptr) (y : Ptr) (ys : List Ptr) (q : Ptr)
    → Seg h p (xs ++ y ∷ ys) q
    → Seg h p xs y × Seg h y ys q
Seg-cut h p [] y ys q (e, f, s) = ((e, f), s)
Seg-cut h p (x ∷ xs) y ys q (e, f, s) = let (l, r) = Seg-cut h x xs y ys q s in ((e, f, l), r)

pub Seg-join :
    (h : Links) (p : Ptr) (xs : List Ptr) (y : Ptr) (ys : List Ptr) (q : Ptr)
    → Seg h p xs y
    → Seg h y ys q
    → Seg h p (xs ++ y ∷ ys) q
Seg-join h p [] y ys q (e, f) s = (e, f, s)
Seg-join h p (x ∷ xs) y ys q (e, f, l) s = (e, f, Seg-join h x xs y ys q l s)

-- A segment survives writes to links that are not its own: to `next` of `a` and `c`, and to `prev`
-- of `b` and `d`.
pub Seg-frame :
    (h g : Links) (a c b d p : Ptr) (xs : List Ptr) (q : Ptr)
    → ((r : Ptr) → r ≢ a → r ≢ c → g.next r ≡ h.next r)
    → ((r : Ptr) → r ≢ b → r ≢ d → g.prev r ≡ h.prev r)
    → NotIn a (p ∷ xs)
    → NotIn c (p ∷ xs)
    → NotIn b (xs ++ q ∷ [])
    → NotIn d (xs ++ q ∷ [])
    → Seg h p xs q
    → Seg g p xs q
Seg-frame h g a c b d p [] q nx pv na nc nb nd s = (
  nx p (λ e. na.0 (sym e)) (λ e. nc.0 (sym e)) ∙ s.0,
  pv q (λ e. nb.0 (sym e)) (λ e. nd.0 (sym e)) ∙ s.1,
)
Seg-frame h g a c b d p (x ∷ xs) q nx pv na nc nb nd s = (
  nx p (λ e. na.0 (sym e)) (λ e. nc.0 (sym e)) ∙ s.0,
  pv x (λ e. nb.0 (sym e)) (λ e. nd.0 (sym e)) ∙ s.1,
  Seg-frame h g a c b d x xs q nx pv na.1 nc.1 nb.1 nd.1 s.2,
)

pub NotIn-append : (p : Ptr) (xs ys : List Ptr) → NotIn p xs → NotIn p ys → NotIn p (xs ++ ys)
NotIn-append p [] ys l r = r
NotIn-append p (x ∷ xs) ys l r = (l.0, NotIn-append p xs ys l.1 r)

pub NotIn-split : (p : Ptr) (xs ys : List Ptr) → NotIn p (xs ++ ys) → NotIn p xs × NotIn p ys
NotIn-split p [] ys h = (tt, h)
NotIn-split p (x ∷ xs) ys h = let (l, r) = NotIn-split p xs ys h.1 in ((h.0, l), r)

pub NotIn-last : (p x : Ptr) (xs : List Ptr) → NotIn p (x ∷ xs) → p ≢ last_of x xs
NotIn-last p x [] h = h.0
NotIn-last p x (y ∷ xs) h = NotIn-last p y xs h.1

pub NotIn-first : (p q : Ptr) (xs : List Ptr) → NotIn p xs → p ≢ q → p ≢ first_of xs q
NotIn-first p q [] h ne = ne
NotIn-first p q (x ∷ xs) h ne = h.0

-- An element may stand anywhere.
pub Uniq-to_front :
    (xs : List Ptr) (x : Ptr) (ys : List Ptr) → Uniq (xs ++ x ∷ ys) → Uniq (x ∷ xs ++ ys)
Uniq-to_front [] x ys h = h
Uniq-to_front (a ∷ xs) x ys h =
    let (before, behind) = NotIn-split a xs (x ∷ ys) h.0 in
    let (far, rest) = Uniq-to_front xs x ys h.1 in
    ((λ e. behind.0 (sym e), far), (NotIn-append a xs ys before behind.1, rest))

pub Uniq-from_front :
    (xs : List Ptr) (x : Ptr) (ys : List Ptr) → Uniq (x ∷ xs ++ ys) → Uniq (xs ++ x ∷ ys)
Uniq-from_front [] x ys h = h
Uniq-from_front (a ∷ xs) x ys ((ne, far), (apart, rest)) =
    let (before, behind) = NotIn-split a xs ys apart in
    (
      NotIn-append a xs (x ∷ ys) before (λ e. ne (sym e), behind),
      Uniq-from_front xs x ys (far, rest),
    )
