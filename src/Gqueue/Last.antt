-- ===== src/Gqueue/Last.antt =====
-- The last node of a queue, and a queue without it.
use udpboardcast.Base.{
  ℕ, ◌<◌, ◌≤◌, ◌≡◌, ◌⊎◌, refl, ap, ◌∙◌, inl, inr, false, List, [], ◌∷◌, ◌++◌, Option, none, some,
  ◌==◌, arith,
}
use udpboardcast.ClientLoop.{Ptr}
use udpboardcast.Gqueue.{Node}
use udpboardcast.Gqueue.Chain.{node, Chain}

-- The address of the last node before the end.
abbrev pub last_of : Ptr → List (Ptr × List ℕ) → Ptr
last_of h [] = h
last_of h ((p, x) ∷ es) = last_of p es

abbrev pub first_to : Option Ptr → List (Ptr × List ℕ) → Option Ptr
first_to first [] = none
first_to first (e ∷ es) = first

-- The last node of a chain.
pub record Last (m : Ptr → Option Node) (h : Ptr) (es : List (Ptr × List ℕ)) (p : Ptr) (x : List ℕ)
    (tail : Ptr) : Type 0 where
  pub above : h ≤ last_of h es
  pub before : last_of h es < p
  pub is_tail : tail ≡ p
  pub at : m p ≡ some (node x (last_of h es) none)

pub Chain-Last :
    (m : Ptr → Option Node) (h : Ptr) (first : Option Ptr) (es : List (Ptr × List ℕ)) (p : Ptr)
    (x : List ℕ) (tail : Ptr)
    → Chain m h first (es ++ (p, x) ∷ []) tail
    → Last m h es p x tail
Chain-Last m h first [] p x tail (_, up, next, at, (ends, last)) = record {
  above = omega arith;
  before = up;
  is_tail = last;
  at = at ∙ ap (λ o. some (node x h o)) ends;
}
Chain-Last m h first ((b, y) ∷ es) p x tail (_, up, next, at, c) =
    let l = Chain-Last m b next es p x tail c in
    record { above = omega (arith, up, l.above); before = l.before; is_tail = l.is_tail; at = l.at }

-- The node at `p` is freed, and the one before it is the last.
pub record Drops (m m' : Ptr → Option Node) (before p : Ptr) : Type 0 where
  pub cut : (n : Node) → m before ≡ some n → m' before ≡ some (record n { next = none })
  pub others : (a : Ptr) → (a == p) ≡ false → (a == before) ≡ false → m' a ≡ m a

pub at_last :
    (m m' : Ptr → Option Node) (d : List ℕ) (o first : Option Ptr) (h p : Ptr) (x : List ℕ)
    (es : List (Ptr × List ℕ)) (tail : Ptr)
    → Drops m m' (last_of h es) p
    → Chain m h first (es ++ (p, x) ∷ []) tail
    → m h ≡ some (record { content = d; prev = o; next = first })
    → m' h ≡ some (record { content = d; prev = o; next = first_to first es })
at_last m m' d o first h p x [] tail a c at = a.cut _ at
at_last m m' d o first h p x ((b, y) ∷ es) tail a (_, up, next, _, c) at =
    let l = Chain-Last m b next es p x tail c in
    a.others h (ground (arith, up, l.above, l.before)) (ground (arith, up, l.above)) ∙ at

pub Chain-Drops :
    (m m' : Ptr → Option Node) (h p : Ptr) (x : List ℕ) (first : Option Ptr)
    (es : List (Ptr × List ℕ)) (tail : Ptr)
    → Drops m m' (last_of h es) p
    → Chain m h first (es ++ (p, x) ∷ []) tail
    → Chain m' h (first_to first es) es (last_of h es)
Chain-Drops m m' h p x first [] tail a c = (refl, refl)
Chain-Drops m m' h p x first ((b, y) ∷ es) tail a (start, up, next, at, c) = (
  start,
  up,
  first_to next es,
  at_last m m' y (some h) next b p x es tail a c at,
  Chain-Drops m m' b p x next es tail a c,
)

pub node_before :
    (m : Ptr → Option Node) (d : List ℕ) (o first : Option Ptr) (h p : Ptr) (x : List ℕ)
    (es : List (Ptr × List ℕ)) (tail : Ptr)
    → Chain m h first (es ++ (p, x) ∷ []) tail
    → m h ≡ some (record { content = d; prev = o; next = first })
    → (n : Node) × (m (last_of h es) ≡ some n)
node_before m d o first h p x [] tail c at = (_, at)
node_before m d o first h p x ((b, y) ∷ es) tail (_, _, next, at', c) at =
    node_before m y (some h) next b p x es tail c at'

pub unsnoc :
    (es : List (Ptr × List ℕ))
    → (es ≡ [])
      ⊎ ((es' : List (Ptr × List ℕ)) × (p : Ptr) × (x : List ℕ) × (es ≡ es' ++ (p, x) ∷ []))
unsnoc [] = inl refl
unsnoc ((b, y) ∷ es) = elim (unsnoc es) [
  | inl e ↦ inr ([], b, y, ap (◌∷◌ (b, y)) e)
  | inr (es', p, x, e) ↦ inr ((b, y) ∷ es', p, x, ap (◌∷◌ (b, y)) e)
]
