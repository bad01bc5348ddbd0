-- ===== src/Gqueue/Chain.antt =====
-- The nodes of a queue, from its head to its tail.
use udpboardcast.Base.{
  ℕ, ◌<◌, ◌≤◌, ◌≡◌, refl, ap, ◌∙◌, Bool, true, false, ◌==◌, if◌then◌else◌, List, [], ◌∷◌, ◌++◌, map,
  Option, none, some, length, arith,
}
use udpboardcast.ClientLoop.{Ptr}
use udpboardcast.Gqueue.{Node, Gqueue}

abbrev pub node : List ℕ → Ptr → Option Ptr → Node
node x prev next = record { content = x; prev = some prev; next = next }

-- The nodes behind the one at `h`, whose `next` is `first`: with their data, up to the tail. Each
-- points back to the one before it. Addresses ascend, since `malloc` gives new ones.
abbrev pub Chain : (Ptr → Option Node) → Ptr → Option Ptr → List (Ptr × List ℕ) → Ptr → Type 0
Chain m h first [] tail = (first ≡ none) × (tail ≡ h)
Chain m h first ((p, x) ∷ es) tail =
    (first ≡ some p)
    × (h < p)
    × (next : Option Ptr) × (m p ≡ some (node x h next))
    × Chain m p next es tail

abbrev pub contents : List (Ptr × List ℕ) → List (List ℕ)
contents = map λ e. e.1

pub contents-append :
    (es : List (Ptr × List ℕ)) (p : Ptr) (x : List ℕ)
    → contents (es ++ (p, x) ∷ []) ≡ contents es ++ x ∷ []
contents-append [] p x = refl
contents-append ((_, y) ∷ es) p x = ap (◌∷◌ y) (contents-append es p x)

-- One of the entries is at this address.
unfoldable pub among : Ptr → List (Ptr × List ℕ) → Bool
among a [] = false
among a ((p, x) ∷ es) = let rest = among a es in if p == a then true else rest

-- There is no node in memory but the head node and the entries.
abbrev pub Only : (Ptr → Option Node) → Ptr → List (Ptr × List ℕ) → Type 0
Only m h es = (a : Ptr) → (a == h) ≡ false → among a es ≡ false → m a ≡ none

-- A queue that holds these byte strings, the next to be taken first.
pub record IsQueue (q : Gqueue) (xs : List (List ℕ)) : Type 0 where
  pub entries : List (Ptr × List ℕ)
  pub holds : contents entries ≡ xs
  pub first : Option Ptr
  pub head :
      (d : List ℕ) × (o : Option Ptr) × (q.nodes q.queue_head
        ≡ some (record { content = d; prev = o; next = first }))
  pub chain : Chain q.nodes q.queue_head first entries q.queue_tail
  pub only : Only q.nodes q.queue_head entries
  pub size : q.size ≡ length xs
  pub new : q.queue_tail < q.next_ptr

-- The chain depends on the nodes behind `h` only.
pub Chain-same :
    (m m' : Ptr → Option Node) (h : Ptr) (first : Option Ptr) (es : List (Ptr × List ℕ))
    (tail : Ptr)
    → ((a : Ptr) → h < a → m' a ≡ m a)
    → Chain m h first es tail
    → Chain m' h first es tail
Chain-same m m' h first [] tail same c = c
Chain-same m m' h first ((p, x) ∷ es) tail same (e, up, next, at, c) = (
  e,
  up,
  next,
  same p up ∙ at,
  Chain-same m m' p next es tail (λ a above. same a (omega (arith, above, up))) c,
)

-- The tail is the head only if there is nothing behind it.
pub Chain-tail :
    (m : Ptr → Option Node) (h : Ptr) (first : Option Ptr) (es : List (Ptr × List ℕ)) (tail : Ptr)
    → Chain m h first es tail
    → h ≤ tail
Chain-tail m h first [] tail (_, e) = omega (arith, e)
Chain-tail m h first ((p, x) ∷ es) tail (_, up, next, _, c) =
    omega (arith, up, Chain-tail m p next es tail c)

-- An address that is no node of the queue is not its tail.
pub not_tail :
    (m : Ptr → Option Node) (h : Ptr) (first : Option Ptr) (es : List (Ptr × List ℕ)) (tail a : Ptr)
    → Chain m h first es tail
    → (a == h) ≡ false
    → among a es ≡ false
    → (a == tail) ≡ false
unfolding among
not_tail m h first [] tail a (_, e) other apart = ground (arith, e, other)
not_tail m h first ((p, x) ∷ es) tail a (_, _, next, _, c) other apart =
    not_tail m p next es tail a c (ground (arith, apart)) (ground (arith, apart))

pub among-append :
    (a : Ptr) (es : List (Ptr × List ℕ)) (p : Ptr) (x : List ℕ)
    → among a (es ++ (p, x) ∷ []) ≡ (if p == a then true else among a es)
unfolding among
among-append a [] p x = refl
among-append a ((b, y) ∷ es) p x = ground (arith, among-append a es p x)
