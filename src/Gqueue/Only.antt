-- ===== src/Gqueue/Only.antt =====
-- The memory of a queue holds its nodes only, whatever is added or taken out.
use udpboardcast.Base.{
  ℕ, ◌≡◌, ◌∙◌, inl, inr, false, List, [], ◌∷◌, ◌++◌, Option, none, ◌==◌, Bool-cases, ap, ==_iff,
  arith,
}
use udpboardcast.ClientLoop.{Ptr}
use udpboardcast.Gqueue.{Node}
use udpboardcast.Gqueue.Chain.{Chain, among, Only, not_tail, among-append}
use udpboardcast.Gqueue.Last.{last_of}

-- An address that is no node of the queue is not its last one.
not_last :
    (h : Ptr) (es : List (Ptr × List ℕ)) (a : Ptr)
    → (a == h) ≡ false
    → among a es ≡ false
    → (a == last_of h es) ≡ false
unfolding among
not_last h [] a other apart = other
not_last h ((p, x) ∷ es) a other apart =
    not_last p es a (ground (arith, apart)) (ground (arith, apart))

pub Only-push :
    (m m' : Ptr → Option Node) (h : Ptr) (first : Option Ptr) (p : Ptr) (x : List ℕ)
    (es : List (Ptr × List ℕ)) (tail : Ptr)
    → Chain m h first es tail
    → ((a : Ptr) → (a == p) ≡ false → (a == tail) ≡ false → m' a ≡ m a)
    → Only m h es
    → Only m' h (es ++ (p, x) ∷ [])
Only-push m m' h first p x es tail c same only a other apart =
    let outside : among a es ≡ false = ground (arith, among-append a es p x, apart) in
    let new : (a == p) ≡ false = ground (arith, among-append a es p x, apart) in
    same a new (not_tail m h first es tail a c other outside) ∙ only a other outside

-- The first entry has been freed.
pub Only-pop :
    (m m' : Ptr → Option Node) (h p : Ptr) (x : List ℕ) (es : List (Ptr × List ℕ))
    → m' p ≡ none
    → ((a : Ptr) → (a == p) ≡ false → (a == h) ≡ false → among a es ≡ false → m' a ≡ m a)
    → Only m h ((p, x) ∷ es)
    → Only m' h es
unfolding among
Only-pop m m' h p x es freed same only a other apart = elim (Bool-cases (a == p)) [
  | inl e ↦ ap m' ((==_iff a p).0 e) ∙ freed
  | inr e ↦ same a e other apart ∙ only a other (ground (arith, e, apart))
]

-- The last entry has been freed.
pub Only-drop :
    (m m' : Ptr → Option Node) (h p : Ptr) (x : List ℕ) (es : List (Ptr × List ℕ))
    → m' p ≡ none
    → ((a : Ptr) → (a == p) ≡ false → (a == last_of h es) ≡ false → m' a ≡ m a)
    → Only m h (es ++ (p, x) ∷ [])
    → Only m' h es
unfolding among
Only-drop m m' h p x es freed same only a other apart = elim (Bool-cases (a == p)) [
  | inl e ↦ ap m' ((==_iff a p).0 e) ∙ freed
  | inr e ↦
      same a e (not_last h es a other apart)
      ∙ only a other (ground (arith, among-append a es p x, e, apart))
]
