-- ===== src/Gqueue/Push.antt =====
-- `easy_queue_push` adds at the end.
use udpboardcast.Base.{
  ℕ, ◌+◌, ◌<◌, ◌≡◌, refl, sym, ap, ◌∙◌, false, List, [], ◌∷◌, ◌++◌, Option, none, some, ◌==◌,
  length-append, arith,
}
use udpboardcast.ClientLoop.{Ptr, put}
use udpboardcast.Gqueue.{Node, Gqueue, with_node, set_node, easy_queue_push}
use udpboardcast.Gqueue.Chain.{node, Chain, Chain-tail, contents-append, IsQueue}
use udpboardcast.Gqueue.Only.{Only-push}

-- What `next` of a node says once `p` is at the end.
abbrev first_of : Option Ptr → List (Ptr × List ℕ) → Ptr → Option Ptr
first_of first [] p = some p
first_of first (e ∷ es) p = first

-- A new node at `p` behind the tail.
record Adds (m m' : Ptr → Option Node) (p : Ptr) (x : List ℕ) (tail : Ptr) : Type 0 where
  added : m' p ≡ some (node x tail none)
  linked : (n : Node) → m tail ≡ some n → m' tail ≡ some (record n { next = some p })
  others : (a : Ptr) → (a == p) ≡ false → (a == tail) ≡ false → m' a ≡ m a

-- The node at `h` itself, with what follows it.
at_tail :
    (m m' : Ptr → Option Node) (d : List ℕ) (o first : Option Ptr) (h p : Ptr) (x : List ℕ)
    (es : List (Ptr × List ℕ)) (tail : Ptr)
    → Adds m m' p x tail
    → h < p
    → Chain m h first es tail
    → m h ≡ some (record { content = d; prev = o; next = first })
    → m' h ≡ some (record { content = d; prev = o; next = first_of first es p })
at_tail m m' d o first h p x [] tail a up (_, e) at =
    let at' : m tail ≡ some (record { content = d; prev = o; next = first }) = ap m e ∙ at in
    ap m' (sym e) ∙ a.linked _ at'
at_tail m m' d o first h p x ((b, y) ∷ es) tail a up (_, above, next, _, c) at =
    let far = Chain-tail m b next es tail c in
    a.others h (ground (arith, up)) (ground (arith, above, far)) ∙ at

Chain-Adds :
    (m m' : Ptr → Option Node) (h p : Ptr) (x : List ℕ) (first : Option Ptr)
    (es : List (Ptr × List ℕ)) (tail : Ptr)
    → Adds m m' p x tail
    → tail < p
    → Chain m h first es tail
    → Chain m' h (first_of first es p) (es ++ (p, x) ∷ []) p
Chain-Adds m m' h p x first [] tail a up (_, e) =
    (refl, omega (arith, up, e), none, a.added ∙ ap (λ h. some (node x h none)) e, (refl, refl))
Chain-Adds m m' h p x first ((b, y) ∷ es) tail a up (start, above, next, at, c) =
    let far = Chain-tail m b next es tail c in
    (
      start,
      above,
      first_of next es p,
      at_tail m m' y (some h) next b p x es tail a (omega (arith, far, up)) c at,
      Chain-Adds m m' b p x next es tail a up c,
    )

-- A push on a queue succeeds.
pub record Pushed (x : List ℕ) (xs : List (List ℕ)) (q : Gqueue) (r : Option Gqueue) : Type 0 where
  pub next : Gqueue
  pub result : r ≡ some next
  pub holds : IsQueue next (xs ++ x ∷ [])
  pub handled : next.handled ≡ q.handled

tail_there :
    (m : Ptr → Option Node) (d : List ℕ) (o : Option Ptr) (h : Ptr) (first : Option Ptr)
    (es : List (Ptr × List ℕ)) (tail : Ptr)
    → m h ≡ some (record { content = d; prev = o; next = first })
    → Chain m h first es tail
    → (n : Node) × (m tail ≡ some n)
tail_there m d o h first [] tail at (_, e) = (_, ap m e ∙ at)
tail_there m d o h first ((p, x) ∷ es) tail at (_, _, next, at', c) =
    tail_there m x (some h) p next es tail at' c

abbrev new_node : List ℕ → Node
new_node x = record { content = x; prev = none; next = none }

abbrev pushed : List ℕ → Node → Gqueue → Gqueue
pushed x t q =
    let p = q.next_ptr in
    record q {
      nodes =
          put
            (put (put q.nodes p (some (new_node x))) q.queue_tail
              (some (record t { next = some p })))
            p (some (node x q.queue_tail none));
      next_ptr = p + 1;
      queue_tail = p;
      size = q.size + 1;
    }

push_lem :
    (x : List ℕ) (t : Node) (q : Gqueue)
    → q.nodes q.queue_tail ≡ some t
    → q.queue_tail < q.next_ptr
    → easy_queue_push x q ≡ some (pushed x t q)
unfolding easy_queue_push with_node set_node
push_lem x t q at new = ground (arith, at, new)

pub easy_queue_push-Pushed :
    (x : List ℕ) (xs : List (List ℕ)) (q : Gqueue)
    → IsQueue q xs
    → Pushed x xs q (easy_queue_push x q)
easy_queue_push-Pushed x xs q v =
    let (d, o, at) = v.head in
    let p = q.next_ptr in
    let (t, last) = tail_there q.nodes d o q.queue_head v.first v.entries q.queue_tail at v.chain in
    let q' = pushed x t q in
    let a : Adds q.nodes q'.nodes p x q.queue_tail = record {
      added = ground arith;
      linked = λ n there. ground (arith, there, last, v.new);
      others = λ b here there. ground (arith, here, there);
    } in
    let far = Chain-tail q.nodes q.queue_head v.first v.entries q.queue_tail v.chain in
    record {
      next = q';
      result = push_lem x t q last v.new;
      holds = record {
        entries = v.entries ++ (p, x) ∷ [];
        holds = contents-append v.entries p x ∙ ap (λ l. l ++ x ∷ []) v.holds;
        first = first_of v.first v.entries p;
        head = (
          d,
          o,
          at_tail q.nodes q'.nodes d o v.first q.queue_head p x v.entries q.queue_tail a
              (omega (arith, far, v.new)) v.chain at,
        );
        chain =
            Chain-Adds q.nodes q'.nodes q.queue_head p x v.first v.entries q.queue_tail a v.new
              v.chain;
        only =
            Only-push q.nodes q'.nodes q.queue_head v.first p x v.entries q.queue_tail v.chain
              a.others v.only;
        size = omega (arith, v.size, length-append xs (x ∷ []));
        new = omega arith;
      };
      handled = refl;
    }
