-- ===== src/Gqueue/Freed.antt =====
-- The end of a queue: `easy_queue_clear` and `easy_queue_uninit` give back its memory.
use udpboardcast.Base.{
  ℕ, ◌≤◌, ◌≡◌, refl, subst, ◌∙◌, inl, inr, true, false, List, [], ◌∷◌, ◌++◌, Option, none, some,
  length, ltb, ◌==◌, if◌then◌else◌, Bool-cases, arith,
}
use udpboardcast.ClientLoop.{Ptr, put}
use udpboardcast.Gqueue.{
  Node, Gqueue, refused, popped, with_node, easy_queue_init, easy_queue_push, easy_queue_pop,
  easy_queue_clear, easy_queue_uninit,
}
use udpboardcast.Gqueue.Chain.{contents, among, Only, IsQueue}
use udpboardcast.Gqueue.Push.{easy_queue_push-Pushed}
use udpboardcast.Gqueue.Pop.{easy_queue_pop-PopsAs}
use udpboardcast.Gqueue.Clear.{easy_queue_clear-Clears}
use udpboardcast.Gqueue.Runs.{Op, push, pop, size, easy_queue_init-IsQueue, when, unless}

-- The queue after calls; `none` is an access to memory that holds no node.
unfoldable pub after : List Op → Gqueue → Option Gqueue
unfolding easy_queue_push easy_queue_pop
after [] q = some q
after (push x ∷ ops) q = elim (easy_queue_push x q) [ none ↦ none | some q' ↦ after ops q' ]
after (pop given buflen ∷ ops) q = elim (easy_queue_pop given buflen q) [
  | none ↦ none
  | some (refused n) ↦ after ops q
  | some (popped x q') ↦ after ops q'
]
after (size ∷ ops) q = after ops q

-- What the queue holds after them.
unfoldable pub list_after : List Op → List (List ℕ) → List (List ℕ)
list_after [] xs = xs
list_after (push x ∷ ops) xs = list_after ops (xs ++ x ∷ [])
list_after (pop given buflen ∷ ops) [] = list_after ops []
list_after (pop given buflen ∷ ops) (x ∷ xs) =
    let keeps = list_after ops (x ∷ xs) in
    let takes = list_after ops xs in
    if given then if ltb buflen (length x) then keeps else takes else keeps
list_after (size ∷ ops) xs = list_after ops xs

-- A queue that holds these, and with which nothing has been handled since `q`.
record Holds (xs : List (List ℕ)) (q : Gqueue) (r : Option Gqueue) : Type 0 where
  last : Gqueue
  result : r ≡ some last
  holds : IsQueue last xs
  handled : last.handled ≡ q.handled

later :
    (xs : List (List ℕ)) (q q' : Gqueue) (r r' : Option Gqueue)
    → r ≡ r'
    → q'.handled ≡ q.handled
    → Holds xs q' r'
    → Holds xs q r
later xs q q' r r' e same h = record {
  last = h.last;
  result = e ∙ h.result;
  holds = h.holds;
  handled = h.handled ∙ same;
}

after-Holds :
    (ops : List Op) (xs : List (List ℕ)) (q : Gqueue)
    → IsQueue q xs
    → Holds (list_after ops xs) q (after ops q)
unfolding after list_after
after-Holds [] xs q v = record { last = q; result = refl; holds = v; handled = refl }
after-Holds (push x ∷ ops) xs q v =
    let p = easy_queue_push-Pushed x xs q v in
    later _ q p.next _ _ (rw (p.result, after) refl) p.handled
      (after-Holds ops (xs ++ x ∷ []) p.next p.holds)
after-Holds (pop given buflen ∷ ops) [] q v =
    later _ q q _ _ (rw (easy_queue_pop-PopsAs given buflen [] q v, after) refl) refl
      (after-Holds ops [] q v)
after-Holds (pop false buflen ∷ ops) (x ∷ xs) q v =
    later _ q q _ _ (rw (easy_queue_pop-PopsAs false buflen (x ∷ xs) q v, after) refl) refl
      (after-Holds ops (x ∷ xs) q v)
after-Holds (pop true buflen ∷ ops) (x ∷ xs) q v =
    let outcome = easy_queue_pop-PopsAs true buflen (x ∷ xs) q v in
    elim (Bool-cases (ltb buflen (length x))) [
      | inl small ↦ rw small (
          later _ q q _ _ (rw (when _ _ (ltb buflen (length x)) small outcome, after) refl) refl
            (after-Holds ops (x ∷ xs) q v))
      | inr fits ↦
          let t = unless _ _ (ltb buflen (length x)) fits outcome in
          rw fits (
            later _ q t.next _ _ (rw (t.result, after) refl) t.handled
              (after-Holds ops xs t.next t.holds))
    ]
after-Holds (size ∷ ops) xs q v = after-Holds ops xs q v

-- The queue has been cleared and released: the handler got these, the last first, and no node is
-- left in memory.
pub record Frees (xs : List (List ℕ)) (fuel : ℕ) (q : Gqueue) : Type 0 where
  pub cleared : Gqueue
  pub clears : easy_queue_clear fuel q ≡ some cleared
  pub handled : cleared.handled ≡ xs ++ q.handled
  pub memory : Ptr → Option Node
  pub released : easy_queue_uninit cleared ≡ some memory
  pub empty : (a : Ptr) → memory a ≡ none

no_entries : (es : List (Ptr × List ℕ)) → contents es ≡ [] → es ≡ []
no_entries [] e = refl
no_entries (x ∷ es) e = cc e

all_freed : (m : Ptr → Option Node) (h : Ptr) → Only m h [] → (a : Ptr) → put m h none a ≡ none
unfolding among
all_freed m h only a = elim (Bool-cases (a == h)) [
  | inl e ↦ ground (arith, e)
  | inr e ↦ ground (arith, e, only a e refl)
]

clear-Frees :
    (xs : List (List ℕ)) (fuel : ℕ) (q : Gqueue) → IsQueue q xs → length xs ≤ fuel → Frees xs fuel q
unfolding easy_queue_uninit with_node
clear-Frees xs fuel q v enough =
    let c = easy_queue_clear-Clears fuel xs q v enough in
    let (d, o, at) = c.holds.head in
    let alone =
      subst (Only c.next.nodes c.next.queue_head) (no_entries c.holds.entries c.holds.holds)
        c.holds.only in
    record {
      cleared = c.next;
      clears = c.result;
      handled = c.handled;
      memory = put c.next.nodes c.next.queue_head none;
      released = rw (at, easy_queue_uninit, with_node) refl;
      empty = all_freed c.next.nodes c.next.queue_head alone;
    }

-- After any sequence of calls of a new queue, `easy_queue_clear`, which ends after as many rounds
-- as there are items, and `easy_queue_uninit` leave no node in memory and touch none that is freed;
-- the handler has got each item that was left, once, the last first.
pub after-Frees :
    (p : Ptr) (ops : List Op) (fuel : ℕ)
    → length (list_after ops []) ≤ fuel
    → (q : Gqueue) × (after ops (easy_queue_init p) ≡ some q)
      × (q.handled ≡ [])
      × Frees (list_after ops []) fuel q
unfolding easy_queue_init
after-Frees p ops fuel enough =
    let h = after-Holds ops [] (easy_queue_init p) (easy_queue_init-IsQueue p) in
    (h.last, h.result, h.handled, clear-Frees (list_after ops []) fuel h.last h.holds enough)
