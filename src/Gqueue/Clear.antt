-- ===== src/Gqueue/Clear.antt =====
-- `easy_queue_clear` takes the nodes from the tail on.
use udpboardcast.Base.{
  ℕ, zero, suc, ◌+◌, ◌-◌, ◌<◌, ◌≤◌, ◌≡◌, refl, sym, ap, subst, ◌∙◌, inl, inr, false, List, [], ◌∷◌,
  ◌++◌, Option, none, some, ◌==◌, append_assoc, length, length-append, arith,
}
use udpboardcast.ClientLoop.{Ptr, put}
use udpboardcast.Gqueue.{Node, Gqueue, with_node, set_node, moved, easy_queue_clear}
use udpboardcast.Gqueue.Chain.{node, Chain, contents, contents-append, Only, IsQueue}
use udpboardcast.Gqueue.Only.{Only-drop}
use udpboardcast.Gqueue.Last.{
  last_of, first_to, Chain-Last, Drops, at_last, Chain-Drops, node_before, unsnoc,
}

-- The queue without its last node.
abbrev dropped : Ptr → Node → Node → Gqueue → Gqueue
dropped before c n q = moved c q.size (record q {
  queue_tail = before;
  nodes = put (put q.nodes before (some (record n { next = none }))) q.queue_tail none;
})

step_lem :
    (fuel : ℕ) (before : Ptr) (x : List ℕ) (n : Node) (q : Gqueue)
    → (q.queue_tail == q.queue_head) ≡ false
    → q.nodes q.queue_tail ≡ some (node x before none)
    → q.nodes before ≡ some n
    → easy_queue_clear (suc fuel) q
      ≡ easy_queue_clear fuel (dropped before (node x before none) n q)
unfolding easy_queue_clear with_node set_node
step_lem fuel before x n q other at there = rw (other, at, there, easy_queue_clear, with_node) refl

clear_empty :
    (fuel : ℕ) (q : Gqueue)
    → q.queue_tail ≡ q.queue_head
    → q.size ≡ 0
    → easy_queue_clear fuel q ≡ some q
unfolding easy_queue_clear
clear_empty zero q e size = ground (arith, e, size)
clear_empty (suc fuel) q e size = ground (arith, e, size)

-- The queue is empty, and the handler was called with the data of each node, the last first.
pub record Clears (xs : List (List ℕ)) (q : Gqueue) (r : Option Gqueue) : Type 0 where
  pub next : Gqueue
  pub result : r ≡ some next
  pub holds : IsQueue next []
  pub handled : next.handled ≡ xs ++ q.handled

clear_none :
    (fuel : ℕ) (d : List ℕ) (o first : Option Ptr) (q : Gqueue)
    → q.nodes q.queue_head ≡ some (record { content = d; prev = o; next = first })
    → Chain q.nodes q.queue_head first [] q.queue_tail
    → Only q.nodes q.queue_head []
    → q.size ≡ 0
    → q.queue_tail < q.next_ptr
    → Clears [] q (easy_queue_clear fuel q)
clear_none fuel d o first q at (none_left, e) only size new = record {
  next = q;
  result = clear_empty fuel q e size;
  holds = record {
    entries = [];
    holds = refl;
    first = first;
    head = (d, o, at);
    chain = (none_left, e);
    only = only;
    size = size;
    new = new;
  };
  handled = refl;
}

all_gone :
    (fuel : ℕ) (es : List (Ptr × List ℕ)) (d : List ℕ) (o first : Option Ptr) (q : Gqueue)
    → es ≡ []
    → q.nodes q.queue_head ≡ some (record { content = d; prev = o; next = first })
    → Chain q.nodes q.queue_head first es q.queue_tail
    → Only q.nodes q.queue_head es
    → q.size ≡ length es
    → q.queue_tail < q.next_ptr
    → Clears (contents es) q (easy_queue_clear fuel q)
all_gone fuel es d o first q e at c only size new =
    subst (λ l. Clears (contents l) q (easy_queue_clear fuel q)) (sym e)
      (clear_none fuel d o first q at
        (subst (λ l. Chain q.nodes q.queue_head first l q.queue_tail) e c)
        (subst (λ l. Only q.nodes q.queue_head l) e only) (size ∙ ap length e) new)

-- One round, for the last entry.
record Round (fuel : ℕ) (q : Gqueue) (x d : List ℕ) (es : List (Ptr × List ℕ))
    (o first : Option Ptr) : Type 0 where
  next : Gqueue
  result : easy_queue_clear (suc fuel) q ≡ easy_queue_clear fuel next
  head :
      next.nodes next.queue_head ≡ some (record { content = d; prev = o; next = first_to first es })
  chain : Chain next.nodes next.queue_head (first_to first es) es next.queue_tail
  only : Only next.nodes next.queue_head es
  size : next.size ≡ q.size - 1
  new : next.queue_tail < next.next_ptr
  handled : next.handled ≡ x ∷ q.handled

round :
    (fuel p : ℕ) (x d : List ℕ) (o first : Option Ptr) (es : List (Ptr × List ℕ)) (q : Gqueue)
    → q.nodes q.queue_head ≡ some (record { content = d; prev = o; next = first })
    → Chain q.nodes q.queue_head first (es ++ (p, x) ∷ []) q.queue_tail
    → Only q.nodes q.queue_head (es ++ (p, x) ∷ [])
    → q.queue_tail < q.next_ptr
    → Round fuel q x d es o first
round fuel p x d o first es q at c only new =
    let h = q.queue_head in
    let l = Chain-Last q.nodes h first es p x q.queue_tail c in
    let before = last_of h es in
    let (n, there) = node_before q.nodes d o first h p x es q.queue_tail c at in
    let last : q.nodes q.queue_tail ≡ some (node x before none) = ap q.nodes l.is_tail ∙ l.at in
    let q' = dropped before (node x before none) n q in
    let drops : Drops q.nodes q'.nodes before p = record {
      cut = λ k held. ground (arith, held, there, l.before, l.is_tail);
      others = λ a here other. ground (arith, here, other, l.is_tail);
    } in
    record {
      next = q';
      result = step_lem fuel before x n q (ground (arith, l.above, l.before, l.is_tail)) last there;
      head = at_last q.nodes q'.nodes d o first h p x es q.queue_tail drops c at;
      chain = Chain-Drops q.nodes q'.nodes h p x first es q.queue_tail drops c;
      only =
          Only-drop q.nodes q'.nodes h p x es (ground (arith, l.is_tail))
            (λ a apart other. ground (arith, apart, other, l.is_tail)) only;
      size = refl;
      new = omega (arith, l.before, l.is_tail, new);
      handled = refl;
    }

clear_entries :
    (fuel : ℕ) (es : List (Ptr × List ℕ)) (d : List ℕ) (o first : Option Ptr) (q : Gqueue)
    → q.nodes q.queue_head ≡ some (record { content = d; prev = o; next = first })
    → Chain q.nodes q.queue_head first es q.queue_tail
    → Only q.nodes q.queue_head es
    → q.size ≡ length es
    → q.queue_tail < q.next_ptr
    → length es ≤ fuel
    → Clears (contents es) q (easy_queue_clear fuel q)
clear_entries zero es d o first q at c only size new enough = elim (unsnoc es) [
  | inl e ↦ all_gone zero es d o first q e at c only size new
  | inr (es', p, x, e) ↦
      absurd (omega (arith, enough, ap length e, length-append es' ((p, x) ∷ [])))
]
clear_entries (suc fuel) es d o first q at c only size new enough = elim (unsnoc es) [
  | inl e ↦ all_gone (suc fuel) es d o first q e at c only size new
  | inr (es', p, x, e) ↦
      let long : length es ≡ length es' + 1 =
        omega (arith, ap length e, length-append es' ((p, x) ∷ [])) in
      let r =
        round fuel p x d o first es' q at
          (subst (λ l. Chain q.nodes q.queue_head first l q.queue_tail) e c)
          (subst (λ l. Only q.nodes q.queue_head l) e only) new in
      let rest =
        clear_entries fuel es' d o (first_to first es') r.next r.head r.chain r.only
          (omega (arith, r.size, size, long)) r.new (omega (arith, enough, long)) in
      record {
        next = rest.next;
        result = r.result ∙ rest.result;
        holds = rest.holds;
        handled =
            rest.handled
            ∙ ap (λ l. contents es' ++ l) r.handled
            ∙ sym (append_assoc (contents es') (x ∷ []) q.handled)
            ∙ ap (λ l. l ++ q.handled) (sym (contents-append es' p x) ∙ ap contents (sym e));
      }
]

length-contents : (es : List (Ptr × List ℕ)) → length (contents es) ≡ length es
length-contents [] = refl
length-contents (e ∷ es) = ap suc (length-contents es)

-- To clear a queue ends after as many rounds as there are items, without a fault: the handler gets
-- each item once, the last first, and an empty queue is left.
pub easy_queue_clear-Clears :
    (fuel : ℕ) (xs : List (List ℕ)) (q : Gqueue)
    → IsQueue q xs
    → length xs ≤ fuel
    → Clears xs q (easy_queue_clear fuel q)
easy_queue_clear-Clears fuel xs q v enough =
    let (d, o, at) = v.head in
    let long = length-contents v.entries in
    let all = ap length v.holds in
    subst (λ l. Clears l q (easy_queue_clear fuel q)) v.holds
      (clear_entries fuel v.entries d o v.first q at v.chain v.only
        (omega (arith, v.size, long, all)) v.new (omega (arith, enough, long, all)))
