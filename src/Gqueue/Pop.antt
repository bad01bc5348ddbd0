-- ===== src/Gqueue/Pop.antt =====
-- `easy_queue_pop` takes from the front.
use udpboardcast.Base.{
  subst, ℕ, suc, ◌-◌, ◌<◌, ◌≡◌, refl, sym, ap, ◌∙◌, inl, inr, Bool, true, false, List, [], ◌∷◌,
  Option, none, some, ◌==◌, ltb, if◌then◌else◌, Bool-cases, length, arith,
}
use udpboardcast.ClientLoop.{Ptr, put}
use udpboardcast.Gqueue.{
  Node, Gqueue, with_node, set_node, Popped, refused, popped, join, unlink, easy_queue_pop,
}
use udpboardcast.Gqueue.Chain.{node, Chain, Chain-same, contents, among, Only, IsQueue}
use udpboardcast.Gqueue.Only.{Only-pop}

-- The first is taken out, and the queue goes on with the rest.
pub record Takes (x : List ℕ) (xs : List (List ℕ)) (q : Gqueue) (r : Option Popped) : Type 0 where
  pub next : Gqueue
  pub result : r ≡ some (popped x next)
  pub holds : IsQueue next xs
  pub handled : next.handled ≡ q.handled

-- `easy_queue_pop` up to the decision what to do.
pop_empty :
    (given : Bool) (buflen : ℕ) (h : Node) (q : Gqueue)
    → q.nodes q.queue_head ≡ some h
    → h.next ≡ none
    → easy_queue_pop given buflen q ≡ some (refused 0)
unfolding easy_queue_pop with_node
pop_empty given buflen h q at e = rw (at, easy_queue_pop, with_node, e) refl

pop_first :
    (given : Bool) (buflen : ℕ) (h n : Node) (p : Ptr) (q : Gqueue)
    → q.nodes q.queue_head ≡ some h
    → h.next ≡ some p
    → q.nodes p ≡ some n
    → easy_queue_pop given buflen q ≡ (
        if given
        then if ltb buflen (length n.content)
          then some (refused (length n.content))
          else unlink p h n q
        else some (refused (length n.content)))
unfolding easy_queue_pop with_node
pop_first given buflen h n p q at e at' = rw (at, easy_queue_pop, with_node, e, at') refl

unlink-Takes :
    (p : Ptr) (x d : List ℕ) (o next : Option Ptr) (es : List (Ptr × List ℕ)) (q : Gqueue)
    → q.nodes q.queue_head ≡ some (record { content = d; prev = o; next = some p })
    → q.queue_head < p
    → q.nodes p ≡ some (node x q.queue_head next)
    → Chain q.nodes p next es q.queue_tail
    → Only q.nodes q.queue_head ((p, x) ∷ es)
    → q.size ≡ suc (length (contents es))
    → q.queue_tail < q.next_ptr
    → Takes x
        (contents es)
        q
        (unlink p (record { content = d; prev = o; next = some p }) (node x q.queue_head next) q)
unfolding unlink join with_node set_node among
unlink-Takes p x d o next [] q at up at' (e, last) only size new =
    let h' : Node = record { content = d; prev = o; next = next } in
    let q' : Gqueue = record q {
      nodes = put (put q.nodes q.queue_head (some h')) p none;
      queue_tail = q.queue_head;
      size = q.size - 1;
    } in
    record {
      next = q';
      result = rw (e, unlink, join) refl;
      holds = record {
        entries = [];
        holds = refl;
        first = next;
        head = (d, o, ground (arith, up));
        chain = (e, refl);
        only =
            Only-pop q.nodes q'.nodes q.queue_head p x [] (ground arith)
              (λ a apart other out. ground (arith, apart, other)) only;
        size = omega (arith, size);
        new = omega (arith, up, last, new);
      };
      handled = refl;
    }
unlink-Takes p x d o next ((b, y) ∷ es) q at up at' (e, up', next', at'', c) only size new =
    let h' : Node = record { content = d; prev = o; next = next } in
    let q' : Gqueue = record q {
      nodes =
          put (put (put q.nodes q.queue_head (some h')) b (some (node y q.queue_head next'))) p
            none;
      size = q.size - 1;
    } in
    record {
      next = q';
      result =
          let apart : (b == q.queue_head) ≡ false = ground (arith, up, up') in
          rw (e, unlink, join, with_node, apart, at'') refl;
      holds = record {
        entries = (b, y) ∷ es;
        holds = refl;
        first = next;
        head = (d, o, ground (arith, up, up'));
        chain = (
          e,
          omega (arith, up, up'),
          next',
          ground (arith, up, up'),
          Chain-same q.nodes q'.nodes b next' es q.queue_tail
              (λ a above. ground (arith, above, up, up')) c,
        );
        only =
            Only-pop q.nodes q'.nodes q.queue_head p x ((b, y) ∷ es) (ground arith)
              (λ a apart other out. ground (arith, apart, other, out)) only;
        size = omega (arith, size);
        new = new;
      };
      handled = refl;
    }

-- The outcome of `easy_queue_pop` on a queue that holds these: an empty queue and a buffer that is
-- missing or too small are refused, with the length that is needed.
abbrev pub PopsAs : List (List ℕ) → Bool → ℕ → Gqueue → Option Popped → Type 0
PopsAs [] given buflen q r = r ≡ some (refused 0)
PopsAs (x ∷ xs) given buflen q r =
    if given
    then if ltb buflen (length x) then r ≡ some (refused (length x)) else Takes x xs q r
    else r ≡ some (refused (length x))

head_at :
    (d : List ℕ) (o first : Option Ptr) (p : Ptr) (q : Gqueue)
    → q.nodes q.queue_head ≡ some (record { content = d; prev = o; next = first })
    → first ≡ some p
    → q.nodes q.queue_head ≡ some (record { content = d; prev = o; next = some p })
head_at d o first p q at e = at ∙ ap (λ f. some (record { content = d; prev = o; next = f })) e

pop_entries :
    (es : List (Ptr × List ℕ)) (given : Bool) (buflen : ℕ) (d : List ℕ) (o first : Option Ptr)
    (q : Gqueue)
    → q.nodes q.queue_head ≡ some (record { content = d; prev = o; next = first })
    → Chain q.nodes q.queue_head first es q.queue_tail
    → Only q.nodes q.queue_head es
    → q.size ≡ length (contents es)
    → q.queue_tail < q.next_ptr
    → PopsAs (contents es) given buflen q (easy_queue_pop given buflen q)
pop_entries [] given buflen d o first q at (e, _) only size new = pop_empty given buflen _ q at e
pop_entries ((p, x) ∷ es) false buflen d o first q at (e, up, next, at', c) only size new =
    let held = head_at d o first p q at e in
    pop_first false buflen _ (node x q.queue_head next) p q held refl at'
pop_entries ((p, x) ∷ es) true buflen d o first q at (e, up, next, at', c) only size new =
    let held = head_at d o first p q at e in
    let run = pop_first true buflen _ (node x q.queue_head next) p q held refl at' in
    elim (Bool-cases (ltb buflen (length x))) [
      | inl small ↦ rw small (run ∙ rw small refl)
      | inr fits ↦
          let u = unlink-Takes p x d o next es q held up at' c only size new in
          rw fits record {
            next = u.next;
            result = run ∙ rw fits u.result;
            holds = u.holds;
            handled = u.handled;
          }
    ]

pub easy_queue_pop-PopsAs :
    (given : Bool) (buflen : ℕ) (xs : List (List ℕ)) (q : Gqueue)
    → IsQueue q xs
    → PopsAs xs given buflen q (easy_queue_pop given buflen q)
easy_queue_pop-PopsAs given buflen xs q v =
    let (d, o, at) = v.head in
    subst (λ l. PopsAs l given buflen q (easy_queue_pop given buflen q)) v.holds
      (pop_entries v.entries given buflen d o v.first q at v.chain v.only
        (v.size ∙ ap length (sym v.holds)) v.new)
