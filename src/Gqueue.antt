-- ===== src/Gqueue.antt =====
-- third/queue/Gqueue.c: a queue of byte strings as a doubly linked list with a head node.
pub mod Chain
pub mod Push
pub mod Pop
pub mod Last
pub mod Clear
pub mod Only
pub mod Runs
pub mod Freed
use udpboardcast.Base.{
  ℕ, zero, suc, ◌+◌, ◌-◌, Bool, true, false, List, [], ◌∷◌, Option, none, some, length, ltb, ◌==◌,
  if◌then◌else◌,
}
use udpboardcast.ClientLoop.{Ptr, put}

-- `struct node`; `none` is a null pointer, `content` is what `data` leads to, and
-- `datalen` is its length.
pub record Node : Type 0 where
  pub content : List ℕ
  pub prev : Option Ptr
  pub next : Option Ptr

-- `easy_queue_t`, the nodes in memory, the next address that `malloc` returns, and the data that
-- `user_handler` was called with, newest first.
pub record Gqueue : Type 0 where
  pub size : ℕ
  pub queue_head : Ptr
  pub queue_tail : Ptr
  pub nodes : Ptr → Option Node
  pub next_ptr : Ptr
  pub handled : List (List ℕ)

unfoldable pub with_node {ℓ} : {A : Type ℓ} → Ptr → Gqueue → (Node → Option A) → Option A
with_node p q f = elim (q.nodes p) [ none ↦ none | some n ↦ f n ]

unfoldable pub set_node : Ptr → Node → Gqueue → Gqueue
set_node p n q = record q { nodes = put q.nodes p (some n) }

-- `easy_queue_init`; `p` is what `malloc` returns for the head node.
unfoldable pub easy_queue_init : Ptr → Gqueue
easy_queue_init p = record {
  size = 0;
  queue_head = p;
  queue_tail = p;
  nodes = put (λ a. none) p (some (record { content = []; prev = none; next = none }));
  next_ptr = p + 1;
  handled = [];
}

-- `easy_queue_push`: `none` is an access to memory that holds no node.
unfoldable pub easy_queue_push : List ℕ → Gqueue → Option Gqueue
unfolding with_node set_node
easy_queue_push x q =
    let p = q.next_ptr in
    let q1 : Gqueue = record (set_node p (record { content = x; prev = none; next = none }) q) {
      next_ptr = p + 1;
    } in
    with_node q1.queue_tail q1 λ t.
      let q2 = set_node q1.queue_tail (record t { next = some p }) q1 in
      with_node p q2 λ n.
        let q3 = set_node p (record n { prev = some q2.queue_tail }) q2 in
        some (record q3 { queue_tail = p; size = q3.size + 1 })

-- What `easy_queue_pop` returns: -1 with `*buflen`, or 0 with the data.
pub data Popped : Type 0 where
  refused : ℕ → Popped
  popped : List ℕ → Gqueue → Popped

-- The node after the one that is taken out gets a new `prev`, or the head is the new tail.
unfoldable pub join : Option Ptr → Gqueue → Option Gqueue
unfolding with_node set_node
join none q = some (record q { queue_tail = q.queue_head })
join (some s) q = with_node s q λ n. some (set_node s (record n { prev = some q.queue_head }) q)

-- The node at `p` is taken out behind the head node `h`, and freed.
unfoldable pub unlink : Ptr → Node → Node → Gqueue → Option Popped
unfolding set_node join
unlink p h n q = elim (join n.next (set_node q.queue_head (record h { next = n.next }) q)) [
  | none ↦ none
  | some q' ↦
      some (popped n.content (record q' { nodes = put q'.nodes p none; size = q'.size - 1 }))
]

-- `easy_queue_pop`; `given` is that `buf` is not null, and `buflen` the value of `*buflen`.
unfoldable pub easy_queue_pop : Bool → ℕ → Gqueue → Option Popped
unfolding with_node unlink
easy_queue_pop given buflen q = with_node q.queue_head q λ h. elim h.next [
  | none ↦ some (refused 0)
  | some p ↦ with_node p q λ n.
      if given
      then if ltb buflen (length n.content)
        then some (refused (length n.content))
        else unlink p h n q
      else some (refused (length n.content))
]

abbrev pub moved : Node → ℕ → Gqueue → Gqueue
moved c size q = record q { size = size - 1; handled = c.content ∷ q.handled }

-- `assert(queue->size == 0)`.
abbrev pub emptied : Gqueue → Option Gqueue
emptied q = if q.size == 0 then some q else none

-- `easy_queue_clear`, its loop on fuel, with a `user_handler`, which each caller sets.
unfoldable pub easy_queue_clear : ℕ → Gqueue → Option Gqueue
unfolding with_node set_node
easy_queue_clear zero q = if q.queue_tail == q.queue_head then emptied q else none
easy_queue_clear (suc fuel) q =
    let cursor = q.queue_tail in
    let again : Node → Option Gqueue = λ c. elim c.prev [
      | none ↦ none
      | some p ↦ with_node p q λ t.
          let q1 = set_node p (record t { next = none }) (record q { queue_tail = p }) in
          easy_queue_clear fuel (moved c q.size (record q1 { nodes = put q1.nodes cursor none }))
    ] in
    if cursor == q.queue_head then emptied q else with_node cursor q again

unfoldable pub easy_queue_size : Gqueue → ℕ
easy_queue_size q = q.size

-- `easy_queue_uninit`: what is left in memory.
unfoldable pub easy_queue_uninit : Gqueue → Option (Ptr → Option Node)
unfolding with_node
easy_queue_uninit q = with_node q.queue_head q λ h. some (put q.nodes q.queue_head none)
