-- ===== src/Gqueue/Runs.antt =====
-- Calls of the queue in any order, against the list of what it holds.
use udpboardcast.Base.{
  ℕ, ◌≡◌, refl, ap, ◌∙◌, inl, inr, Bool, true, false, List, [], ◌∷◌, ◌++◌, Option, none, some, ltb,
  if◌then◌else◌, Bool-cases, length, arith,
}
use udpboardcast.ClientLoop.{Ptr}
use udpboardcast.ClientLoop.Invariant.{put_self}
use udpboardcast.Gqueue.{
  Gqueue, refused, popped, easy_queue_init, easy_queue_push, easy_queue_pop, easy_queue_size,
}
use udpboardcast.Gqueue.Chain.{IsQueue}
use udpboardcast.Gqueue.Push.{easy_queue_push-Pushed}
use udpboardcast.Gqueue.Pop.{easy_queue_pop-PopsAs}

-- A call of the queue, and what a call returns.
pub data Op : Type 0 where
  push : List ℕ → Op
  pop : Bool → ℕ → Op
  size : Op

pub data Reply : Type 0 where
  pushed : Reply
  taken : List ℕ → Reply
  needs : ℕ → Reply
  has : ℕ → Reply

abbrev reply : Reply → Option (List Reply) → Option (List Reply)
reply r none = none
reply r (some rs) = some (r ∷ rs)

-- The calls on the linked list; `none` is an access to memory that holds no node.
unfoldable pub run : List Op → Gqueue → Option (List Reply)
unfolding easy_queue_push easy_queue_pop easy_queue_size
run [] q = some []
run (push x ∷ ops) q = elim (easy_queue_push x q) [
  | none ↦ none
  | some q' ↦ reply pushed (run ops q')
]
run (pop given buflen ∷ ops) q = elim (easy_queue_pop given buflen q) [
  | none ↦ none
  | some (refused n) ↦ reply (needs n) (run ops q)
  | some (popped x q') ↦ reply (taken x) (run ops q')
]
run (size ∷ ops) q = reply (has (easy_queue_size q)) (run ops q)

-- The same calls on the list of what the queue holds.
unfoldable pub run_list : List Op → List (List ℕ) → List Reply
run_list [] xs = []
run_list (push x ∷ ops) xs = pushed ∷ run_list ops (xs ++ x ∷ [])
run_list (pop given buflen ∷ ops) [] = needs 0 ∷ run_list ops []
run_list (pop given buflen ∷ ops) (x ∷ xs) =
    let refuses = needs (length x) ∷ run_list ops (x ∷ xs) in
    let takes = taken x ∷ run_list ops xs in
    if given then if ltb buflen (length x) then refuses else takes else refuses
run_list (size ∷ ops) xs = has (length xs) ∷ run_list ops xs

pub easy_queue_init-IsQueue : (p : Ptr) → IsQueue (easy_queue_init p) []
unfolding easy_queue_init
easy_queue_init-IsQueue p = record {
  entries = [];
  holds = refl;
  first = none;
  head = ([], none, put_self (λ a. none) p _);
  chain = (refl, refl);
  only = λ a other apart. ground (arith, other);
  size = refl;
  new = omega arith;
}

pub when : (A B : Type 0) (b : Bool) → b ≡ true → (if b then A else B) → A
when A B true e h = h
when A B false e h = cc e

pub unless : (A B : Type 0) (b : Bool) → b ≡ false → (if b then A else B) → B
unless A B true e h = cc e
unless A B false e h = h

run-IsQueue :
    (ops : List Op) (xs : List (List ℕ)) (q : Gqueue)
    → IsQueue q xs
    → run ops q ≡ some (run_list ops xs)
unfolding run run_list easy_queue_size
run-IsQueue [] xs q v = refl
run-IsQueue (push x ∷ ops) xs q v =
    let p = easy_queue_push-Pushed x xs q v in
    rw (p.result, run) (ap (reply pushed) (run-IsQueue ops (xs ++ x ∷ []) p.next p.holds))
run-IsQueue (pop given buflen ∷ ops) [] q v =
    rw (easy_queue_pop-PopsAs given buflen [] q v, run)
      (ap (reply (needs 0)) (run-IsQueue ops [] q v))
run-IsQueue (pop false buflen ∷ ops) (x ∷ xs) q v =
    rw (easy_queue_pop-PopsAs false buflen (x ∷ xs) q v, run)
      (ap (reply (needs (length x))) (run-IsQueue ops (x ∷ xs) q v))
run-IsQueue (pop true buflen ∷ ops) (x ∷ xs) q v =
    let outcome = easy_queue_pop-PopsAs true buflen (x ∷ xs) q v in
    elim (Bool-cases (ltb buflen (length x))) [
      | inl small ↦
          rw (when _ _ (ltb buflen (length x)) small outcome, run, small)
            (ap (reply (needs (length x))) (run-IsQueue ops (x ∷ xs) q v))
      | inr fits ↦
          let t = unless _ _ (ltb buflen (length x)) fits outcome in
          rw (t.result, run, fits) (ap (reply (taken x)) (run-IsQueue ops xs t.next t.holds))
    ]
run-IsQueue (size ∷ ops) xs q v =
    ap (λ n. reply (has n) (run ops q)) v.size
    ∙ ap (reply (has (length xs))) (run-IsQueue ops xs q v)

-- From a new queue on, any sequence of calls returns what it returns on the list of what the queue
-- holds, added to at the end and taken from at the front, and no call touches memory that holds no
-- node of the queue.
pub run-easy_queue_init :
    (p : Ptr) (ops : List Op) → run ops (easy_queue_init p) ≡ some (run_list ops [])
run-easy_queue_init p ops = run-IsQueue ops [] (easy_queue_init p) (easy_queue_init-IsQueue p)
