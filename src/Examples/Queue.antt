-- ===== src/Examples/Queue.antt =====
-- Calls of the linked queue, and a queue with two items.
use udpboardcast.Base.{◌≡◌, refl, List, [], ◌∷◌, some, true, arith}
use udpboardcast.Gqueue.{Gqueue, easy_queue_init}
use udpboardcast.Gqueue.Freed.{after, list_after, Frees, after-Frees}
use udpboardcast.Gqueue.Runs.{Op, push, pop, size, run, run_list, run-easy_queue_init}

abbrev calls : List Op
calls =
    push (1 ∷ 2 ∷ [])
    ∷ push (3 ∷ [])
    ∷ pop true 1
    ∷ pop true 8
    ∷ size
    ∷ pop true 8
    ∷ pop true 8
    ∷ []

run-easy_queue_init_example : run calls (easy_queue_init 50) ≡ some (run_list calls [])
run-easy_queue_init_example = run-easy_queue_init 50 calls

-- One item is left, and one has been taken.
abbrev leaves_one : List Op
leaves_one = push (1 ∷ 2 ∷ []) ∷ push (3 ∷ []) ∷ pop true 8 ∷ size ∷ []

after-Frees_example :
    (q : Gqueue) × (after leaves_one (easy_queue_init 50) ≡ some q)
    × (q.handled ≡ [])
    × Frees (list_after leaves_one []) 1 q
unfolding list_after
after-Frees_example = after-Frees 50 leaves_one 1 (omega arith)

-- What is left after these calls.
left_after : list_after leaves_one [] ≡ (3 ∷ []) ∷ []
unfolding list_after
left_after = refl
