-- ===== src/ServerLoop/Full.antt =====
-- A request that comes while the pool's queue is full.
use udpboardcast.Base.{
  ℕ, zero, suc, ◌<◌, ◌≤◌, ◌≡◌, refl, sym, ap, subst, ◌∙◌, true, false, List, [], ◌∷◌, ◌++◌, none,
  length, drop, length-drop, length-append, drop-append, arith,
}
use udpboardcast.ThreadPool.{push_work, push_work-full}
use udpboardcast.ClientLoop.{Ptr}
use udpboardcast.ServerLoop.{ServerLoop, hangs}
use udpboardcast.ServerLoop.Life.{count, count-append}
use udpboardcast.ServerLoop.Requests.{retry_push, retried, server_handler_req}

-- The loop that tries again after a push that was refused never ends, however many jobs the threads
-- take meanwhile: it reads a result that it does not assign.
pub retry_push-refused :
    (fuel : ℕ) (pops : ℕ → ℕ) (p : Ptr) (queue : List Ptr)
    → retry_push fuel pops false p queue ≡ none
unfolding retry_push
retry_push-refused zero pops p queue = refl
retry_push-refused (suc fuel) pops p queue =
    retry_push-refused fuel pops p (push_work p (drop (pops fuel) queue)).1

one_room :
    (p : Ptr) (queue : List Ptr)
    → length queue ≡ 65
    → push_work p (drop 1 queue) ≡ (true, drop 1 queue ++ p ∷ [])
unfolding push_work
one_room p queue full = ground (arith, length-drop 1 queue, full)

-- Two rounds, before each of which a thread takes a job, push the same task twice.
retried-twice :
    (p : Ptr) (queue : List Ptr) → length queue ≡ 65 → 2 ≤ count p (retried 2 (λ k. 1) p queue)
unfolding retried
retried-twice p queue full =
    let next = drop 1 queue ++ p ∷ [] in
    let long : length next ≡ 65 =
      omega (arith, length-append (drop 1 queue) (p ∷ []), length-drop 1 queue, full) in
    let kept : drop 1 next ≡ drop 1 (drop 1 queue) ++ p ∷ [] =
      drop-append 1 (drop 1 queue) (p ∷ []) (omega (arith, length-drop 1 queue, full)) in
    let pushes : retried 2 (λ k. 1) p queue ≡ (drop 1 (drop 1 queue) ++ p ∷ []) ++ p ∷ [] =
      ap (λ r. (push_work p (drop 1 r.1)).1) (one_room p queue full)
      ∙ ap (λ r. r.1) (one_room p next long)
      ∙ ap (λ l. l ++ p ∷ []) kept in
    subst (λ l. 2 ≤ count p l) (sym pushes)
      (ground (
        arith,
        count-append p (drop 1 (drop 1 queue) ++ p ∷ []) (p ∷ []),
        count-append p (drop 1 (drop 1 queue)) (p ∷ []),
      ))

-- With more than 64 requests in the queue the next request makes the loop's thread hang: whatever
-- fuel its loop is given, and whatever the threads take from the queue, it does not end; and if
-- threads take two jobs from a queue of 65, the loop has pushed the same task twice.
pub server_handler_req-full :
    (stale conn_id task_id : ℕ) (content : List ℕ) (s : ServerLoop)
    → 64 < length s.queue
    → (server_handler_req stale conn_id task_id content s ≡ hangs)
      × ((fuel : ℕ) (pops : ℕ → ℕ)
          → retry_push fuel pops (push_work s.next_ptr s.queue).0 s.next_ptr s.queue ≡ none)
      × (length s.queue ≡ 65 → 2 ≤ count s.next_ptr (retried 2 (λ k. 1) s.next_ptr s.queue))
unfolding server_handler_req
server_handler_req-full stale conn_id task_id content s full =
    let refused = push_work-full s.next_ptr s.queue full in
    (
      rw refused,
      λ fuel pops. rw refused (retry_push-refused fuel pops s.next_ptr s.queue),
      λ all. retried-twice s.next_ptr s.queue all,
    )
