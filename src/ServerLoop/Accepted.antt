-- ===== src/ServerLoop/Accepted.antt =====
-- A request that the pool takes, from the package to the loop's mail.
use udpboardcast.Base.{
  ℕ, ◌+◌, ◌≤◌, ◌≡◌, refl, ◌∙◌, inl, inr, true, false, List, [], ◌∷◌, ◌++◌, Option, none, some, ◌==◌,
  length, le→ltb, Bool-cases, arith, length-append,
}
use udpboardcast.ThreadPool.{push_work}
use udpboardcast.ClientLoop.{Ptr, Task, put}
use udpboardcast.ClientLoop.Invariant.{put_self, put_other}
use udpboardcast.ServerLoop.{ServerLoop, Outcome, ok, fault, with_task, sl_create_async, remove}
use udpboardcast.ServerLoop.Requests.{
  resp_task, server_handler_req, take_job, worked, svr_work_cb, svr_work_end,
}
use udpboardcast.ServerLoop.Rows.{Frame}
use udpboardcast.ServerLoop.Life.{count, Life, Held-placed, Held, Life-working, count-append}

-- The request is a new task in the queue.
pub record Queued (stale conn_id task_id : ℕ) (content : List ℕ) (s : ServerLoop) (r : Outcome)
    : Type 0 where
  pub next : ServerLoop
  pub result : r ≡ ok next
  pub life : Life next
  pub at : next.tasks s.next_ptr ≡ some (resp_task stale conn_id task_id content)
  pub queue : next.queue ≡ s.queue ++ s.next_ptr ∷ []
  pub others : (q : Ptr) → (q == s.next_ptr) ≡ false → next.tasks q ≡ s.tasks q
  pub frame : Frame s next

pub request_Held :
    (t : Task) (s : ServerLoop)
    → Life s
    → t.notified ≡ 0
    → Held s.next_ptr t
        (record s { tasks = put s.tasks s.next_ptr (some t); next_ptr = s.next_ptr + 1 })
request_Held t s v asleep =
    let p = s.next_ptr in
    let unused = v.fresh p (omega arith) in
    record {
      others = λ q other. rw (put_other s.tasks p (some t) q other) (v.one q);
      at = put_self s.tasks p t;
      idle = ground (arith, v.one p, unused);
      asleep = asleep;
      fresh = λ q new.
          let other : (q == p) ≡ false = ground arith in
          put_other s.tasks p (some t) q other ∙ v.fresh q (omega arith);
    }

count_single : (q p : Ptr) → (q == p) ≡ false → count q (p ∷ []) ≡ 0
count_single q p other = ground (arith, other)

count_own : (p : Ptr) → count p (p ∷ []) ≡ 1
count_own p = ground arith

pub request_lem :
    (stale conn_id task_id : ℕ) (content : List ℕ) (s : ServerLoop)
    → length s.queue ≤ 64
    → server_handler_req stale conn_id task_id content s
      ≡ ok (record s {
        tasks = put s.tasks s.next_ptr (some (resp_task stale conn_id task_id content));
        next_ptr = s.next_ptr + 1;
        queue = s.queue ++ s.next_ptr ∷ [];
      })
unfolding server_handler_req push_work
request_lem stale conn_id task_id content s room = rw (le→ltb 64 (length s.queue) room)

resp_task_asleep :
    (stale conn_id task_id : ℕ) (content : List ℕ)
    → (resp_task stale conn_id task_id content).notified ≡ 0
unfolding resp_task
resp_task_asleep stale conn_id task_id content = refl

pub work_lem :
    (cb : Option (List ℕ → List ℕ)) (p : Ptr) (t : Task) (s : ServerLoop)
    → s.tasks p ≡ some t
    → sl_create_async s ≡ true
    → svr_work_cb cb p s
      ≡ ok (record s {
        tasks = put s.tasks p (some (record t { indata = worked cb t.indata }));
        working = remove p s.working;
        mail = p ∷ s.mail;
      })
unfolding svr_work_cb with_task
work_lem cb p t s at up = ground (arith, at, up)

-- A request that comes while at most 64 others wait becomes a task of its own at the end of the
-- queue, with its data, its connection and its id; each task stays in one place, and all other tasks
-- stay as they were.
pub server_handler_req-Queued :
    (stale conn_id task_id : ℕ) (content : List ℕ) (s : ServerLoop)
    → Life s
    → length s.queue ≤ 64
    → Queued stale conn_id task_id content s (server_handler_req stale conn_id task_id content s)
server_handler_req-Queued stale conn_id task_id content s v room =
    let p = s.next_ptr in
    let t = resp_task stale conn_id task_id content in
    let s' : ServerLoop = record s { tasks = put s.tasks p (some t); next_ptr = p + 1 } in
    let h : Held p t s' = request_Held t s v (resp_task_asleep stale conn_id task_id content) in
    let next : ServerLoop = record s' { queue = s.queue ++ p ∷ [] } in
    record {
      next = next;
      result = request_lem stale conn_id task_id content s room;
      life =
          Held-placed p t t s' next h h.at (λ q other. refl) refl
            (λ q other. omega (arith, count-append q s.queue (p ∷ []), count_single q p other))
            (omega (arith, h.idle, h.asleep, count-append p s.queue (p ∷ []), count_own p));
      at = h.at;
      queue = refl;
      others = put_other s.tasks p (some t);
      frame = record {
        conns = refl;
        table = refl;
        ptr = omega arith;
        running = refl;
        inited = refl;
        short = λ h. omega (arith, room, length-append s.queue (p ∷ []));
      };
    }

take_from-Life :
    (queue : List Ptr) (s : ServerLoop)
    → Life (record s { queue = queue })
    → Life (take_job (record s { queue = queue }))
unfolding take_job
take_from-Life [] s v = v
take_from-Life (p ∷ queue) s v = record { one = λ q. ground (arith, v.one q); fresh = v.fresh }

-- A thread takes its next job.
pub take_job-Life : (s : ServerLoop) → Life s → Life (take_job s)
take_job-Life s v = take_from-Life s.queue s v

-- The job's callback has run, and its task is on the way to the loop.
pub record Mailed (cb : Option (List ℕ → List ℕ)) (p : Ptr) (t : Task) (s : ServerLoop)
    (r : Outcome) : Type 0 where
  pub next : ServerLoop
  pub result : r ≡ ok next
  pub life : Life next
  pub at : next.tasks p ≡ some (record t { indata = worked cb t.indata })
  pub there : 1 ≤ count p next.mail
  pub others : (q : Ptr) → (q == p) ≡ false → next.tasks q ≡ s.tasks q
  pub frame : Frame s next

-- When the callback of a job returns while the loop runs, the task has the callback's data and is in
-- the loop's mail; each task stays in one place, and all other tasks stay as they were.
pub svr_work_cb-Mailed :
    (cb : Option (List ℕ → List ℕ)) (p : Ptr) (t : Task) (s : ServerLoop)
    → Life s
    → s.tasks p ≡ some t
    → 1 ≤ count p s.working
    → sl_create_async s ≡ true
    → Mailed cb p t s (svr_work_cb cb p s)
svr_work_cb-Mailed cb p t s v at there up =
    let t' : Task = record t { indata = worked cb t.indata } in
    let s' : ServerLoop = record s { working = remove p s.working } in
    let h = Life-working p t s v at there in
    let next : ServerLoop = record s' { tasks = put s.tasks p (some t'); mail = p ∷ s.mail } in
    record {
      next = next;
      result = work_lem cb p t s at up;
      life =
          Held-placed p t t' s' next h (put_self s.tasks p t') (put_other s.tasks p (some t')) refl
            (λ q other. ground (arith, other)) (ground (arith, h.idle, h.asleep));
      at = put_self s.tasks p t';
      there = ground arith;
      others = put_other s.tasks p (some t');
      frame = record {
        conns = refl;
        table = refl;
        ptr = omega arith;
        running = refl;
        inited = refl;
        short = λ h. h;
      };
    }

-- A callback that returns after the server has stopped runs into a null handle.
pub svr_work_cb-stopped :
    (cb : Option (List ℕ → List ℕ)) (p : Ptr) (s : ServerLoop)
    → s.running ≡ false
    → svr_work_cb cb p s ≡ fault
unfolding svr_work_cb with_task sl_create_async
svr_work_cb-stopped cb p s stopped = ground (arith, stopped)

-- The waiter that was woken frees its task.
pub svr_work_end-Life :
    (p : Ptr) (t : Task) (s : ServerLoop)
    → Life s
    → s.tasks p ≡ some t
    → t.notified ≡ 1
    → Life (svr_work_end p s)
unfolding svr_work_end
svr_work_end-Life p t s v at woken = record {
  one = λ q. elim (Bool-cases (q == p)) [
    | inl same ↦ ground (arith, same, v.one p, at, woken)
    | inr other ↦ rw (put_other s.tasks p none q other) (v.one q)
  ];
  fresh = λ q new. ground (arith, v.fresh q new);
}
