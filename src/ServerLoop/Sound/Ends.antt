-- ===== src/ServerLoop/Sound/Ends.antt =====
-- The wait for each response can still end, while the loop's handlers return.
use udpboardcast.Base.{ℕ, ◌+◌, ◌≤◌, ◌≡◌, refl, inl, inr, List, Option, some, leb, Bool-cases, arith}
use udpboardcast.ClientLoop.{Ptr, resp_type, Task}
use udpboardcast.ServerLoop.{ServerLoop}
use udpboardcast.ServerLoop.Requests.{worked}
use udpboardcast.ServerLoop.Async.{UvResults}
use udpboardcast.ServerLoop.Life.{count, lists}
use udpboardcast.ServerLoop.Steps.{started, Step, Steps, works, responds, written, stop, step}
use udpboardcast.ServerLoop.Responses.{resp_written-Woken}
use udpboardcast.ServerLoop.Sound.{Sound, Sound-Frame}
use udpboardcast.ServerLoop.Sound.Tasks.{Sound-Responds, Sound-Mailed}
use udpboardcast.ServerLoop.Sound.Reach.{Steps-Sound}

-- There is a run after which the waiter of the task at `p` has been woken once.
pub record CanEnd (cb : Option (List ℕ → List ℕ)) (p : Ptr) (s : ServerLoop) : Type 0 where
  pub next : ServerLoop
  pub run : Steps cb s next
  pub task : Task
  pub at : next.tasks p ≡ some task
  pub woken : task.notified ≡ 1

Steps-cons :
    (cb : Option (List ℕ → List ℕ)) (s s' s'' : ServerLoop)
    → Step cb s s'
    → Steps cb s' s''
    → Steps cb s s''
Steps-cons cb s s' s'' first stop = step stop first
Steps-cons cb s s' s'' first (step {s' = u} run last) = step (Steps-cons cb s s' u first run) last

after :
    (cb : Option (List ℕ → List ℕ)) (p : Ptr) (s s' : ServerLoop)
    → Step cb s s'
    → CanEnd cb p s'
    → CanEnd cb p s
after cb p s s' first e = record {
  next = e.next;
  run = Steps-cons cb s s' e.next first e.run;
  task = e.task;
  at = e.at;
  woken = e.woken;
}

from_writing :
    (cb : Option (List ℕ → List ℕ)) (p : Ptr) (t : Task) (s : ServerLoop)
    → Sound s
    → s.tasks p ≡ some t
    → 1 ≤ count p s.writing
    → CanEnd cb p s
from_writing cb p t s v at there =
    let w = resp_written-Woken p t 0 s v.life at there in
    record {
      next = w.next;
      run = step stop (written p t 0 at there w.result);
      task = record t { err = 0; notified = 1 };
      at = w.at;
      woken = refl;
    }

abbrev takes_all : UvResults
takes_all = record { written = 0; push_written = λ c. 0; stale = 0 }

from_mail :
    (cb : Option (List ℕ → List ℕ)) (p : Ptr) (t : Task) (s : ServerLoop)
    → Sound s
    → s.tasks p ≡ some t
    → t.task_type ≡ resp_type
    → 1 ≤ count p s.mail
    → CanEnd cb p s
from_mail cb p t s v at kind there =
    let r = Sound-Responds cb p t takes_all s v at kind there in
    let first : Step cb s r.next = responds p t takes_all at kind there r.result in
    elim (r.fate) [
      | inl (c, _, _, sending) ↦ after cb p s r.next first (
          from_writing cb p t r.next (Sound-Frame s r.next r.frame r.life v) sending.at
            sending.writing)
      | inr (e, _, failed, _) ↦ record {
        next = r.next;
        run = step stop first;
        task = record t { err = e; notified = 1 };
        at = failed;
        woken = refl;
      }
    ]

from_working :
    (cb : Option (List ℕ → List ℕ)) (p : Ptr) (t : Task) (s : ServerLoop)
    → Sound s
    → s.tasks p ≡ some t
    → t.task_type ≡ resp_type
    → 1 ≤ count p s.working
    → CanEnd cb p s
from_working cb p t s v at kind there =
    let m = Sound-Mailed cb p t s v at there in
    after cb p s m.next (works p there m.result) (
      from_mail cb p (record t { indata = worked cb t.indata }) m.next
        (Sound-Frame s m.next m.frame m.life v) m.at kind m.there)

-- From every state that a server reaches by handlers that return, so until it is closed or a request
-- finds more than 64 jobs waiting (`server_handler_req` then returns no more), if a thread of the pool has taken a
-- request, there is a run after which that thread's wait for the response has been ended once,
-- wherever the request's task is.
pub Steps-CanEnd :
    (cb : Option (List ℕ → List ℕ)) (p : Ptr) (t : Task) (s : ServerLoop)
    → Steps cb started s
    → s.tasks p ≡ some t
    → t.task_type ≡ resp_type
    → count p s.queue ≡ 0
    → CanEnd cb p s
Steps-CanEnd cb p t s run at kind taken =
    let v = Steps-Sound cb s run in
    let placed : lists p s + t.notified ≡ 1 = ground (arith, v.life.one p, at) in
    elim (Bool-cases (leb 1 (count p s.working))) [
      | inl busy ↦ from_working cb p t s v at kind (ground (arith, busy))
      | inr idle ↦ elim (Bool-cases (leb 1 (count p s.mail))) [
        | inl mailed ↦ from_mail cb p t s v at kind (ground (arith, mailed))
        | inr unmailed ↦ elim (Bool-cases (leb 1 (count p s.writing))) [
          | inl busy ↦ from_writing cb p t s v at (ground (arith, busy))
          | inr rest ↦ record {
            next = s;
            run = stop;
            task = t;
            at = at;
            woken = ground (arith, placed, taken, idle, unmailed, rest);
          }
        ]
      ]
    ]
