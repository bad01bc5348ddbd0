-- ===== src/ServerLoop/Sound/Tasks.antt =====
-- The handlers of the server's tasks keep the loop sound.
use udpboardcast.Base.{
  Bool, ℕ, ◌+◌, ◌≤◌, ◌≡◌, refl, sym, subst, inl, inr, List, [], ◌∷◌, Option, none, some, Bool-cases,
  arith,
}
use udpboardcast.ClientLoop.{Ptr, push_type, resp_type, Task, put}
use udpboardcast.ServerLoop.{ServerLoop, sl_create_async, remove}
use udpboardcast.ServerLoop.Requests.{take_job, svr_work_cb, svr_work_end}
use udpboardcast.ServerLoop.Async.{UvResults, resp_written, push_written, async_cb}
use udpboardcast.ServerLoop.Calls.{
  Call, returned, submitted, caller_task, send_async, async_push, ssn_push, call_returns,
}
use udpboardcast.ServerLoop.Life.{count, Life, Held-placed}
use udpboardcast.ServerLoop.Rows.{Frame, Frame-tasks, Rows-Live}
use udpboardcast.ServerLoop.Responses.{Responds, Known, async_cb-Responds, resp_written-Woken}
use udpboardcast.ServerLoop.Push.{Pushes, async_cb-Pushes}
use udpboardcast.ServerLoop.Accepted.{
  Mailed, request_Held, svr_work_cb-Mailed, take_job-Life, svr_work_end-Life,
}
use udpboardcast.ServerLoop.Sound.{Sound, Holds, Sound-Frame}

pub Sound-Known : (s : ServerLoop) → Sound s → Known s
Sound-Known s v id c there = let (x, at, _) = v.rows.rows id c there in (x, at)

pub Sound-Responds :
    (cb : Option (List ℕ → List ℕ)) (p : Ptr) (t : Task) (uv : UvResults) (s : ServerLoop)
    → Sound s
    → s.tasks p ≡ some t
    → t.task_type ≡ resp_type
    → 1 ≤ count p s.mail
    → Responds p t uv.written s (async_cb cb p uv s)
Sound-Responds cb p t uv s v at kind there =
    async_cb-Responds cb p t uv s v.life (Sound-Known s v) v.running v.inited at kind there

pub Sound-Pushes :
    (cb : Option (List ℕ → List ℕ)) (p : Ptr) (t : Task) (uv : UvResults) (s : ServerLoop)
    → Sound s
    → s.tasks p ≡ some t
    → t.task_type ≡ push_type
    → 1 ≤ count p s.mail
    → Pushes p t uv s (async_cb cb p uv s)
Sound-Pushes cb p t uv s v at kind there =
    async_cb-Pushes cb p t uv s v.life (Rows-Live s v.rows) v.running v.inited at kind there

pub Sound-Mailed :
    (cb : Option (List ℕ → List ℕ)) (p : Ptr) (t : Task) (s : ServerLoop)
    → Sound s
    → s.tasks p ≡ some t
    → 1 ≤ count p s.working
    → Mailed cb p t s (svr_work_cb cb p s)
unfolding sl_create_async
Sound-Mailed cb p t s v at there =
    svr_work_cb-Mailed cb p t s v.life at there (ground (arith, v.running, v.inited))

-- The tasks change.
same_rest : (s : ServerLoop) (tasks : Ptr → Option Task) → Frame s (record s { tasks = tasks })
same_rest s tasks = Frame-tasks s (record s { tasks = tasks }) refl

take_from :
    (queue : List Ptr) (s : ServerLoop)
    → Frame (record s { queue = queue }) (take_job (record s { queue = queue }))
unfolding take_job
take_from [] s = record {
  conns = refl;
  table = refl;
  ptr = omega arith;
  running = refl;
  inited = refl;
  short = λ h. h;
}
take_from (p ∷ queue) s = record {
  conns = refl;
  table = refl;
  ptr = omega arith;
  running = refl;
  inited = refl;
  short = λ h. omega (arith, h);
}

pub take_job-Sound : (s : ServerLoop) → Sound s → Sound (take_job s)
take_job-Sound s v = Sound-Frame s (take_job s) (take_from s.queue s) (take_job-Life s v.life) v

pub svr_work_end-Sound :
    (p : Ptr) (t : Task) (s : ServerLoop)
    → s.tasks p ≡ some t
    → t.notified ≡ 1
    → Sound s
    → Sound (svr_work_end p s)
unfolding svr_work_end
svr_work_end-Sound p t s at woken v =
    Sound-Frame s (svr_work_end p s) (same_rest s (put s.tasks p none))
      (svr_work_end-Life p t s v.life at woken) v

pub call_returns-Sound :
    (p : Ptr) (t : Task) (s : ServerLoop)
    → s.tasks p ≡ some t
    → t.notified ≡ 1
    → Sound s
    → Sound (call_returns p t s).1
unfolding call_returns svr_work_end
call_returns-Sound p t s at woken v = svr_work_end-Sound p t s at woken v

pub resp_written-Sound :
    (p : Ptr) (t : Task) (status : ℕ) (s : ServerLoop)
    → s.tasks p ≡ some t
    → 1 ≤ count p s.writing
    → Sound s
    → Holds Sound (resp_written p status s)
resp_written-Sound p t status s at there v =
    let w = resp_written-Woken p t status s v.life at there in
    let f = Frame-tasks (record s { writing = remove p s.writing }) w.next w.same in
    let frame : Frame s w.next = record {
      conns = f.conns;
      table = f.table;
      ptr = f.ptr;
      running = f.running;
      inited = f.inited;
      short = f.short;
    } in
    subst (Holds Sound) (sym w.result) (Sound-Frame s w.next frame w.life v)

pub push_written-Sound : (s : ServerLoop) → Sound s → Sound (push_written s)
unfolding push_written
push_written-Sound s v = record {
  life = record { one = v.life.one; fresh = v.life.fresh };
  rows = record { rows = v.rows.rows; keys = v.rows.keys; fresh = v.rows.fresh };
  running = v.running;
  inited = v.inited;
  short = v.short;
}

pub dozing-Sound : (b : Bool) (s : ServerLoop) → Sound s → Sound (record s { dozing = b })
dozing-Sound b s v = record {
  life = record { one = v.life.one; fresh = v.life.fresh };
  rows = record { rows = v.rows.rows; keys = v.rows.keys; fresh = v.rows.fresh };
  running = v.running;
  inited = v.inited;
  short = v.short;
}

send_async-Sound : (t : Task) (s : ServerLoop) → t.notified ≡ 0 → Sound s → Sound (send_async t s)
unfolding send_async
send_async-Sound t s asleep v =
    let p = s.next_ptr in
    let s' : ServerLoop = record s { tasks = put s.tasks p (some t); next_ptr = p + 1 } in
    let h = request_Held t s v.life asleep in
    let life : Life (send_async t s) =
      Held-placed p t t s' (send_async t s) h h.at (λ q other. refl) refl
        (λ q other. ground (arith, other)) (ground (arith, h.idle, h.asleep)) in
    let frame : Frame s (send_async t s) = record {
      conns = refl;
      table = refl;
      ptr = omega arith;
      running = refl;
      inited = refl;
      short = λ h. h;
    } in
    Sound-Frame s (send_async t s) frame life v

-- The state in which the loop gets a task, if there is one.
abbrev OnSubmit : (ServerLoop → Type 0) → Call → Type 0
OnSubmit P (returned e) = Unit
OnSubmit P (submitted p s) = P s

async_push-Sound :
    (stale : ℕ) (indata : List ℕ) (s : ServerLoop)
    → Sound s
    → OnSubmit Sound (async_push stale indata s)
unfolding async_push caller_task
async_push-Sound stale indata s v = elim (Bool-cases (sl_create_async s)) [
  | inl up ↦ rw up (send_async-Sound (caller_task push_type stale indata) s refl v)
  | inr down ↦ rw down tt
]

call-Sound :
    (stale : ℕ) (indata : Option (List ℕ)) (s : ServerLoop)
    → Sound s
    → OnSubmit Sound (ssn_push stale indata s)
unfolding ssn_push
call-Sound stale none s v = tt
call-Sound stale (some []) s v = tt
call-Sound stale (some (b ∷ bs)) s v = async_push-Sound stale (b ∷ bs) s v

pub ssn_push-Sound :
    (stale : ℕ) (indata : Option (List ℕ)) (p : Ptr) (s s' : ServerLoop)
    → ssn_push stale indata s ≡ submitted p s'
    → Sound s
    → Sound s'
ssn_push-Sound stale indata p s s' e v = subst (OnSubmit Sound) e (call-Sound stale indata s v)
