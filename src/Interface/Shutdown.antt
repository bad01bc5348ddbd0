-- ===== src/Interface/Shutdown.antt =====
-- A call of `ssn_shutdown_client` from its start to its end.
use udpboardcast.Base.{ℕ, ◌≡◌, ◌≢◌, refl, true, false, some, none, All, arith}
use udpboardcast.Table.{values, IsMap}
use udpboardcast.ClientLoop.{Ptr, Task, ClientLoop, ok, set_task}
use udpboardcast.ClientLoop.Async.{UvResults, async_cb}
use udpboardcast.ClientLoop.Invariant.{Inv, put_self}
use udpboardcast.ClientLoop.Finish.{woken}
use udpboardcast.ClientLoop.Keeps.{Present}
use udpboardcast.ClientLoop.Handles.{Armed, Armed-after}
use udpboardcast.ClientLoop.Closing.{EndsLoop, async_cb-EndsLoop}
use udpboardcast.Interface.{submitted, cl_create_async}
use udpboardcast.Interface.Calls.{Inv-new_task, create_async-ready}
use udpboardcast.Interface.Startup.{close_task, async_close_client, ssn_shutdown_client}

-- The loop has ended and its caller is awake, but the call returns what the memory of its task held
-- before, and leaves the client as it is unless that was 0.
pub record Leaves (p : Ptr) (stale counter : ℕ) (uv : UvResults) (s : ClientLoop) : Type 0 where
  pub call :
      async_close_client p stale counter s ≡ submitted counter (set_task p (close_task stale) s)
  pub next : ClientLoop
  pub ends : async_cb p uv (set_task p (close_task stale) s) ≡ ok next
  pub stopped : next.running ≡ false
  pub task : Task
  pub at : next.tasks p ≡ some task
  pub awake : task.notified ≡ 1
  pub code : (ssn_shutdown_client task next).0 ≡ stale
  pub left : stale ≢ 0 → (ssn_shutdown_client task next).1 ≡ next

call_lem :
    (p : Ptr) (stale counter : ℕ) (s : ClientLoop)
    → cl_create_async s ≡ true
    → async_close_client p stale counter s ≡ submitted counter (set_task p (close_task stale) s)
unfolding async_close_client
call_lem p stale counter s up = rw up refl

code_lem : (t : Task) (s : ClientLoop) → (ssn_shutdown_client t s).0 ≡ t.err
unfolding ssn_shutdown_client
code_lem t s = ground arith

left_lem : (t : Task) (s : ClientLoop) → t.err ≢ 0 → (ssn_shutdown_client t s).1 ≡ s
unfolding ssn_shutdown_client
left_lem t s wrong = ground (arith, wrong)

ending :
    (p : Ptr) (stale : ℕ) (uv : UvResults) (s : ClientLoop)
    → Inv s
    → s.tasks p ≡ none
    → IsMap s.task_table
    → All (Present s.conns) (values s.conn_table)
    → All (Armed s) (values s.timer_table)
    → cl_create_async s ≡ true
    → EndsLoop p
        (close_task stale)
        (set_task p (close_task stale) s)
        (async_cb p uv (set_task p (close_task stale) s))
unfolding set_task close_task
ending p stale uv s v free order present armed up =
    let (running, ready) = create_async-ready s up in
    async_cb-EndsLoop p (close_task stale) uv (set_task p (close_task stale) s)
      (Inv-new_task p (close_task stale) s v free refl) order present
      (Armed-after (values s.timer_table) s (set_task p (close_task stale) s)
        (λ c x at. (x, at, (λ e. e), (λ e. e))) (λ q td at. (td, at, refl)) armed)
      running ready (put_self s.tasks p (close_task stale)) refl refl
      (λ id there. let w = v.waiting id p there in cc (w.at, free))

-- When a running client is shut down, its loop ends and the caller is woken, but `ssn_shutdown_client`
-- returns whatever the memory of its task held before, and if that is not 0, the client is not taken
-- apart.
pub ssn_shutdown_client-Leaves :
    (p : Ptr) (stale counter : ℕ) (uv : UvResults) (s : ClientLoop)
    → Inv s
    → s.tasks p ≡ none
    → IsMap s.task_table
    → All (Present s.conns) (values s.conn_table)
    → All (Armed s) (values s.timer_table)
    → cl_create_async s ≡ true
    → Leaves p stale counter uv s
unfolding close_task
ssn_shutdown_client-Leaves p stale counter uv s v free order present armed up =
    let e = ending p stale uv s v free order present armed up in
    let t = woken (close_task stale) in
    record {
      call = call_lem p stale counter s up;
      next = e.next;
      ends = e.result;
      stopped = e.stopped;
      task = t;
      at = e.caller;
      awake = refl;
      code = code_lem t e.next;
      left = left_lem t e.next;
    }
