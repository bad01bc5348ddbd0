-- ===== src/Interface/Calls.antt =====
-- A call of `ssn_send` or `ssn_connect`, up to the loop's step on its task.
use Prim.Native.String.{String}
use udpboardcast.Base.{
  ℕ, ◌≡◌, ◌≢◌, refl, ◌⊎◌, inl, inr, Bool, true, false, List, [], ◌∷◌, Option, none, some, ◌==◌,
  ◌&&◌, if◌then◌else◌, arith, Bool-cases, Option-cases,
}
use udpboardcast.Table.{find}
use udpboardcast.GenId.{apply_task_id}
use udpboardcast.Errors.{err_param, err_not_ready, err_conn_not_exist, err_conn_already_exist}
use udpboardcast.ClientLoop.{Ptr, Task, ClientLoop, set_task, rw_type, connect_type}
use udpboardcast.ClientLoop.Async.{UvResults, async_cb}
use udpboardcast.ClientLoop.Invariant.{Inv, put_self}
use udpboardcast.ClientLoop.Submit.{Accepts, submit_error, async_cb-Accepts}
use udpboardcast.Interface.{
  Call, returned, submitted, cl_conn_valid, cl_create_async, rw_task, conn_task, async_send,
  ssn_send, ssn_connect_is_exist, async_conn, ssn_connect,
}

-- A task at a new address keeps the invariant.
pub Inv-new_task :
    (p : Ptr) (t : Task) (s : ClientLoop)
    → Inv s
    → s.tasks p ≡ none
    → t.notified ≡ 0
    → Inv (set_task p t s)
unfolding set_task
Inv-new_task p t s v free asleep = record {
  waiting = λ id q there.
      let w = v.waiting id q there in
      record {
        task = w.task;
        at = ground (arith, w.at, free);
        own_id = w.own_id;
        asleep = w.asleep;
      };
  once = λ q u there. elim (Bool-cases (q == p)) [
    | inl same ↦ ground (arith, same, there, asleep)
    | inr other ↦ ground (arith, other, there, v.once q u)
  ];
  ticking = v.ticking;
}

-- The task is at `p`, and the loop takes it, with what stands in its way.
abbrev pub Hands : Ptr → Task → UvResults → ClientLoop → Call → Type 0
Hands p t uv s r =
    (counter : ℕ) × (r ≡ submitted counter (set_task p t s))
    × Accepts p t (submit_error t uv (set_task p t s)) (set_task p t s)
        (async_cb p uv (set_task p t s))

-- A call returns at once with this code if it is not 0, and hands over its task if it is.
abbrev pub Answers : ℕ → Ptr → Task → UvResults → ClientLoop → Call → Type 0
Answers e p t uv s r = ((e ≢ 0) × (r ≡ returned e)) ⊎ ((e ≡ 0) × Hands p t uv s r)

-- What a call meets of the loop: it does not run.
unfoldable pub loop_error : ClientLoop → ℕ
loop_error s = if s.running && s.inited then 0 else err_not_ready

-- What a request meets: its connection is unknown, or the loop does not run.
unfoldable pub send_error : ℕ → ClientLoop → ℕ
unfolding loop_error
send_error conn_id s = elim (find conn_id s.conn_table) [
  | none ↦ err_conn_not_exist
  | some _ ↦ loop_error s
]

pub create_async-ready :
    (s : ClientLoop) → cl_create_async s ≡ true → (s.running ≡ true) × (s.inited ≡ true)
unfolding cl_create_async
create_async-ready s h = (ground (arith, h), ground (arith, h))

new_task-Accepts :
    (p : Ptr) (t : Task) (uv : UvResults) (s : ClientLoop)
    → Inv s
    → s.tasks p ≡ none
    → t.notified ≡ 0
    → (t.task_type ≡ rw_type) ⊎ (t.task_type ≡ connect_type)
    → cl_create_async s ≡ true
    → Accepts p t
        (submit_error t uv (set_task p t s))
        (set_task p t s)
        (async_cb p uv (set_task p t s))
unfolding set_task
new_task-Accepts p t uv s v free asleep kind ready_now =
    let (running, ready) = create_async-ready s ready_now in
    async_cb-Accepts p t uv (set_task p t s) (Inv-new_task p t s v free asleep) running ready
      (put_self s.tasks p t) asleep kind

async_conn-Answers :
    (p : Ptr) (stale counter : ℕ) (ip : String) (timeout : ℕ) (uv : UvResults) (s : ClientLoop)
    → Inv s
    → s.tasks p ≡ none
    → Answers
        (loop_error s)
        p
        (conn_task stale counter ip timeout)
        uv
        s
        (async_conn p stale counter ip timeout s)
unfolding async_conn conn_task loop_error cl_create_async
async_conn-Answers p stale counter ip timeout uv s v free = elim (Bool-cases (cl_create_async s)) [
  | inl e ↦ inr (
    ground (arith, e),
    (
      (apply_task_id counter).1,
      ground (arith, e),
      new_task-Accepts p _ uv s v free refl (inr refl) e,
    ),
  )
  | inr e ↦ inl (ground (arith, e), ground (arith, e))
]

async_send-Answers :
    (p : Ptr) (stale counter conn_id : ℕ) (indata : List ℕ) (timeout : ℕ) (uv : UvResults)
    (s : ClientLoop)
    → Inv s
    → s.tasks p ≡ none
    → Answers
        (send_error conn_id s)
        p
        (rw_task stale counter conn_id indata timeout)
        uv
        s
        (async_send p stale counter conn_id indata timeout s)
unfolding async_send rw_task send_error loop_error cl_create_async cl_conn_valid
async_send-Answers p stale counter conn_id indata timeout uv s v free =
    elim (Option-cases (find conn_id s.conn_table)) [
      | inr (c, known) ↦ elim (Bool-cases (cl_create_async s)) [
        | inl e ↦ inr (
          ground (arith, known, e),
          (
            (apply_task_id counter).1,
            ground (arith, known, e),
            new_task-Accepts p _ uv s v free refl (inl refl) e,
          ),
        )
        | inr e ↦ inl (ground (arith, known, e), ground (arith, known, e))
      ]
      | inl unknown ↦ inl (ground (arith, unknown), ground (arith, unknown))
    ]

-- The data of a request and the places for its answer are given.
unfoldable pub is_given : Option (List ℕ) → Bool → Bool
is_given none given = false
is_given (some []) given = false
is_given (some (b ∷ bs)) given = given

-- A call of `ssn_send` returns ERR_PARAM exactly if there is no data or no place for the answer,
-- else ERR_CONN_NOT_EXIST exactly if its connection is not in the table, else ERR_NOT_READY exactly
-- if the loop does not run. Otherwise it hands the loop the task of the request, and `async_cb` on
-- that task does not fault: the task waits exactly if nothing stands in its way, and else its caller
-- has been woken once with that error.
pub ssn_send-Answers :
    (p : Ptr) (stale counter conn_id : ℕ) (indata : Option (List ℕ)) (given : Bool) (timeout : ℕ)
    (uv : UvResults) (s : ClientLoop)
    → Inv s
    → s.tasks p ≡ none
    → ((is_given indata given ≡ false)
        × (ssn_send p stale counter conn_id indata given timeout s ≡ returned err_param))
      ⊎ ((is_given indata given ≡ true)
          × (bytes : List ℕ) × (indata ≡ some bytes)
          × Answers
              (send_error conn_id s)
              p
              (rw_task stale counter conn_id bytes timeout)
              uv
              s
              (ssn_send p stale counter conn_id indata given timeout s))
unfolding ssn_send is_given
ssn_send-Answers p stale counter conn_id none given timeout uv s v free = inl (refl, refl)
ssn_send-Answers p stale counter conn_id (some []) given timeout uv s v free = inl (refl, refl)
ssn_send-Answers p stale counter conn_id (some (b ∷ bs)) true timeout uv s v free =
    inr (refl, _, refl, async_send-Answers p stale counter conn_id (b ∷ bs) timeout uv s v free)
ssn_send-Answers p stale counter conn_id (some (b ∷ bs)) false timeout uv s v free =
    inl (refl, refl)

-- What a connection meets: there is one to that ip, or the loop does not run.
unfoldable pub conn_error : String → ClientLoop → ℕ
unfolding loop_error ssn_connect_is_exist
conn_error ip s = if ssn_connect_is_exist ip s then err_conn_already_exist else loop_error s

-- A call of `ssn_connect` returns ERR_CONN_ALREADY_EXIST if there is a connection to that ip, else
-- ERR_NOT_READY if the loop does not run. Otherwise it hands the loop the task of the connection,
-- and `async_cb` on that task does not fault: the task waits exactly if nothing stands in its way,
-- and else its caller has been woken once with that error.
pub ssn_connect-Answers :
    (p : Ptr) (stale counter : ℕ) (ip : String) (timeout : ℕ) (uv : UvResults) (s : ClientLoop)
    → Inv s
    → s.tasks p ≡ none
    → Answers
        (conn_error ip s)
        p
        (conn_task stale counter ip timeout)
        uv
        s
        (ssn_connect p stale counter (some ip) timeout s)
unfolding ssn_connect conn_error
ssn_connect-Answers p stale counter ip timeout uv s v free =
    elim (Bool-cases (ssn_connect_is_exist ip s)) [
      | inl e ↦ inl (ground (arith, e), rw e refl)
      | inr e ↦ rw e (async_conn-Answers p stale counter ip timeout uv s v free)
    ]
