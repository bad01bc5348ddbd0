-- ===== src/ServerLoop/Responses.antt =====
-- The response to a request: `async_cb` and `write_cb` with a `RESP` task.
use udpboardcast.Base.{
  ℕ, ◌≤◌, ◌≡◌, ◌≢◌, refl, ap, ◌∙◌, ◌⊎◌, inl, inr, true, false, List, ◌∷◌, Option, none, some, ◌==◌,
  if◌then◌else◌, Bool-cases, Option-cases, arith,
}
use udpboardcast.Table.{find}
use udpboardcast.Proto.{pkg_type_common, proto_build_package}
use udpboardcast.Errors.{err_conn_not_exist}
use udpboardcast.ClientLoop.{Ptr, resp_type, Task, Conn}
use udpboardcast.ServerLoop.{
  ServerLoop, Outcome, ok, with_task, with_conn, sl_conn_find, remove, fail_task,
}
use udpboardcast.ServerLoop.Async.{
  UvResults, task_pkg, uv_write, respond, send_response, resp_written, run_task, async_cb,
}
use udpboardcast.ServerLoop.Rows.{Frame, Frame-tasks}
use udpboardcast.ServerLoop.Life.{
  count, Life, Held, Held-placed, Woken, fail_task-Woken, Life-mail, Life-writing,
}

-- Every connection of the table is in memory.
abbrev pub Known : ServerLoop → Type 0
Known s = (id c : ℕ) → find id s.conn_table ≡ some c → (x : Conn) × (s.conns c ≡ some x)

-- The response was handed to libuv for the connection at `c`, and waits for `write_cb`.
pub record Sending (p : Ptr) (t : Task) (c : Ptr) (s next : ServerLoop) : Type 0 where
  pub sent : next.sent ≡ (c, proto_build_package t.indata pkg_type_common t.task_id) ∷ s.sent
  pub at : next.tasks p ≡ some t
  pub writing : 1 ≤ count p next.writing

-- What becomes of a response task when `uv_write` returns `ret`: the connection is gone, the write
-- fails, or the response is handed to libuv.
abbrev pub Fate : Ptr → Task → ℕ → ServerLoop → ServerLoop → Type 0
Fate p t ret s next =
    ((c : Ptr) × (find t.conn_id s.conn_table ≡ some c) × (ret ≡ 0) × Sending p t c s next)
    ⊎ ((e : ℕ) × (((find t.conn_id s.conn_table ≡ none) × (e ≡ err_conn_not_exist))
          ⊎ ((c : Ptr) × (find t.conn_id s.conn_table ≡ some c) × (ret ≢ 0) × (e ≡ ret)))
        × (next.tasks p ≡ some (record t { err = e; notified = 1 }))
        × (next.sent ≡ s.sent))

-- What a response task comes to: it is sent to its connection, or its waiter is woken with the error
-- that stands in its way and nothing is sent.
pub record Responds (p : Ptr) (t : Task) (ret : ℕ) (s : ServerLoop) (r : Outcome) : Type 0 where
  pub next : ServerLoop
  pub result : r ≡ ok next
  pub life : Life next
  pub fate : Fate p t ret s next
  pub others : (q : Ptr) → (q == p) ≡ false → next.tasks q ≡ s.tasks q
  pub frame : Frame s next

fail-Responds :
    (p : Ptr) (t : Task) (ret e : ℕ) (s : ServerLoop) (r : Outcome)
    → ((find t.conn_id s.conn_table ≡ none) × (e ≡ err_conn_not_exist))
      ⊎ ((c : Ptr) × (find t.conn_id s.conn_table ≡ some c) × (ret ≢ 0) × (e ≡ ret))
    → Woken p (record t { err = e }) s r
    → Responds p t ret s r
fail-Responds p t ret e s r wrong w = record {
  next = w.next;
  result = w.result;
  life = w.life;
  fate = inr (e, wrong, w.at, ap (λ s. s.sent) w.same);
  others = w.others;
  frame = Frame-tasks s w.next w.same;
}

pub respond_lem :
    (p : Ptr) (t : Task) (c : Ptr) (x : Conn) (ret : ℕ) (s : ServerLoop)
    → t.task_type ≡ resp_type
    → s.conns c ≡ some x
    → let pkg = proto_build_package t.indata pkg_type_common t.task_id in
      respond p t c ret s ≡ (
        if ret == 0
        then ok (record s { sent = (c, pkg) ∷ s.sent; writing = p ∷ s.writing })
        else fail_task p ret s)
unfolding respond with_conn task_pkg uv_write
respond_lem p t c x ret s kind live = ground (arith, kind, live)

respond-Responds :
    (p : Ptr) (t : Task) (c : Ptr) (x : Conn) (ret : ℕ) (s : ServerLoop)
    → Held p t s
    → t.task_type ≡ resp_type
    → find t.conn_id s.conn_table ≡ some c
    → s.conns c ≡ some x
    → Responds p t ret s (respond p t c ret s)
respond-Responds p t c x ret s h kind there live = elim (Bool-cases (ret == 0)) [
  | inl good ↦
      let pkg = proto_build_package t.indata pkg_type_common t.task_id in
      let next : ServerLoop = record s { sent = (c, pkg) ∷ s.sent; writing = p ∷ s.writing } in
      record {
        next = next;
        result = respond_lem p t c x ret s kind live ∙ rw good;
        life =
            Held-placed p t t s next h h.at (λ q other. refl) refl
              (λ q other. ground (arith, other)) (ground (arith, h.idle, h.asleep));
        fate = inl (
          c,
          there,
          ground (arith, good),
          record { sent = refl; at = h.at; writing = ground arith },
        );
        others = λ q other. refl;
        frame = record {
          conns = refl;
          table = refl;
          ptr = omega arith;
          running = refl;
          inited = refl;
          short = λ h. h;
        };
      }
  | inr bad ↦
      let w = fail_task-Woken p t ret s h in
      let wrong : ret ≢ 0 = λ e. cc (bad, ap (λ k. k == 0) e) in
      rw (respond_lem p t c x ret s kind live, bad)
        (fail-Responds p t ret ret s (fail_task p ret s) (inr (c, there, wrong, refl)) w)
]

send_response-Responds :
    (p : Ptr) (t : Task) (ret : ℕ) (s : ServerLoop)
    → Held p t s
    → t.task_type ≡ resp_type
    → Known s
    → Responds p t ret s (send_response p t ret s)
unfolding send_response sl_conn_find
send_response-Responds p t ret s h kind known = elim (Option-cases (find t.conn_id s.conn_table)) [
  | inl gone ↦
      rw (gone, send_response)
        (fail-Responds p t ret err_conn_not_exist s (fail_task p err_conn_not_exist s)
          (inl (gone, refl)) (fail_task-Woken p t err_conn_not_exist s h))
  | inr (c, there) ↦
      let (x, live) = known t.conn_id c there in
      rw (there, send_response) (respond-Responds p t c x ret s h kind there live)
]

pub async_cb_lem :
    (cb : Option (List ℕ → List ℕ)) (p : Ptr) (t : Task) (uv : UvResults) (s : ServerLoop)
    → s.running ≡ true
    → s.inited ≡ true
    → s.tasks p ≡ some t
    → t.task_type ≡ resp_type
    → async_cb cb p uv s ≡ send_response p t uv.written (record s { mail = remove p s.mail })
unfolding async_cb with_task run_task
async_cb_lem cb p t uv s running ready at kind = ground (arith, running, ready, at, kind)

-- A response handed to the loop while it runs is sent to its connection, with the data and the id of
-- its task, if the connection is in the table and `uv_write` returns 0; if the connection is gone,
-- the thread that waits for it is woken once with ERR_CONN_NOT_EXIST, and if `uv_write` fails, with
-- its error, and nothing is sent. Nothing faults, each task stays in one place, and all other tasks
-- stay as they were.
pub async_cb-Responds :
    (cb : Option (List ℕ → List ℕ)) (p : Ptr) (t : Task) (uv : UvResults) (s : ServerLoop)
    → Life s
    → Known s
    → s.running ≡ true
    → s.inited ≡ true
    → s.tasks p ≡ some t
    → t.task_type ≡ resp_type
    → 1 ≤ count p s.mail
    → Responds p t uv.written s (async_cb cb p uv s)
async_cb-Responds cb p t uv s v known running ready at kind there =
    let s' : ServerLoop = record s { mail = remove p s.mail } in
    let r = send_response-Responds p t uv.written s' (Life-mail p t s v at there) kind known in
    record {
      next = r.next;
      result = async_cb_lem cb p t uv s running ready at kind ∙ r.result;
      life = r.life;
      fate = elim (r.fate) [
        | inl (c, held, good, sending) ↦ inl (
          c,
          held,
          good,
          record { sent = sending.sent; at = sending.at; writing = sending.writing },
        )
        | inr failed ↦ inr failed
      ];
      others = r.others;
      frame = record {
        conns = r.frame.conns;
        table = r.frame.table;
        ptr = r.frame.ptr;
        running = r.frame.running;
        inited = r.frame.inited;
        short = r.frame.short;
      };
    }

-- The end of the write of a response wakes the thread that waits for it, once, with the status of
-- the write, and changes no other task.
pub resp_written-Woken :
    (p : Ptr) (t : Task) (status : ℕ) (s : ServerLoop)
    → Life s
    → s.tasks p ≡ some t
    → 1 ≤ count p s.writing
    → Woken p
        (record t { err = status })
        (record s { writing = remove p s.writing })
        (resp_written p status s)
unfolding resp_written
resp_written-Woken p t status s v at there =
    fail_task-Woken p t status (record s { writing = remove p s.writing })
      (Life-writing p t s v at there)
