-- ===== src/ServerLoop/Closing.antt =====
-- The task that closes the server, when the loop takes it: `async_cb` with a `CLOSE` task.
use udpboardcast.Base.{
  ℕ, ◌≤◌, ◌≡◌, ap, ◌∙◌, ◌⊎◌, inl, inr, true, false, List, [], Option, some, ◌==◌, Bool-cases, arith,
}
use udpboardcast.Table.{values}
use udpboardcast.ClientLoop.{Ptr, close_type, Task, Conn}
use udpboardcast.ServerLoop.{
  ServerLoop, Outcome, ok, fault, hangs, ◌>>=◌, with_task, remove, finish_task,
}
use udpboardcast.ServerLoop.Async.{UvResults, is_resp, server_shutdown, run_task, async_cb}
use udpboardcast.ServerLoop.Life.{count, lists, Life, count-remove_self, count-remove_other}
use udpboardcast.ServerLoop.Changes.{Live, is_in}
use udpboardcast.ServerLoop.PoolEnd.{Asleep}
use udpboardcast.ServerLoop.Shutdown.{asleep_at, shutdown-InFlight}

close_lem :
    (cb : Option (List ℕ → List ℕ)) (p : Ptr) (t : Task) (uv : UvResults) (s : ServerLoop)
    → s.running ≡ true
    → s.inited ≡ true
    → s.tasks p ≡ some t
    → t.task_type ≡ close_type
    → async_cb cb p uv s
      ≡ (server_shutdown cb (record s { mail = remove p s.mail }) >>= finish_task p)
unfolding async_cb with_task run_task
close_lem cb p t uv s running ready at kind = ground (arith, running, ready, at, kind)

count_less : (q p : Ptr) (ps : List Ptr) → count q (remove p ps) ≤ count q ps
count_less q p ps = elim (Bool-cases (q == p)) [
  | inl same ↦ ground (arith, same, count-remove_self p ps)
  | inr other ↦ omega (arith, count-remove_other q p ps other)
]

-- If the server is closed while the response to a request is under way, that is, while its task
-- waits for a thread, is worked on, waits for the loop or is being written, the loop's thread never
-- comes to the end of the shutdown: it touches memory that it must not, or waits for ever.
pub async_cb-InFlight :
    (cb : Option (List ℕ → List ℕ)) (p q : Ptr) (t u : Task) (uv : UvResults) (s : ServerLoop)
    → Life s
    → Live s (values s.conn_table)
    → s.running ≡ true
    → s.inited ≡ true
    → s.tasks p ≡ some t
    → t.task_type ≡ close_type
    → 1 ≤ count p s.mail
    → s.tasks q ≡ some u
    → is_resp u.task_type ≡ true
    → u.notified ≡ 0
    → (async_cb cb p uv s ≡ fault) ⊎ (async_cb cb p uv s ≡ hangs)
async_cb-InFlight cb p q t u uv s v live running ready at kind there at' resp unwoken =
    let e = close_lem cb p t uv s running ready at kind in
    let s' : ServerLoop = record s { mail = remove p s.mail } in
    let mail : Asleep s' s'.mail =
      λ r there. asleep_at s v r (omega (arith, there, count_less r p s.mail)) in
    let writing : Asleep s' s'.writing = λ r there. asleep_at s v r (omega (arith, there)) in
    let apart : (q == p) ≡ false = ground (arith, at, at', kind, resp) in
    let flying : 1 ≤ lists q s' =
      ground (arith, v.one q, at', unwoken, count-remove_other q p s.mail apart) in
    elim (shutdown-InFlight cb q u s' live mail writing (at', resp, flying)) [
      | inl broken ↦ inl (e ∙ ap (λ o. o >>= finish_task p) broken)
      | inr stuck ↦ inr (e ∙ ap (λ o. o >>= finish_task p) stuck)
    ]

-- Where the shutdown ends: the loop is stopped, the table is empty, each connection that was in it
-- is closed and no longer read, and the caller is awake.
pub record Closes (p : Ptr) (t : Task) (s : ServerLoop) (r : Outcome) : Type 0 where
  pub next : ServerLoop
  pub result : r ≡ ok next
  pub life : Life next
  pub woken : next.tasks p ≡ some (record t { notified = 1 })
  pub stopped : next.running ≡ false
  pub listening : next.listen_closing ≡ true
  pub table : next.conn_table ≡ []
  pub closed :
      (c : Ptr) (x : Conn)
      → is_in c (values s.conn_table) ≡ true
      → s.conns c ≡ some x
      → next.conns c ≡ some (record x { reading = false; closing = true })
