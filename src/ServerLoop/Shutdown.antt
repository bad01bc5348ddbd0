-- ===== src/ServerLoop/Shutdown.antt =====
-- `_server_shutdown`: when it comes to its end, and when not.
use udpboardcast.Base.{
  ℕ, ◌≤◌, ◌≡◌, refl, ap, ◌∙◌, inl, inr, true, false, List, [], Option, none, some, arith,
}
use udpboardcast.Table.{values}
use udpboardcast.ClientLoop.{Ptr, Task, Conn}
use udpboardcast.ServerLoop.{ServerLoop, Outcome, ok, ◌>>=◌, close_conn}
use udpboardcast.ServerLoop.Async.{
  stop_reading, for_each, is_resp, join_waiting, threadpool_uninit, server_shutdown,
}
use udpboardcast.ServerLoop.Life.{count, lists, alive, Life}
use udpboardcast.ServerLoop.Changes.{Live, is_in, Changes, change_each, Live-Changes, Live-same}
use udpboardcast.ServerLoop.PoolEnd.{
  Bad, InFlight, Asleep, threadpool_uninit-Bad, uninit_quiet, uninit_awake, join_through,
}

alive_one : (o : Option Task) → 1 ≤ alive o → (t : Task) × (o ≡ some t)
alive_one none h = absurd (omega (arith, h))
alive_one (some t) h = (t, refl)

pub asleep_at :
    (s : ServerLoop)
    → Life s
    → (p : Ptr) → 1 ≤ lists p s
    → (t : Task) × (s.tasks p ≡ some t) × (t.notified ≡ 0)
asleep_at s v p there =
    let (t, at) = alive_one (s.tasks p) (omega (arith, v.one p)) in
    (t, at, ground (arith, v.one p, at, there))

abbrev unread : Conn → Conn
unread x = record x { reading = false }

abbrev shut : Conn → Conn
shut x = record x { closing = true }

-- What follows the wait for the pool.
abbrev close_all : List Ptr → Outcome → Outcome
close_all cs o = o >>= for_each close_conn cs >>= λ s. ok (record s { conn_table = [] })

-- The state in which the pool is ended.
abbrev stopping : (Ptr → Option Conn) → ServerLoop → ServerLoop
stopping conns s = record s { running = false; listen_closing = true; conns = conns }

stop_each :
    (s : ServerLoop)
    → Live s (values s.conn_table)
    → Changes unread
        (values s.conn_table)
        (stopping s.conns s)
        (for_each stop_reading (values s.conn_table) (stopping s.conns s))
unfolding stop_reading
stop_each s live =
    change_each unread (values s.conn_table) (stopping s.conns s) (λ x. refl)
      (Live-same (values s.conn_table) s (stopping s.conns s) refl live)

shutdown_lem :
    (cb : Option (List ℕ → List ℕ)) (s : ServerLoop) (live : Live s (values s.conn_table))
    → server_shutdown cb s ≡ (
        close_all
          (values s.conn_table)
          (threadpool_uninit cb (stopping (stop_each s live).conns s)))
unfolding server_shutdown
shutdown_lem cb s live =
    ap (λ o. close_all (values s.conn_table) (o >>= threadpool_uninit cb)) (stop_each s live).result

pub shutdown-InFlight :
    (cb : Option (List ℕ → List ℕ)) (p : Ptr) (t : Task) (s : ServerLoop)
    → Live s (values s.conn_table)
    → Asleep s s.mail
    → Asleep s s.writing
    → InFlight p t s
    → Bad (server_shutdown cb s)
shutdown-InFlight cb p t s live mail writing flying =
    let s' = stopping (stop_each s live).conns s in
    let e = shutdown_lem cb s live in
    elim (threadpool_uninit-Bad cb p t s' refl mail writing flying) [
      | inl broken ↦ inl (e ∙ ap (close_all (values s.conn_table)) broken)
      | inr stuck ↦ inr (e ∙ ap (close_all (values s.conn_table)) stuck)
    ]

-- Nobody waits for the tasks of a list.
abbrev pub Idle : ServerLoop → List Ptr → Type 0
Idle s ps =
    (p : Ptr) → 1 ≤ count p ps → (t : Task) × (s.tasks p ≡ some t) × (is_resp t.task_type ≡ false)

pool_ends :
    (cb : Option (List ℕ → List ℕ)) (s : ServerLoop)
    → s.queue ≡ []
    → s.working ≡ []
    → s.dozing ≡ false
    → Idle s s.mail
    → Idle s s.writing
    → threadpool_uninit cb s ≡ ok s
pool_ends cb s empty idle awake mail writing = uninit_awake cb s awake (
    uninit_quiet cb s empty idle
    ∙ ap (λ r. r >>= for_each join_waiting s.writing) (join_through s.mail s mail)
    ∙ join_through s.writing s writing)

close_each :
    (cs : List Ptr) (s : ServerLoop) → Live s cs → Changes shut cs s (for_each close_conn cs s)
unfolding close_conn
close_each cs s live = change_each shut cs s (λ x. refl) live

-- What the shutdown leaves.
abbrev pub down : (Ptr → Option Conn) → ServerLoop → ServerLoop
down conns s = record s { running = false; listen_closing = true; conns = conns; conn_table = [] }

pub record Down (s : ServerLoop) (r : Outcome) : Type 0 where
  pub conns : Ptr → Option Conn
  pub result : r ≡ ok (down conns s)
  pub closed :
      (c : Ptr) (x : Conn)
      → is_in c (values s.conn_table) ≡ true
      → s.conns c ≡ some x
      → conns c ≡ some (record x { reading = false; closing = true })

pub shutdown-Down :
    (cb : Option (List ℕ → List ℕ)) (s : ServerLoop)
    → Live s (values s.conn_table)
    → s.queue ≡ []
    → s.working ≡ []
    → s.dozing ≡ false
    → Idle s s.mail
    → Idle s s.writing
    → Down s (server_shutdown cb s)
shutdown-Down cb s live empty idle awake mail writing =
    let cs = values s.conn_table in
    let stopped = stop_each s live in
    let s' = stopping stopped.conns s in
    let closes = close_each cs s' (
      Live-Changes unread cs cs (stopping s.conns s) stopped
        (Live-same cs s (stopping s.conns s) refl live)) in
    record {
      conns = closes.conns;
      result =
          shutdown_lem cb s live
          ∙ ap (close_all cs) (pool_ends cb s' empty idle awake mail writing)
          ∙ ap (λ o. o >>= λ s. ok (record s { conn_table = [] })) closes.result;
      closed = λ c x hit at.
          let after : stopped.conns c ≡ some (unread x) = stopped.each c ∙ rw (hit, at) in
          closes.each c ∙ rw (hit, after);
    }
