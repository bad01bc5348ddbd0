-- ===== src/Client/Serves.antt =====
-- What is due in a client's loop never makes it fault.
use udpboardcast.Base.{ℕ, ◌≡◌, true, false, none, some}
use udpboardcast.ClientLoop.{Ptr, Conn, TimerData, ClientLoop, Outcome, ok}
use udpboardcast.ClientLoop.Tasks.{write_cb, timer_cb}
use udpboardcast.ClientLoop.Connect.{connect_cb}
use udpboardcast.ClientLoop.Read.{close_cb, timer_close_cb}
use udpboardcast.ClientLoop.Async.{UvResults, async_cb}
use udpboardcast.Client.{Client, started, Runs}
use udpboardcast.Client.Sound.{Sound}
use udpboardcast.Client.Sound.Takes.{async_cb-Goes}
use udpboardcast.Client.Sound.Timers.{timer_cb-Goes, timer_close_cb-Goes}
use udpboardcast.Client.Sound.Writes.{write_cb-Goes}
use udpboardcast.Client.Sound.Joins.{connect_cb-Goes}
use udpboardcast.Client.Sound.Calls.{close_cb-Goes}
use udpboardcast.Client.Sound.Reach.{Runs-Sound}

-- A callback that libuv owes the loop, with any results: for a task on its way, a write, a
-- connection attempt, a timer that runs, and the handles that are closed.
pub data Due (k : Client) : Outcome → Type 0 where
  task : (p : Ptr) (uv : UvResults) → k.mail p ≡ true → Due k (async_cb p uv k.loop)
  write : (p : Ptr) (status : ℕ) → k.writing p ≡ true → Due k (write_cb p status k.loop)
  attempt :
      (c : Ptr) (id status : ℕ) → k.connecting c ≡ some id → Due k (connect_cb id c status k.loop)
  timer :
      (q : Ptr) (td : TimerData)
      → k.loop.timers q ≡ some td
      → td.closing ≡ false
      → Due k (timer_cb q k.loop)
  closed_timer :
      (q : Ptr) (td : TimerData)
      → k.loop.timers q ≡ some td
      → td.closing ≡ true
      → Due k (timer_close_cb q k.loop)
  closed_conn :
      (c : Ptr) (x : Conn)
      → k.loop.conns c ≡ some x
      → k.connecting c ≡ none
      → Due k (close_cb c k.loop)

serves : (k : Client) (r : Outcome) → Sound k → Due k r → (s : ClientLoop) × (r ≡ ok s)
serves k r v (task p uv sent) =
    let (t, at, _) = v.placed.mailed p sent in
    let g = async_cb-Goes k p t uv v sent at in (g.next, g.result)
serves k r v (write p status on) = let g = write_cb-Goes k p status v on in (g.next, g.result)
serves k r v (attempt c id status trying) =
    let g = connect_cb-Goes k v c id status trying in (g.next, g.result)
serves k r v (timer q td at runs) = let g = timer_cb-Goes k q td v at runs in (g.next, g.result)
serves k r v (closed_timer q td at shut) =
    let g = timer_close_cb-Goes k q td v at shut in (g.next, g.result)
serves k r v (closed_conn c x at done) = let g = close_cb-Goes k v c x at done in (g.next, g.result)

-- In every state that a client reaches until it is closed, as long as no answer came to a request
-- before the callback for its write, no callback that is due makes the loop
-- fault, whatever libuv reports: neither the one for a task on its way, nor those for a write in
-- flight, a connection attempt, a timer that runs, or the handle of a timer or a connection that is
-- closed.
pub Runs-Serves :
    (k : Client) (r : Outcome) → Runs started k → Due k r → (s : ClientLoop) × (r ≡ ok s)
Runs-Serves k r run due = serves k r (Runs-Sound k run) due
