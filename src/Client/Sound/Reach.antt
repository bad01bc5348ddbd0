-- ===== src/Client/Sound/Reach.antt =====
-- What holds in every state that a client reaches until it is closed.
use udpboardcast.Base.{ℕ, ◌+◌, ◌^◌, ◌%◌, ◌<◌, ◌≡◌, refl, sym, subst, ◌∙◌, inl, inr, true, arith}
use udpboardcast.Table.{find}
use udpboardcast.ClientLoop.{Ptr, Task, ClientLoop, Outcome, ok, set_task}
use udpboardcast.Interface.{rw_task, conn_task}
use udpboardcast.Interface.Startup.{ssn_startup_client}
use udpboardcast.Client.{
  Client, started, mark, Step, Runs, sends, connects, returns, takes, writes, joins, reads,
  times_out, closes, timer_closes, stop, step,
}
use udpboardcast.Client.Sound.{Sound}
use udpboardcast.Client.Sound.Rules.{Goes}
use udpboardcast.Client.Sound.Takes.{async_cb-Goes}
use udpboardcast.Client.Sound.Timers.{timer_cb-Goes, timer_close_cb-Goes}
use udpboardcast.Client.Sound.Writes.{write_cb-Goes}
use udpboardcast.Client.Sound.Joins.{connect_cb-Goes}
use udpboardcast.Client.Sound.Reads.{read_cb-Sound, close_cb-ok}
use udpboardcast.Client.Sound.Calls.{
  ssn_send-submitted, ssn_connect-submitted, Sound-new_task, Sound-returns, close_cb-Goes,
}

started-Sound : Sound started
unfolding started ssn_startup_client find
started-Sound = record {
  running = refl;
  inited = refl;
  placed = record {
    one = λ p t at. cc at;
    mailed = λ p on. cc on;
    own = λ id p there. cc there;
    ids = λ p q t u at at' same. cc at;
    below = λ p t at. cc at;
    keys = tt;
  };
  timed = record {
    armed = λ id q there. cc there;
    live = λ q td at runs. cc at;
    keys = tt;
    fresh = λ q new. refl;
  };
  links = record { rows = λ id c there. cc there; keys = tt; fresh = λ c new. refl };
  asked = λ c id e. cc e;
  attempts = λ c id e. cc e;
  numbered = (omega arith, λ j c there. cc there);
  small = omega arith;
  written = λ p on. cc on;
}

-- The state after a handler that does not fault is the one that it ends in.
ends :
    (around : ClientLoop → Client) (r : Outcome) (s : ClientLoop)
    → Goes around r
    → r ≡ ok s
    → Sound (around s)
ends around r s g e =
    let f : ok g.next ≡ ok s = sym g.result ∙ e in
    let same : g.next ≡ s = cc f in subst (λ n. Sound (around n)) same g.sound

-- Before the ids run out, the next one is the counter's.
next_id : (n m : ℕ) → n + 1 < 2 ^ 64 → m ≡ (n + 1) % 2 ^ 64 → m ≡ n + 1
next_id n m small e = omega (arith, small, e)

handed :
    (k : Client) (n : ℕ) (p : Ptr) (t : Task) (s : ClientLoop)
    → n ≡ k.counter + 1
    → s ≡ set_task p t k.loop
    → Sound (record k {
      loop = set_task p t k.loop;
      counter = k.counter + 1;
      mail = mark k.mail p true;
    })
    → Sound (record k { loop = s; counter = n; mail = mark k.mail p true })
handed k n p t s count same v =
    subst (λ c. Sound (record k { loop = s; counter = c; mail = mark k.mail p true })) (sym count)
      (subst
        (λ u. Sound (record k { loop = u; counter = k.counter + 1; mail = mark k.mail p true }))
        (sym same) v)

Step-Sound : (k k' : Client) → Step k k' → Sound k → Sound k'
unfolding rw_task conn_task
Step-Sound k k' (sends {s' = s} {n = n} p stale conn_id indata given timeout free small e) v =
    let (bytes, count, same) =
      ssn_send-submitted p stale k.counter conn_id indata given timeout k.loop s n e in
    handed k n p (rw_task stale k.counter conn_id bytes timeout) s (next_id k.counter n small count)
      same
      (Sound-new_task k v p (rw_task stale k.counter conn_id bytes timeout) free refl small refl
        (inl refl))
Step-Sound k k' (connects {s' = s} {n = n} p stale ip timeout free small e) v =
    let (to, count, same) = ssn_connect-submitted p stale k.counter ip timeout k.loop s n e in
    handed k n p (conn_task stale k.counter to timeout) s (next_id k.counter n small count) same
      (Sound-new_task k v p (conn_task stale k.counter to timeout) free refl small refl (inr refl))
Step-Sound k k' (returns p t at woken) v = Sound-returns k v p t at woken
Step-Sound k k' (takes {s' = s} p t uv sent at e) v =
    ends _ _ s (async_cb-Goes k p t uv v sent at) e
Step-Sound k k' (writes {s' = s} p status on e) v = ends _ _ s (write_cb-Goes k p status v on) e
Step-Sound k k' (joins {s' = s} c id status trying e) v =
    ends _ _ s (connect_cb-Goes k v c id status trying) e
Step-Sound k k' (reads {s' = s} c nread early e) v = read_cb-Sound k s c nread v early e
Step-Sound k k' (times_out {s' = s} q td at runs e) v =
    ends _ _ s (timer_cb-Goes k q td v at runs) e
Step-Sound k k' (closes {s' = s} c done e) v =
    let (x, at) = close_cb-ok c k.loop s e in ends _ _ s (close_cb-Goes k v c x at done) e
Step-Sound k k' (timer_closes {s' = s} q td at shut e) v =
    ends _ _ s (timer_close_cb-Goes k q td v at shut) e

-- In every state that a client reaches until it is closed, as long as no answer came to a request
-- before the callback for its write, each task is in exactly one place, with an id of its own: it is on its way to the loop, or waits in the table under its id, or its caller
-- has been woken once; the timers that run are those of the table, and each belongs to a task that
-- waits; each entry of the connection table leads to a connection in memory with that id; a
-- connection that is being made is in memory and not in the table; and a write in flight is that of
-- a request that waits without a timer.
pub Runs-Sound : (k : Client) → Runs started k → Sound k
Runs-Sound k stop = started-Sound
Runs-Sound k (step {k' = k'} run last) = Step-Sound k' k last (Runs-Sound k' run)
