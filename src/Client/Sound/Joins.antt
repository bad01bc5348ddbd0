-- ===== src/Client/Sound/Joins.antt =====
-- The end of a connection attempt: `connect_cb`.
use udpboardcast.Base.{
  ℕ, ◌≡◌, ◌≢◌, refl, sym, ap, ◌∙◌, inl, inr, true, false, none, some, ◌==◌, Bool-cases,
  Option-cases, arith,
}
use udpboardcast.Table.{find}
use udpboardcast.ClientLoop.{
  Ptr, put, Task, ClientLoop, Outcome, ok, ◌>>=◌, set_err, close_conn, cl_task_find,
}
use udpboardcast.ClientLoop.Tasks.{finish_task, fail_task}
use udpboardcast.ClientLoop.Connect.{establish, connect_cb}
use udpboardcast.ClientLoop.Invariant.{Inv}
use udpboardcast.ClientLoop.Links.{Links}
use udpboardcast.ClientLoop.Conclude.{fail_task-Concludes}
use udpboardcast.ClientLoop.Answer.{dropped, dropped-Inv}
use udpboardcast.ClientLoop.Connected.{connect_lem}
use udpboardcast.Client.{Client}
use udpboardcast.Client.Sound.{Sound, Sound-Inv, listed-asleep}
use udpboardcast.Client.Sound.Rules.{Goes, Goes-by, Dropped-Over, Sound-Over}
use udpboardcast.Client.Sound.Settles.{Settles, close_conn-Settles, establish-Settles}

missed_lem :
    (id c status : ℕ) (s : ClientLoop)
    → find id s.task_table ≡ none
    → connect_cb id c status s ≡ ok s
unfolding connect_cb cl_task_find
missed_lem id c status s absent = ground (arith, absent)

-- The end of an attempt.
module _ (k : Client) (v : Sound k) (c id : ℕ) (status : ℕ)
    (trying : k.connecting c ≡ some id) where
  -- The connection of an attempt is no longer being made.
  others_still :
      (d : Ptr) (j : ℕ) → k.connecting d ≡ some j → j ≢ id → put k.connecting c none d ≡ some j
  others_still d j e other = ground (arith, e, trying, other)

  module _ (p : Ptr) (t : Task) (there : find id k.loop.task_table ≡ some p)
      (at : k.loop.tasks p ≡ some t) (own : t.task_id ≡ id) (asleep : t.notified ≡ 0) where
    -- The task is no request, so it is in no write.
    unwritten : (q : Ptr) → k.writing q ≡ true → (q == p) ≡ false
    unwritten q on =
        let (u, at', kind, _, _) = v.written q on in
        let (_, asks) = v.attempts c id trying in
        elim (Bool-cases (q == p)) [
          | inl same ↦
              let e : some u ≡ some t = sym at' ∙ ap k.loop.tasks (ground (arith, same)) ∙ at in
              ground (arith, e, kind, asks p t at own)
          | inr other ↦ other
        ]

    -- After `cl_task_del` and the end of the timer.
    cleared : ClientLoop
    cleared = (dropped id k.loop (Sound-Inv k v)).next

    middle :
        (e : ℕ) (r : Outcome)
        → Settles c cleared r
        → Goes
            (λ s. record k { loop = s; connecting = put k.connecting c none })
            (r >>= set_err p e >>= finish_task p)
    unfolding fail_task cleared
    middle e r m =
        let d = dropped id k.loop (Sound-Inv k v) in
        let i = dropped-Inv id k.loop (Sound-Inv k v) in
        let w : Inv m.next = record {
          waiting = λ j q here. rw m.tasks (i.waiting j q (rw m.task_table at here));
          once = λ q u here. i.once q u (rw m.tasks at here);
          ticking = λ j q here. rw m.timers (i.ticking j q (rw m.timer_table at here));
        } in
        let at' : m.next.tasks p ≡ some t = ap (λ f. f p) (m.tasks ∙ d.tasks) ∙ at in
        let f = fail_task-Concludes p t e m.next w at' asleep in
        let o =
          Dropped-Over id k.loop m.next d m.tasks m.task_table m.timers m.timer_table f own
            (λ u at''. let same : t ≡ u = cc (at, at'') in ap (λ (u : Task). u.task_type) same) in
        record {
          next = f.next;
          result = ap (λ r. r >>= set_err p e >>= finish_task p) m.result ∙ f.result;
          sound =
              Sound-Over k v id p there f.next k.writing (put k.connecting c none) o
                (record {
                  running = f.rest.running ∙ m.around.running ∙ d.rest.running;
                  inited = f.rest.inited ∙ m.around.inited ∙ d.rest.inited;
                  ptr = f.rest.next_ptr ∙ m.around.ptr ∙ d.rest.next_ptr;
                  ids = λ n.
                      rw (f.rest.conn_table, f.rest.next_conn_id)
                        (m.around.ids (rw (d.rest.conn_table, d.rest.next_conn_id) n));
                })
                (λ q on. (on, unwritten q on)) others_still (λ q j e. ground (arith, e))
                (rw (f.rest.conn_table, f.rest.conns, f.rest.next_ptr) m.links)
                (λ q j e.
                  let other : (q == c) ≡ false = ground (arith, e) in
                  let (present, out) = v.asked q j (ground (arith, e, other)) in
                  (
                    rw f.rest.conns (m.kept q (rw d.rest.conns present)),
                    rw f.rest.conn_table (m.out q other (rw d.rest.conn_table out)),
                  ));
        }

  -- The task has ended before.
  missed :
      find id k.loop.task_table ≡ none → Sound (record k { connecting = put k.connecting c none })
  missed absent = record {
    running = v.running;
    inited = v.inited;
    placed = v.placed;
    timed = record {
      armed = v.timed.armed;
      live = λ q td at runs.
          let (listed, (p, waits), aimed) = v.timed.live q td at runs in
          let other : td.task_id ≢ id =
            λ e. cc (ap (λ j. find j k.loop.task_table) e, waits, absent) in
          (listed, (p, waits), λ d e. others_still d td.task_id (aimed d e) other);
      keys = v.timed.keys;
      fresh = v.timed.fresh;
    };
    links = v.links;
    asked = λ d j e. v.asked d j (ground (arith, e));
    attempts = λ d j e. v.attempts d j (ground (arith, e));
    numbered = v.numbered;
    small = v.small;
    written = v.written;
  }

  -- Whatever the status, the end of a connection attempt does not fault.
  pub connect_cb-Goes :
      Goes
        (λ s. record k { loop = s; connecting = put k.connecting c none })
        (connect_cb id c status k.loop)
  unfolding cleared
  connect_cb-Goes = elim (Option-cases (find id k.loop.task_table)) [
    | inl absent ↦
        Goes-by (missed_lem id c status k.loop absent)
          (record { next = k.loop; result = refl; sound = missed absent })
    | inr (p, there) ↦
        let (t, at, own) = v.placed.own id p there in
        let (_, asleep, _) = listed-asleep id p t v.placed there at in
        let ((x, here), out) = v.asked c id trying in
        let d = dropped id k.loop (Sound-Inv k v) in
        let here' : d.next.conns c ≡ some x = ap (λ m. m c) d.rest.conns ∙ here in
        let out' : (j : ℕ) → find j d.next.conn_table ≢ some c = rw d.rest.conn_table out in
        let links : Links d.next.conn_table d.next.conns d.next.next_ptr =
          rw (d.rest.conn_table, d.rest.conns, d.rest.next_ptr) v.links in
        Goes-by (connect_lem id c p t status k.loop (Sound-Inv k v) there at own)
          (elim (Bool-cases (status == 0)) [
            | inl good ↦ rw good (
                middle p t there at own asleep 0 (establish c d.next)
                  (establish-Settles c x d.next here' out' links))
            | inr bad ↦ rw bad (
                middle p t there at own asleep status (close_conn c d.next)
                  (close_conn-Settles c x d.next here' out' links))
          ])
  ]
