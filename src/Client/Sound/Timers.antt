-- ===== src/Client/Sound/Timers.antt =====
-- A timer that runs out and is deleted: `timer_cb`.
use udpboardcast.Base.{
  ℕ, ◌+◌, ◌≡◌, sym, ap, subst, ◌∙◌, inl, inr, true, false, none, some, ◌==◌, Bool-cases, arith,
}
use udpboardcast.Table.{find, erase, IsMap}
use udpboardcast.Table.Laws.{find-erase, IsMap-erase, find-erase_self}
use udpboardcast.Errors.{err_timeout}
use udpboardcast.ClientLoop.{
  Ptr, put, Task, TimerData, ClientLoop, Outcome, ok, ◌>>=◌, with_timer, close_timer, close_target,
}
use udpboardcast.ClientLoop.Tasks.{fail_task, time_out, timer_cb}
use udpboardcast.ClientLoop.Read.{timer_close_cb}
use udpboardcast.ClientLoop.Keeps.{Present}
use udpboardcast.ClientLoop.Clock.{Stops}
use udpboardcast.ClientLoop.Links.{Links}
use udpboardcast.ClientLoop.Conclude.{Concludes, fail_task-Concludes}
use udpboardcast.ClientLoop.Timeout.{forget, forget-Inv, timer_cb_lem, Closes, close-Closes}
use udpboardcast.Client.{Client}
use udpboardcast.Client.Sound.{Sound, Sound-Inv, listed-asleep}
use udpboardcast.Client.Sound.Over.{Over}
use udpboardcast.Client.Sound.Rules.{Goes, Around, Sound-Over}

-- The outcome of a timer whose task `p` waits, in the state `s`.
record Fires (id : ℕ) (p : Ptr) (s : ClientLoop) (r : Outcome) : Type 0 where
  next : ClientLoop
  result : r ≡ ok next
  over : Over id p s next
  around : Around s next
  table : next.conn_table ≡ s.conn_table
  kept : (d : Ptr) → Present s.conns d → Present next.conns d
  links : Links s.conn_table s.conns s.next_ptr → Links next.conn_table next.conns next.next_ptr

module _ (k : Client) (q : Ptr) (td : TimerData) (v : Sound k)
    (held : k.loop.timers q ≡ some td) where
  module _ (p : Ptr) (t : Task) (listed : find td.task_id k.loop.timer_table ≡ some q)
      (there : find td.task_id k.loop.task_table ≡ some p) (at : k.loop.tasks p ≡ some t)
      (own : t.task_id ≡ td.task_id) (asleep : t.notified ≡ 0)
      (aimed : (c : Ptr) → td.target ≡ some c → k.connecting c ≡ some td.task_id) where
    -- The middle of `timer_cb`.
    failed :
        Concludes p
          (record t { err = err_timeout })
          (forget td.task_id k.loop)
          (fail_task p err_timeout (forget td.task_id k.loop))
    unfolding forget
    failed =
        fail_task-Concludes p t err_timeout (forget td.task_id k.loop)
          (forget-Inv td.task_id k.loop (Sound-Inv k v)) at asleep

    same_timers : failed.next.timers ≡ k.loop.timers
    unfolding forget
    same_timers = failed.timers (rw own (find-erase_self td.task_id k.loop.timer_table))

    same_conns : failed.next.conns ≡ k.loop.conns
    unfolding forget
    same_conns = failed.rest.conns

    closed :
        Closes q td td.target failed.next (close_target td.target failed.next >>= close_timer q)
    closed = close-Closes q td td.target failed.next (ap (λ m. m q) same_timers ∙ held) (λ d e.
        let ((x, here), _) = v.asked d td.task_id (aimed d e) in
        (x, ap (λ m. m d) same_conns ∙ here))

    stopped :
        Stops td.task_id k.loop.timer_table closed.next.timer_table k.loop.timers closed.next.timers
    unfolding forget
    stopped =
        let s = k.loop in
        let id = td.task_id in
        record {
          finds = λ j.
              ap (find j) closed.same.timer_table
              ∙ ground (arith, own, failed.clock.finds j, find-erase j id s.timer_table);
          keys = λ m.
              subst IsMap (sym closed.same.timer_table)
                (failed.clock.keys (IsMap-erase id s.timer_table m));
          kept = λ r other.
              ap (λ m. m r) closed.timers
              ∙ ground (arith, listed, other, ap (λ m. m r) same_timers);
          shut =
              λ r u here at'. ap (λ m. m r) closed.timers ∙ ground (arith, listed, here, held, at');
        }

    timed_out : Over td.task_id p k.loop closed.next
    unfolding forget
    timed_out =
        let s = k.loop in
        let id = td.task_id in
        let table = closed.same.task_table ∙ failed.table in
        record {
          task = record t { err = err_timeout; notified = t.notified + 1 };
          at = ap (λ m. m p) closed.same.tasks ∙ failed.settled.at;
          own = own;
          awake = omega (arith, asleep);
          kind = λ u at'. let same : t ≡ u = cc (at, at') in ap (λ (u : Task). u.task_type) same;
          others = λ r other. ap (λ m. m r) closed.same.tasks ∙ failed.others r other;
          finds = λ j.
              ap (find j) table
              ∙ ground (
                arith,
                own,
                find-erase j t.task_id (erase id s.task_table),
                find-erase j id s.task_table,
              );
          keys = λ m.
              subst IsMap (sym table)
                (IsMap-erase t.task_id (erase id s.task_table) (IsMap-erase id s.task_table m));
          clock = stopped;
        }

    fires : Fires td.task_id p k.loop (timer_cb q k.loop)
    unfolding forget time_out
    fires =
        let table = ap (λ n. n.conn_table) closed.rest ∙ failed.rest.conn_table in
        let ptr = ap (λ n. n.next_ptr) closed.rest ∙ failed.rest.next_ptr in
        record {
          next = closed.next;
          result =
              timer_cb_lem q td k.loop held
              ∙ ap
                  (λ o.
                    time_out o (forget td.task_id k.loop)
                    >>= close_target td.target
                    >>= close_timer q)
                  there
              ∙ ap (λ r. r >>= close_target td.target >>= close_timer q) failed.result
              ∙ closed.result;
          over = timed_out;
          around = record {
            running = ap (λ n. n.running) closed.rest ∙ failed.rest.running;
            inited = ap (λ n. n.inited) closed.rest ∙ failed.rest.inited;
            ptr = ptr;
            ids =
                λ n. rw (table, ap (λ n. n.next_conn_id) closed.rest ∙ failed.rest.next_conn_id) n;
          };
          table = table;
          kept = λ d here. closed.kept d (rw same_conns here);
          links = λ r.
              subst (λ m. Links m closed.next.conns closed.next.next_ptr) (sym table)
                (subst (Links k.loop.conn_table closed.next.conns) (sym ptr)
                  (closed.links k.loop.conn_table k.loop.next_ptr (rw same_conns r)));
        }

  -- The request of a timer is not in a write.
  spared :
      (p r : Ptr)
      → find td.task_id k.loop.timer_table ≡ some q
      → find td.task_id k.loop.task_table ≡ some p
      → k.writing r ≡ true
      → (r == p) ≡ false
  spared p r listed there on =
      let (u, at, _, waits, idle) = v.written r on in
      let (t, at', own) = v.placed.own td.task_id p there in
      elim (Bool-cases (r == p)) [
        | inl same ↦
            let e : some u ≡ some t = sym at ∙ ap k.loop.tasks (ground (arith, same)) ∙ at' in
            ground (arith, e, own, idle, listed)
        | inr other ↦ other
      ]

  -- A timer that runs out.
  pub timer_cb-Goes : td.closing ≡ false → Goes (λ s. record k { loop = s }) (timer_cb q k.loop)
  timer_cb-Goes runs =
      let (listed, (p, there), aimed) = v.timed.live q td held runs in
      let (t, at, own) = v.placed.own td.task_id p there in
      let (_, asleep, _) = listed-asleep td.task_id p t v.placed there at in
      let f = fires p t listed there at own asleep aimed in
      record {
        next = f.next;
        result = f.result;
        sound =
            Sound-Over k v td.task_id p there f.next k.writing k.connecting f.over f.around
              (λ r on. (on, spared p r listed there on)) (λ d j e _. e) (λ d j e. e)
              (f.links v.links)
              (λ d j e. let (present, out) = v.asked d j e in (f.kept d present, rw f.table out));
      }

  -- The handle of a timer that is closed is deleted.
  pub timer_close_cb-Goes :
      td.closing ≡ true → Goes (λ s. record k { loop = s }) (timer_close_cb q k.loop)
  unfolding timer_close_cb with_timer
  timer_close_cb-Goes shut = record {
    next = record (k.loop) { timers = put k.loop.timers q none };
    result = ground (arith, held);
    sound = record {
      running = v.running;
      inited = v.inited;
      placed = v.placed;
      timed = record {
        armed = λ j r there.
            let (u, at, runs, own) = v.timed.armed j r there in
            (u, ground (arith, at, held, runs, shut), runs, own);
        live = λ r u at runs. v.timed.live r u (ground (arith, at)) runs;
        keys = v.timed.keys;
        fresh = λ r new. ground (arith, v.timed.fresh r new);
      };
      links = v.links;
      asked = v.asked;
      attempts = v.attempts;
      numbered = v.numbered;
      small = v.small;
      written = v.written;
    };
  }
