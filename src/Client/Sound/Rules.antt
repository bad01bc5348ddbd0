-- ===== src/Client/Sound/Rules.antt =====
-- The rules by which the handlers of a client are shown to keep its invariant.
use udpboardcast.Base.{
  ℕ, ◌+◌, ◌≡◌, ◌≢◌, refl, sym, ap, subst, ◌∙◌, inl, inr, Bool, true, false, Option, none, some,
  ◌==◌, Bool-cases, arith,
}
use udpboardcast.Table.{find, insert, erase, IsMap}
use udpboardcast.Table.Laws.{find-erase, find-insert, IsMap-erase, IsMap-insert}
use udpboardcast.ClientLoop.{Ptr, Task, TimerData, ClientLoop, Outcome, ok}
use udpboardcast.ClientLoop.Tasks.{fail_task, start_timer}
use udpboardcast.ClientLoop.Invariant.{SameRest}
use udpboardcast.ClientLoop.Clock.{Stops, Stops-then}
use udpboardcast.ClientLoop.Finish.{Drops}
use udpboardcast.ClientLoop.Links.{Links}
use udpboardcast.ClientLoop.Conclude.{Concludes, fail_task-Concludes}
use udpboardcast.Client.{Client}
use udpboardcast.Client.Sound.{Numbered, Timed, Asked, Sound, Sound-Inv, listed-asleep}
use udpboardcast.Client.Sound.Over.{Over, Placed-Over, Timed-Over, Attempts-Over, Written-Over}

-- The handler does not fault, and what it leaves is sound.
pub record Goes (around : ClientLoop → Client) (r : Outcome) : Type 0 where
  pub next : ClientLoop
  pub result : r ≡ ok next
  pub sound : Sound (around next)

pub Goes-by :
    {around : ClientLoop → Client} {r r' : Outcome} → r ≡ r' → Goes around r' → Goes around r
Goes-by e g = record { next = g.next; result = e ∙ g.result; sound = g.sound }

pub Concludes-Over :
    {p : Ptr} {t : Task} {s : ClientLoop} {r : Outcome} (id : ℕ) (c : Concludes p t s r)
    → t.task_id ≡ id
    → ((u : Task) → s.tasks p ≡ some u → t.task_type ≡ u.task_type)
    → Over id p s c.next
Concludes-Over {p} {t} {s} {r} id c own kind =
    subst (λ j. Over j p s c.next) own
      (record {
        task = record t { notified = t.notified + 1 };
        at = c.settled.at;
        own = refl;
        awake = omega (arith, c.settled.woken_once);
        kind = kind;
        others = c.others;
        finds = λ j. ap (find j) c.table ∙ find-erase j t.task_id s.task_table;
        keys = λ k. subst IsMap (sym c.table) (IsMap-erase t.task_id s.task_table k);
        clock = c.clock;
      })

-- A handler that takes the entries of `id` out of the tables, and then ends the task.
pub Dropped-Over :
    {p : Ptr} {t : Task} {r : Outcome} (id : ℕ) (s m : ClientLoop)
    (d : Drops id (record s { task_table = erase id s.task_table }))
    → m.tasks ≡ d.next.tasks
    → m.task_table ≡ d.next.task_table
    → m.timers ≡ d.next.timers
    → m.timer_table ≡ d.next.timer_table
    → (c : Concludes p t m r) → t.task_id ≡ id
    → ((u : Task) → s.tasks p ≡ some u → t.task_type ≡ u.task_type)
    → Over id p s c.next
Dropped-Over {p} {t} {r} id s m d tasks task_table timers timer_table c own kind =
    let table : c.next.task_table ≡ erase t.task_id (erase id s.task_table) =
      c.table ∙ ap (erase t.task_id) (task_table ∙ d.task_table) in
    record {
      task = record t { notified = t.notified + 1 };
      at = c.settled.at;
      own = own;
      awake = omega (arith, c.settled.woken_once);
      kind = kind;
      others = λ q other. c.others q other ∙ ap (λ g. g q) (tasks ∙ d.tasks);
      finds = λ j.
          ap (find j) table
          ∙ ground (
            arith,
            own,
            find-erase j t.task_id (erase id s.task_table),
            find-erase j id s.task_table,
          );
      keys = λ l.
          subst IsMap (sym table)
            (IsMap-erase t.task_id (erase id s.task_table) (IsMap-erase id s.task_table l));
      clock = Stops-then d.clock (
          rw (← timers, ← timer_table)
            (subst (λ j. Stops j m.timer_table c.next.timer_table m.timers c.next.timers) own
              c.clock));
    }

-- What the end of a task leaves alone.
pub record Around (s next : ClientLoop) : Type 0 where
  pub running : next.running ≡ s.running
  pub inited : next.inited ≡ s.inited
  pub ptr : next.next_ptr ≡ s.next_ptr
  pub ids : Numbered s.conn_table s.next_conn_id → Numbered next.conn_table next.next_conn_id

module _ (k : Client) (v : Sound k) (id : ℕ) (p : Ptr)
    (there : find id k.loop.task_table ≡ some p) where
  -- The end of a task, with what becomes of the connections.
  pub Sound-Over :
      (next : ClientLoop) (writing' : Ptr → Bool) (connecting' : Ptr → Option ℕ)
      → Over id p k.loop next
      → Around k.loop next
      → ((q : Ptr) → writing' q ≡ true → (k.writing q ≡ true) × ((q == p) ≡ false))
      → ((c : Ptr) (j : ℕ) → k.connecting c ≡ some j → j ≢ id → connecting' c ≡ some j)
      → ((c : Ptr) (j : ℕ) → connecting' c ≡ some j → k.connecting c ≡ some j)
      → Links next.conn_table next.conns next.next_ptr
      → Asked connecting' next.conns next.conn_table
      → Sound (record k { loop = next; writing = writing'; connecting = connecting' })
  Sound-Over next writing' connecting' o a fewer still known links asked = record {
    running = a.running ∙ v.running;
    inited = a.inited ∙ v.inited;
    placed = Placed-Over id p k.loop next o there k.mail k.counter v.placed;
    timed = subst (Timed next.timers next.timer_table next.task_table connecting') (sym a.ptr) (
        Timed-Over id p k.loop next o there k.connecting connecting' k.loop.next_ptr v.timed still);
    links = links;
    asked = asked;
    numbered = a.ids v.numbered;
    small = v.small;
    attempts =
        Attempts-Over id p k.loop next o there k.connecting connecting' k.mail k.counter v.placed
          known v.attempts;
    written = Written-Over id p k.loop next o there k.writing writing' fewer v.written;
  }

  Links-SameRest :
      (next : ClientLoop) → SameRest k.loop next → Links next.conn_table next.conns next.next_ptr
  Links-SameRest next r = rw (r.conn_table, r.conns, r.next_ptr) v.links

  -- The end of a task that touches nothing else.
  pub Sound-Concludes :
      (t : Task) (r : Outcome) (writing' : Ptr → Bool) (c : Concludes p t k.loop r)
      → t.task_id ≡ id
      → ((u : Task) → k.loop.tasks p ≡ some u → t.task_type ≡ u.task_type)
      → ((q : Ptr) → writing' q ≡ true → (k.writing q ≡ true) × ((q == p) ≡ false))
      → Goes (λ s. record k { loop = s; writing = writing' }) r
  Sound-Concludes t r writing' c own kind fewer = record {
    next = c.next;
    result = c.result;
    sound =
        Sound-Over c.next writing' k.connecting (Concludes-Over id c own kind)
          (record {
            running = c.rest.running;
            inited = c.rest.inited;
            ptr = c.rest.next_ptr;
            ids = λ n. rw (c.rest.conn_table, c.rest.next_conn_id) n;
          })
          fewer (λ d j e _. e) (λ d j e. e) (Links-SameRest c.next c.rest)
          (λ d j e. rw (c.rest.conns, c.rest.conn_table) (v.asked d j e));
  }

  -- A task of the table fails.
  pub Sound-fails :
      (e : ℕ) (writing' : Ptr → Bool)
      → ((q : Ptr) → writing' q ≡ true → (k.writing q ≡ true) × ((q == p) ≡ false))
      → Goes (λ s. record k { loop = s; writing = writing' }) (fail_task p e k.loop)
  Sound-fails e writing' fewer =
      let (t, at, own) = v.placed.own id p there in
      let (_, asleep, _) = listed-asleep id p t v.placed there at in
      Sound-Concludes (record t { err = e }) (fail_task p e k.loop) writing'
        (fail_task-Concludes p t e k.loop (Sound-Inv k v) at asleep) own
        (λ u at'. let same : t ≡ u = cc (at, at') in ap (λ (u : Task). u.task_type) same) fewer

  -- A new timer for a task of the table that has none.
  pub Sound-start_timer :
      (target : Option Ptr)
      → find id k.loop.timer_table ≡ none
      → ((c : Ptr) → target ≡ some c → k.connecting c ≡ some id)
      → (writing' : Ptr → Bool)
      → ((q : Ptr) → writing' q ≡ true → (k.writing q ≡ true) × ((q == p) ≡ false))
      → Sound (record k { loop = start_timer id target k.loop; writing = writing' })
  unfolding start_timer
  Sound-start_timer target idle aimed writing' fewer = record {
    running = v.running;
    inited = v.inited;
    placed = v.placed;
    timed = record {
      armed = λ j q e.
          let f = find-insert j id k.loop.next_ptr k.loop.timer_table in
          elim (Bool-cases (j == id)) [
            | inl same ↦ (
              record { task_id = id; target = target; closing = false },
              ground (arith, e, f, same),
              refl,
              ground (arith, same),
            )
            | inr other ↦
                let (td, at, runs, own) = v.timed.armed j q (ground (arith, e, f, other)) in
                (td, ground (arith, at, v.timed.fresh k.loop.next_ptr), runs, own)
          ];
      live = λ q td at runs. elim (Bool-cases (q == k.loop.next_ptr)) [
        | inl new ↦
            let n = k.loop.next_ptr in
            let added : TimerData = record { task_id = id; target = target; closing = false } in
            let e : some added ≡ some td = ground (arith, at, new) in
            let same : added ≡ td = cc e in
            subst
              (λ u.
                (find u.task_id (insert id n k.loop.timer_table) ≡ some q)
                × ((p : Ptr) × (find u.task_id k.loop.task_table ≡ some p))
                × ((c : Ptr) → u.target ≡ some c → k.connecting c ≡ some u.task_id))
              same (ground (arith, new, find-insert id id n k.loop.timer_table), (p, there), aimed)
        | inr old ↦
            let (a, b, c) = v.timed.live q td (ground (arith, at, old)) runs in
            (
              ground (arith, a, idle, find-insert td.task_id id k.loop.next_ptr k.loop.timer_table),
              b,
              c,
            )
      ];
      keys = IsMap-insert id k.loop.next_ptr k.loop.timer_table v.timed.keys;
      fresh = λ q new. ground (arith, v.timed.fresh q, new);
    };
    links = record {
      rows = v.links.rows;
      keys = v.links.keys;
      fresh = λ c new. v.links.fresh c (omega (arith, new));
    };
    asked = v.asked;
    attempts = v.attempts;
    numbered = v.numbered;
    small = v.small;
    written = λ q on.
        let (was, other) = fewer q on in
        let (t, at, kind, waits, none_yet) = v.written q was in
        (
          t,
          at,
          kind,
          waits,
          ground (
            arith,
            none_yet,
            waits,
            there,
            other,
            find-insert t.task_id id k.loop.next_ptr k.loop.timer_table,
          ),
        );
  }
