-- ===== src/Client/Sound/Parts.antt =====
-- The single changes of which the handlers of a client are made, against its invariant.
use udpboardcast.Base.{
  ℕ, ◌≡◌, ◌≢◌, sym, ap, subst, ◌∙◌, inl, inr, true, false, List, Option, none, some, ◌==◌,
  Bool-cases, Option-cases, arith,
}
use udpboardcast.Table.{Table, find}
use udpboardcast.Table.Laws.{find-insert, IsMap-insert}
use udpboardcast.ClientLoop.{Ptr, put, rw_type, connect_type, Task, Conn, Event, cl_task_add}
use udpboardcast.ClientLoop.Connect.{fresh_conn, new_conn}
use udpboardcast.ClientLoop.Keeps.{Present, Present-put}
use udpboardcast.ClientLoop.Links.{Links, Links-new}
use udpboardcast.Client.{Client, mark}
use udpboardcast.Client.Sound.{Asked, Sound, mailed-absent}

module _ (k : Client) (v : Sound k) where
  -- The connections change.
  pub Sound-conns :
      (m : Table Ptr) (conns : Ptr → Option Conn) (events : List Event)
      → ((j c : ℕ) → find j m ≡ some c → find j k.loop.conn_table ≡ some c)
      → Links m conns k.loop.next_ptr
      → Asked k.connecting conns m
      → Sound
          (record k { loop = record (k.loop) { conn_table = m; conns = conns; events = events } })
  Sound-conns m conns events fewer links asked = record {
    running = v.running;
    inited = v.inited;
    placed = v.placed;
    timed = v.timed;
    links = links;
    asked = asked;
    attempts = v.attempts;
    numbered = (v.numbered.0, λ j c there. v.numbered.1 j c (fewer j c there));
    small = v.small;
    written = v.written;
  }

  -- A new connection object.
  pub Sound-new_conn : (t : Task) → Sound (record k { loop = new_conn t k.loop })
  unfolding new_conn
  Sound-new_conn t = record {
    running = v.running;
    inited = v.inited;
    placed = v.placed;
    timed = record {
      armed = v.timed.armed;
      live = v.timed.live;
      keys = v.timed.keys;
      fresh = λ q new. v.timed.fresh q (omega (arith, new));
    };
    links =
        let r = Links-new k.loop.conn_table k.loop.conns k.loop.next_ptr (fresh_conn t) v.links in
        record { rows = r.rows; keys = r.keys; fresh = r.fresh };
    asked = λ c id e.
        let (present, out) = v.asked c id e in
        (Present-put k.loop.conns k.loop.next_ptr (fresh_conn t) c present, out);
    attempts = v.attempts;
    numbered = v.numbered;
    small = v.small;
    written = v.written;
  }

  -- Nothing is being made at an address that has not been given out.
  pub not_asked : k.connecting k.loop.next_ptr ≡ none
  not_asked = elim (Option-cases (k.connecting k.loop.next_ptr)) [
    | inl absent ↦ absent
    | inr (id, asked) ↦
        let ((x, at), _) = v.asked k.loop.next_ptr id asked in
        cc (at, v.links.fresh k.loop.next_ptr (omega arith))
  ]

  -- A connection request is handed to libuv.
  pub Sound-asks :
      (c id : ℕ) (p : Ptr) (t : Task)
      → k.loop.tasks p ≡ some t
      → t.task_id ≡ id
      → t.task_type ≡ connect_type
      → k.connecting c ≡ none
      → Present k.loop.conns c
      → ((j : ℕ) → find j k.loop.conn_table ≢ some c)
      → Sound (record k { connecting = put k.connecting c (some id) })
  Sound-asks c id p t at own kind unused here out = record {
    running = v.running;
    inited = v.inited;
    placed = v.placed;
    timed = record {
      armed = v.timed.armed;
      live = λ q td at runs.
          let (a, b, aimed) = v.timed.live q td at runs in
          (
            a,
            b,
            λ d e.
                let was = aimed d e in
                let other : (d == c) ≡ false = ground (arith, was, unused) in rw other was,
          );
      keys = v.timed.keys;
      fresh = v.timed.fresh;
    };
    links = v.links;
    asked = λ d j e. elim (Bool-cases (d == c)) [
      | inl same ↦
          let f : c ≡ d = ground (arith, same) in
          (subst (Present k.loop.conns) f here, λ l there. out l (there ∙ ap some (sym f)))
      | inr other ↦ v.asked d j (ground (arith, e, other))
    ];
    numbered = v.numbered;
    small = v.small;
    attempts = λ d j e. elim (Bool-cases (d == c)) [
      | inl same ↦
          let f : id ≡ j = ground (arith, e, same) in
          (
            omega (arith, v.placed.below p t at, own, f),
            λ q u at' own'.
                let g : p ≡ q = v.placed.ids p q t u at at' (own ∙ f ∙ sym own') in
                let w : some t ≡ some u = sym at ∙ ap k.loop.tasks g ∙ at' in
                ground (arith, w, kind),
          )
      | inr other ↦ v.attempts d j (ground (arith, e, other))
    ];
    written = v.written;
  }

  -- A write is handed to libuv.
  pub Sound-writes :
      (p : Ptr) (t : Task)
      → k.loop.tasks p ≡ some t
      → t.task_type ≡ rw_type
      → find t.task_id k.loop.task_table ≡ some p
      → find t.task_id k.loop.timer_table ≡ none
      → Sound (record k { writing = mark k.writing p true })
  Sound-writes p t at kind there idle = record {
    running = v.running;
    inited = v.inited;
    placed = v.placed;
    timed = v.timed;
    links = v.links;
    asked = v.asked;
    attempts = v.attempts;
    numbered = v.numbered;
    small = v.small;
    written = λ q on. elim (Bool-cases (q == p)) [
      | inl same ↦
          let e : q ≡ p = ground (arith, same) in
          (t, ap k.loop.tasks e ∙ at, kind, there ∙ ap some (sym e), idle)
      | inr other ↦ v.written q (ground (arith, on, other))
    ];
  }

  module _ (p : Ptr) (t : Task) (sent : k.mail p ≡ true) (at : k.loop.tasks p ≡ some t) where
    pub mailed_idle : (find t.task_id k.loop.timer_table ≡ none) × (k.writing p ≡ false)
    mailed_idle =
        let (asleep, absent) = mailed-absent p t v.placed sent at in
        (
          elim (Option-cases (find t.task_id k.loop.timer_table)) [
            | inl none_there ↦ none_there
            | inr (q, there) ↦
                let (td, held, runs, own) = v.timed.armed t.task_id q there in
                let (_, (w, waits), _) = v.timed.live q td held runs in
                cc (ap (λ j. find j k.loop.task_table) own, waits, absent)
          ],
          elim (Bool-cases (k.writing p)) [
            | inl on ↦
                let (u, at', _, waits, _) = v.written p on in
                let e : some u ≡ some t = sym at' ∙ at in ground (arith, e, waits, absent)
            | inr off ↦ off
          ],
        )

    -- The loop takes a task: it enters the table.
    pub Sound-added :
        Sound (record k { loop = cl_task_add t.task_id p k.loop; mail = mark k.mail p false })
    unfolding cl_task_add
    Sound-added =
        let (asleep, absent) = mailed-absent p t v.placed sent at in
        let f = λ (j : ℕ). find-insert j t.task_id p k.loop.task_table in
        record {
          running = v.running;
          inited = v.inited;
          placed = record {
            one = λ q u there. elim (Bool-cases (q == p)) [
              | inl same ↦
                  let e : some u ≡ some t =
                    sym there ∙ ap k.loop.tasks (ground (arith, same)) ∙ at in
                  ground (arith, same, e, asleep, f u.task_id)
              | inr other ↦
                  let apart : u.task_id ≢ t.task_id = λ e.
                    let same = v.placed.ids q p u t there at e in ground (arith, same, other) in
                  ground (arith, v.placed.one q u there, other, apart, f u.task_id)
            ];
            mailed = λ q on. v.placed.mailed q (ground (arith, on));
            own = λ j q there. elim (Bool-cases (j == t.task_id)) [
              | inl same ↦
                  let e : p ≡ q = ground (arith, there, same, f j) in
                  (t, ap k.loop.tasks (sym e) ∙ at, ground (arith, same))
              | inr other ↦ v.placed.own j q (ground (arith, there, other, f j))
            ];
            ids = v.placed.ids;
            below = v.placed.below;
            keys = IsMap-insert t.task_id p k.loop.task_table v.placed.keys;
          };
          timed = record {
            armed = v.timed.armed;
            live = λ q td held runs.
                let (a, (w, waits), c) = v.timed.live q td held runs in
                (
                  a,
                  elim (Bool-cases (td.task_id == t.task_id)) [
                    | inl same ↦ (p, ground (arith, same, f td.task_id))
                    | inr other ↦ (w, ground (arith, other, waits, f td.task_id))
                  ],
                  c,
                );
            keys = v.timed.keys;
            fresh = v.timed.fresh;
          };
          links = v.links;
          asked = v.asked;
          attempts = v.attempts;
          numbered = v.numbered;
          small = v.small;
          written = λ q on.
              let (u, there, kind, waits, idle) = v.written q on in
              (u, there, kind, ground (arith, waits, absent, f u.task_id), idle);
        }
