-- ===== src/ClientLoop/Connected.antt =====
-- The end of a connection attempt: `connect_cb` with a task that waits.
use udpboardcast.Base.{
  ℕ, ◌≡◌, ◌≢◌, refl, sym, ap, ◌∙◌, ◌⊎◌, inl, inr, true, false, ◌∷◌, some, none, ◌==◌, if◌then◌else◌,
  subst, Bool-cases, arith,
}
use udpboardcast.Table.{find, insert, erase}
use udpboardcast.Table.Laws.{find-insert_self}
use udpboardcast.GenId.{apply_conn_id}
use udpboardcast.ClientLoop.{
  Ptr, put, Conn, Task, conn_changed, ClientLoop, Outcome, ok, ◌>>=◌, with_conn, set_conn, set_err,
  close_conn, cl_task_find, cl_task_del, cl_conn_add, report,
}
use udpboardcast.ClientLoop.Tasks.{finish_task, fail_task}
use udpboardcast.ClientLoop.Connect.{establish, connect_cb}
use udpboardcast.ClientLoop.Invariant.{Inv, SameRest, put_self, with_task_lem, close_conn_lem}
use udpboardcast.ClientLoop.Finish.{Settled}
use udpboardcast.ClientLoop.Conclude.{fail_task-Concludes}
use udpboardcast.ClientLoop.Answer.{dropped, dropped-Inv}

-- The connection at `c` is in the table under the id that is next, and read, and the user is told.
abbrev pub IsOpen : Ptr → Conn → ClientLoop → ClientLoop → Type 0
IsOpen c x s next =
    let id = (apply_conn_id s.next_conn_id).0 in
    (next.conns c ≡ some (record x { conn_id = id; reading = true }))
    × (find id next.conn_table ≡ some c)
    × (next.events ≡ conn_changed id x.ip true ∷ s.events)

-- Its handle is closed, and neither the table nor the user knows of it.
abbrev pub IsShut : Ptr → Conn → ClientLoop → ClientLoop → Type 0
IsShut c x s next =
    (next.conns c ≡ some (record x { closing = true }))
    × (next.conn_table ≡ s.conn_table)
    × (next.events ≡ s.events)

pub record Connected (c p : Ptr) (x : Conn) (t : Task) (status : ℕ) (s : ClientLoop) (r : Outcome)
    : Type 0 where
  pub next : ClientLoop
  pub result : r ≡ ok next
  pub inv : Inv next
  pub settled : Settled p (record t { err = status }) next
  pub fate : ((status ≡ 0) × IsOpen c x s next) ⊎ ((status ≢ 0) × IsShut c x s next)
  pub others : (q : Ptr) → (q == p) ≡ false → next.tasks q ≡ s.tasks q

abbrev pub opened : Ptr → Conn → ClientLoop → ClientLoop
opened c x s =
    let (id, counter) = apply_conn_id s.next_conn_id in
    let x' : Conn = record x { conn_id = id } in
    record s {
      next_conn_id = counter;
      conns =
          put (put (put s.conns c (some x')) c (some x')) c (some (record x' { reading = true }));
      conn_table = insert id c s.conn_table;
      events = conn_changed id x.ip true ∷ s.events;
    }

pub establish_lem :
    (c : Ptr) (x : Conn) (s : ClientLoop)
    → s.conns c ≡ some x
    → find (apply_conn_id s.next_conn_id).0 s.conn_table ≡ none
    → establish c s ≡ ok (opened c x s)
unfolding establish with_conn set_conn cl_conn_add report
establish_lem c x s at free = ground (arith, at, free)

opened_conn :
    (c : Ptr) (x : Conn) (s : ClientLoop)
    → (opened c x s).conns c
      ≡ some (record x { conn_id = (apply_conn_id s.next_conn_id).0; reading = true })
opened_conn c x s = ground arith

-- Through the steps around it.
opened_IsOpen :
    (c : Ptr) (x : Conn) (s s1 s2 next : ClientLoop)
    → SameRest s s1
    → s2 ≡ opened c x s1
    → SameRest s2 next
    → IsOpen c x s next
opened_IsOpen c x s s1 s2 next before now after =
    let id = (apply_conn_id s1.next_conn_id).0 in
    (
      ap (λ m. m c) (after.conns ∙ ap (λ s. s.conns) now)
          ∙ opened_conn c x s1
          ∙ ap (λ i. some (record x { conn_id = (apply_conn_id i).0; reading = true }))
              before.next_conn_id,
      ap (λ i. find (apply_conn_id i).0 next.conn_table) (sym before.next_conn_id)
          ∙ ap (find id) (after.conn_table ∙ ap (λ s. s.conn_table) now)
          ∙ find-insert_self id c s1.conn_table,
      after.events
          ∙ ap (λ s. s.events) now
          ∙ ap (λ i. conn_changed (apply_conn_id i).0 x.ip true ∷ s1.events) before.next_conn_id
          ∙ ap (◌∷◌ (conn_changed (apply_conn_id s.next_conn_id).0 x.ip true)) before.events,
    )

set_conn-IsShut :
    (c : Ptr) (x : Conn) (s s1 next : ClientLoop)
    → SameRest s s1
    → SameRest (set_conn c (record x { closing = true }) s1) next
    → IsShut c x s next
unfolding set_conn
set_conn-IsShut c x s s1 next before after = (
  ap (λ m. m c) after.conns ∙ put_self s1.conns c (record x { closing = true }),
  after.conn_table ∙ before.conn_table,
  after.events ∙ before.events,
)

set_conn-Inv :
    (c : Ptr) (x : Conn) (s : ClientLoop) → Inv s → Inv (set_conn c (record x { closing = true }) s)
unfolding set_conn
set_conn-Inv c x s v = record { waiting = v.waiting; once = v.once; ticking = v.ticking }

dropped_rest : (id : ℕ) (s : ClientLoop) (v : Inv s) → SameRest s (dropped id s v).next
dropped_rest id s v =
    let r = (dropped id s v).rest in
    record {
      running = r.running;
      inited = r.inited;
      conn_table = r.conn_table;
      conns = r.conns;
      next_ptr = r.next_ptr;
      events = r.events;
      next_conn_id = r.next_conn_id;
    }

pub connect_lem :
    (id c p : ℕ) (t : Task) (status : ℕ) (s : ClientLoop) (v : Inv s)
    → find id s.task_table ≡ some p
    → s.tasks p ≡ some t
    → t.task_id ≡ id
    → let s' = (dropped id s v).next in
      connect_cb id c status s ≡ (
        (if status == 0
          then establish c s' >>= set_err p 0
          else close_conn c s' >>= set_err p status)
        >>= finish_task p)
unfolding connect_cb cl_task_find cl_task_del
connect_lem id c p t status s v there at own =
    rw (there, connect_cb)
      (with_task_lem p (record s { task_table = erase id s.task_table }) _ at
        ∙ rw (own, (dropped id s v).result) refl)

-- When a connection attempt ends while its task waits, the caller is woken once with the status: on
-- success the connection is in the table under the next id, if that is free, and read, and the user
-- is told; on failure its handle is closed and nobody else learns of it.
pub connect_cb-Connected :
    (id c p : ℕ) (x : Conn) (t : Task) (status : ℕ) (s : ClientLoop)
    → Inv s
    → find id s.task_table ≡ some p
    → s.tasks p ≡ some t
    → s.conns c ≡ some x
    → find (apply_conn_id s.next_conn_id).0 s.conn_table ≡ none
    → Connected c p x t status s (connect_cb id c status s)
unfolding fail_task set_conn
connect_cb-Connected id c p x t status s v there at live free =
    let w = v.waiting id p there in
    let own : t.task_id ≡ id = ground (arith, w.own_id, w.at, at) in
    let asleep : t.notified ≡ 0 = ground (arith, w.asleep, w.at, at) in
    let d = dropped id s v in
    let run = connect_lem id c p t status s v there at own in
    let at' : d.next.tasks p ≡ some t = ap (λ m. m p) d.tasks ∙ at in
    let live' : d.next.conns c ≡ some x = ap (λ m. m c) d.rest.conns ∙ live in
    let v' = dropped-Inv id s v in
    let kept = dropped_rest id s v in
    elim (Bool-cases (status == 0)) [
      | inl good ↦
          let free' : find (apply_conn_id d.next.next_conn_id).0 d.next.conn_table ≡ none =
            rw (d.rest.next_conn_id, d.rest.conn_table) free in
          let s2 = opened c x d.next in
          let k =
            fail_task-Concludes p t 0 s2
              (record { waiting = v'.waiting; once = v'.once; ticking = v'.ticking }) at' asleep in
          let zero : status ≡ 0 = ground (arith, good) in
          record {
            next = k.next;
            result =
                run
                ∙ rw good refl
                ∙ ap (λ r. r >>= set_err p 0 >>= finish_task p)
                    (establish_lem c x d.next live' free')
                ∙ k.result;
            inv = k.inv;
            settled = subst (λ e. Settled p (record t { err = e }) k.next) (sym zero) k.settled;
            fate = inl (zero, opened_IsOpen c x _ d.next s2 k.next kept refl k.rest);
            others = λ q other. k.others q other ∙ ap (λ m. m q) d.tasks;
          }
      | inr bad ↦
          let s2 = set_conn c (record x { closing = true }) d.next in
          let k = fail_task-Concludes p t status s2 (set_conn-Inv c x d.next v') at' asleep in
          record {
            next = k.next;
            result =
                run
                ∙ rw bad refl
                ∙ ap (λ r. r >>= set_err p status >>= finish_task p)
                    (close_conn_lem c x d.next live')
                ∙ k.result;
            inv = k.inv;
            settled = k.settled;
            fate = inr (
              λ e. cc (bad, ap (λ k. k == 0) e),
              set_conn-IsShut c x s d.next k.next kept k.rest,
            );
            others = λ q other. k.others q other ∙ ap (λ m. m q) d.tasks;
          }
    ]
