-- ===== src/Client/Sound/Takes.antt =====
-- The loop takes a task that a caller has handed over: `async_cb`.
use udpboardcast.Base.{
  ℕ, ◌+◌, ◌≡◌, ◌≢◌, refl, sym, ap, ◌∙◌, inl, inr, true, false, none, some, ltb, ◌==◌, Bool-cases,
  Option-cases, arith,
}
use udpboardcast.Table.{find}
use udpboardcast.Table.Laws.{find-insert_self}
use udpboardcast.Errors.{err_conn_not_exist, err_conn_already_exist}
use udpboardcast.ClientLoop.{
  Ptr, put, rw_type, connect_type, Task, Conn, ClientLoop, ok, cl_task_add, cl_conn_find,
  cl_conn_find2, close_conn, set_conn,
}
use udpboardcast.ClientLoop.Tasks.{fail_task}
use udpboardcast.ClientLoop.Connect.{fresh_conn, new_conn, await_connect, refuse, ask_connect}
use udpboardcast.ClientLoop.Async.{
  UvResults, send_request, connect_started, start_connect, async_cb,
}
use udpboardcast.ClientLoop.Invariant.{close_conn_lem, put_self}
use udpboardcast.ClientLoop.Keeps.{Present-put}
use udpboardcast.ClientLoop.Links.{Links-put}
use udpboardcast.ClientLoop.Submit.{async_cb_lem, run_request, run_connect, refuse-fail}
use udpboardcast.Client.{Client, mark, write_begun, connect_begun, taken}
use udpboardcast.Client.Sound.{Sound}
use udpboardcast.Client.Sound.Rules.{Goes, Goes-by, Sound-fails, Sound-start_timer}
use udpboardcast.Client.Sound.Parts.{
  Sound-conns, Sound-new_conn, not_asked, Sound-asks, Sound-writes, mailed_idle, Sound-added,
}
use udpboardcast.Client.Sound.Branches.{
  send_absent, send_known, ask_good, ask_bad, ask_failed, do_connect_absent, do_connect_known,
}

module _ (k : Client) (v : Sound k) (p : Ptr) (t : Task) (sent : k.mail p ≡ true)
    (at : k.loop.tasks p ≡ some t) (uv : UvResults) where
  -- The client with the task in the table.
  added : Client
  added = record k { loop = cl_task_add t.task_id p k.loop; mail = mark k.mail p false }

  there : find t.task_id added.loop.task_table ≡ some p
  unfolding added cl_task_add
  there = find-insert_self t.task_id p k.loop.task_table

  idle : find t.task_id added.loop.timer_table ≡ none
  unfolding added cl_task_add
  idle = (mailed_idle k v p t sent at).0

  added-Sound : Sound added
  unfolding added
  added-Sound = Sound-added k v p t sent at

  unwritten : (q : Ptr) → k.writing q ≡ true → (k.writing q ≡ true) × ((q == p) ≡ false)
  unwritten q on = let (_, off) = mailed_idle k v p t sent at in (on, ground (arith, on, off))

  -- Nothing is left with libuv.
  ended :
      (e : ℕ)
      → write_begun t uv k.loop ≡ false
      → connect_begun t uv k.loop ≡ false
      → Goes (taken p t uv k) (fail_task p e added.loop)
  unfolding added cl_task_add
  ended e no_write no_connect =
      let g = Sound-fails added added-Sound t.task_id p there e k.writing unwritten in
      record { next = g.next; result = g.result; sound = rw (no_write, no_connect) g.sound }

  module _ (kind : t.task_type ≡ rw_type) where
    no_connect : connect_begun t uv k.loop ≡ false
    unfolding connect_begun
    no_connect = rw kind refl

    send_request-Goes : Goes (taken p t uv k) (send_request p t uv added.loop)
    unfolding write_begun added cl_task_add cl_conn_find
    send_request-Goes = elim (Option-cases (find t.conn_id k.loop.conn_table)) [
      | inl absent ↦
          Goes-by (send_absent p t uv added.loop absent)
            (ended err_conn_not_exist (rw (kind, absent) refl) no_connect)
      | inr (c, known) ↦ elim (Bool-cases (uv.written == 0)) [
        | inl good ↦ Goes-by (send_known p t uv c added.loop known ∙ rw good refl) (record {
          next = added.loop;
          result = refl;
          sound =
              rw (no_connect, kind, known, good)
                (Sound-writes added added-Sound p t at kind there idle);
        })
        | inr bad ↦
            Goes-by (send_known p t uv c added.loop known ∙ rw bad refl)
              (ended uv.written (rw (kind, known) bad) no_connect)
      ]
    ]

  module _ (kind : t.task_type ≡ connect_type) where
    no_write : write_begun t uv k.loop ≡ false
    unfolding write_begun
    no_write = rw kind refl

    -- The client with the new connection object.
    made : Client
    unfolding added
    made = record added { loop = new_conn t added.loop }

    made-Sound : Sound made
    unfolding made
    made-Sound = Sound-new_conn added added-Sound t

    here : made.loop.conns k.loop.next_ptr ≡ some (fresh_conn t)
    unfolding made added cl_task_add new_conn
    here = put_self k.loop.conns k.loop.next_ptr (fresh_conn t)

    unlisted : (j : ℕ) → find j k.loop.conn_table ≢ some k.loop.next_ptr
    unlisted j listed =
        let (x, held, _) = v.links.rows j k.loop.next_ptr listed in
        cc (held, v.links.fresh k.loop.next_ptr (omega arith))

    -- The connection request is with libuv, with its timer if the task has a timeout.
    asked_for :
        connect_begun t uv k.loop ≡ true
        → Goes (taken p t uv k) (ok (await_connect t k.loop.next_ptr made.loop))
    unfolding made added cl_task_add new_conn await_connect
    asked_for begun =
        let c = k.loop.next_ptr in
        let k' : Client = record made { connecting = put k.connecting c (some t.task_id) } in
        let v' : Sound k' =
          Sound-asks made made-Sound c t.task_id p t at refl kind (not_asked k v)
            (fresh_conn t, here) unlisted in
        record {
          next = await_connect t c made.loop;
          result = refl;
          sound =
              rw (no_write, begun)
                (elim (Bool-cases (ltb 0 t.timeout)) [
                  | inl limited ↦ rw limited (
                      Sound-start_timer k' v' t.task_id p there (some c) idle
                        (λ d e.
                          let f : c ≡ d = cc e in rw (← f) (put_self k.connecting c (t.task_id)))
                        k.writing unwritten)
                  | inr endless ↦ rw endless v'
                ]);
        }

    -- `uv_tcp_connect` has failed: the new handle is closed.
    not_asked_for :
        connect_begun t uv k.loop ≡ false
        → (n : ClientLoop) × (close_conn k.loop.next_ptr made.loop ≡ ok n)
          × Goes (taken p t uv k) (fail_task p uv.connected n)
    unfolding made added cl_task_add new_conn set_conn
    not_asked_for none_begun =
        let c = k.loop.next_ptr in
        let y : Conn = record (fresh_conn t) { closing = true } in
        let conns = put made.loop.conns c (some y) in
        let k' : Client = record made { loop = record (made.loop) { conns = conns } } in
        let v' : Sound k' =
          Sound-conns made made-Sound k.loop.conn_table conns k.loop.events (λ j d there. there)
            (Links-put k.loop.conn_table made.loop.conns (c + 1) c (fresh_conn t) y here refl
              made-Sound.links)
            (λ d j e.
              let (present, out) = made-Sound.asked d j e in
              (Present-put made.loop.conns c y d present, out)) in
        let g = Sound-fails k' v' t.task_id p there uv.connected k.writing unwritten in
        (
          k'.loop,
          close_conn_lem c (fresh_conn t) made.loop here,
          record { next = g.next; result = g.result; sound = rw (no_write, none_begun) g.sound },
        )

    ask_connect-Goes :
        cl_conn_find2 t.ip k.loop ≡ none
        → Goes
            (taken p t uv k)
            (connect_started p (ask_connect p t uv.inited uv.connected added.loop))
    unfolding connect_begun made added cl_task_add cl_conn_find2
    ask_connect-Goes absent = elim (Bool-cases (uv.inited == 0)) [
      | inl ready ↦ elim (Bool-cases (uv.connected == 0)) [
        | inl good ↦
            Goes-by (ap (connect_started p) (ask_good p t uv added.loop ready good))
              (asked_for (ground (arith, kind, absent, ready, good)))
        | inr bad ↦
            let (n, closed, g) = not_asked_for (ground (arith, kind, absent, ready, bad)) in
            Goes-by
              (ap (connect_started p)
                  (ask_bad p t uv added.loop ready bad ∙ ap (refuse p uv.connected) closed)
                ∙ refuse-fail p uv.connected n)
              g
      ]
      | inr failed ↦
          Goes-by
            (ap (connect_started p) (ask_failed p t uv added.loop failed)
              ∙ refuse-fail p uv.inited added.loop)
            (ended uv.inited no_write (ground (arith, kind, absent, failed)))
    ]

    start_connect-Goes : Goes (taken p t uv k) (start_connect p t uv added.loop)
    unfolding connect_begun start_connect added cl_task_add cl_conn_find2
    start_connect-Goes = elim (Option-cases (cl_conn_find2 t.ip k.loop)) [
      | inl absent ↦
          Goes-by (ap (connect_started p) (do_connect_absent p t uv added.loop absent))
            (ask_connect-Goes absent)
      | inr (c, known) ↦
          Goes-by
            (ap (connect_started p) (do_connect_known p t uv c added.loop known)
              ∙ refuse-fail p err_conn_already_exist added.loop)
            (ended err_conn_already_exist no_write (ground (arith, kind, known)))
    ]

-- Whatever libuv answers, the loop takes a task without a fault.
pub async_cb-Goes :
    (k : Client) (p : Ptr) (t : Task) (uv : UvResults)
    → Sound k
    → k.mail p ≡ true
    → k.loop.tasks p ≡ some t
    → Goes (taken p t uv k) (async_cb p uv k.loop)
unfolding added
async_cb-Goes k p t uv v sent at =
    let (u, at', kind) = v.placed.mailed p sent in
    let same : u ≡ t = cc (at, at') in
    Goes-by (async_cb_lem p t uv k.loop v.running v.inited at) (elim kind [
      | inl request ↦
          let e = ap (λ (u : Task). u.task_type) (sym same) ∙ request in
          Goes-by (run_request p t uv k.loop e) (send_request-Goes k v p t sent at uv e)
      | inr connecting ↦
          let e = ap (λ (u : Task). u.task_type) (sym same) ∙ connecting in
          Goes-by (run_connect p t uv k.loop e) (start_connect-Goes k v p t sent at uv e)
    ])
