-- ===== src/Client/Sound/Calls.antt =====
-- The callers of a client, and the connections that are deleted.
use Prim.Native.String.{String}
use udpboardcast.Base.{
  ℕ, ◌+◌, ◌^◌, ◌<◌, ◌%◌, ◌≡◌, ◌⊎◌, refl, ◌∙◌, inl, inr, Bool, true, false, List, [], ◌∷◌, Option,
  none, some, ◌==◌, Bool-cases, Option-cases, arith,
}
use udpboardcast.Table.{find, erase}
use udpboardcast.Table.Laws.{find-erase, find_of_erase}
use udpboardcast.ClientLoop.{
  Ptr, put, rw_type, connect_type, Conn, Task, conn_changed, ClientLoop, set_task, cl_conn_find,
  cl_conn_del, report,
}
use udpboardcast.ClientLoop.Read.{close_cb}
use udpboardcast.ClientLoop.Invariant.{with_conn_lem}
use udpboardcast.ClientLoop.Keeps.{Present}
use udpboardcast.ClientLoop.Links.{Links-off, Links-delete}
use udpboardcast.Interface.{submitted, rw_task, conn_task, ssn_send, ssn_connect}
use udpboardcast.Client.{Client, mark}
use udpboardcast.Client.Sound.{Sound, mailed-absent, listed-asleep}
use udpboardcast.Client.Sound.Rules.{Goes}
use udpboardcast.Client.Sound.Parts.{Sound-conns}

-- `ssn_send` hands over the task of the request.
pub ssn_send-submitted :
    (p : Ptr) (stale counter conn_id : ℕ) (indata : Option (List ℕ)) (given : Bool) (timeout : ℕ)
    (s s' : ClientLoop) (n : ℕ)
    → ssn_send p stale counter conn_id indata given timeout s ≡ submitted n s'
    → (bytes : List ℕ) × (n ≡ (counter + 1) % 2 ^ 64)
      × (s' ≡ set_task p (rw_task stale counter conn_id bytes timeout) s)
unfolding ssn_send set_task
ssn_send-submitted p stale counter conn_id none given timeout s s' n e = cc e
ssn_send-submitted p stale counter conn_id (some []) given timeout s s' n e = cc e
ssn_send-submitted p stale counter conn_id (some (b ∷ bs)) given timeout s s' n e =
    (b ∷ bs, ground (arith, e), ground (arith, e))

-- `ssn_connect` hands over the task of the connection.
pub ssn_connect-submitted :
    (p : Ptr) (stale counter : ℕ) (ip : Option String) (timeout : ℕ) (s s' : ClientLoop) (n : ℕ)
    → ssn_connect p stale counter ip timeout s ≡ submitted n s'
    → (to : String) × (n ≡ (counter + 1) % 2 ^ 64)
      × (s' ≡ set_task p (conn_task stale counter to timeout) s)
unfolding ssn_connect set_task
ssn_connect-submitted p stale counter none timeout s s' n e = cc e
ssn_connect-submitted p stale counter (some ip) timeout s s' n e =
    (ip, ground (arith, e), ground (arith, e))

module _ (k : Client) (v : Sound k) where
  -- A new task, with the id of the counter.
  pub Sound-new_task :
      (p : Ptr) (t : Task)
      → k.loop.tasks p ≡ none
      → t.task_id ≡ k.counter
      → k.counter + 1 < 2 ^ 64
      → t.notified ≡ 0
      → (t.task_type ≡ rw_type) ⊎ (t.task_type ≡ connect_type)
      → Sound (record k {
        loop = set_task p t k.loop;
        counter = k.counter + 1;
        mail = mark k.mail p true;
      })
  unfolding set_task
  Sound-new_task p t free own small asleep kind = record {
    running = v.running;
    inited = v.inited;
    placed = record {
      one = λ q u at. elim (Bool-cases (q == p)) [
        | inl same ↦
            let e : some t ≡ some u = ground (arith, at, same) in
            let unlisted : find t.task_id k.loop.task_table ≡ none = absent in
            ground (arith, e, same, asleep, unlisted)
        | inr other ↦ ground (arith, v.placed.one q u (ground (arith, at, other)), other)
      ];
      mailed = λ q on. elim (Bool-cases (q == p)) [
        | inl same ↦ (t, rw same refl, kind)
        | inr other ↦
            let (u, at, is) = v.placed.mailed q (ground (arith, on, other)) in (u, rw other at, is)
      ];
      own = λ id q there.
          let (u, at, is) = v.placed.own id q there in (u, ground (arith, at, free), is);
      ids = λ q r u w at at' same. elim (Bool-cases (q == p)) [
        | inl here ↦ elim (Bool-cases (r == p)) [
          | inl here' ↦ ground (arith, here, here')
          | inr other' ↦
              let old = v.placed.below r w (ground (arith, at', other')) in
              let e : some t ≡ some u = ground (arith, at, here) in
              ground (arith, old, e, own, same)
        ]
        | inr other ↦ elim (Bool-cases (r == p)) [
          | inl here' ↦
              let old = v.placed.below q u (ground (arith, at, other)) in
              let e : some t ≡ some w = ground (arith, at', here') in
              ground (arith, old, e, own, same)
          | inr other' ↦
              v.placed.ids q r u w (ground (arith, at, other)) (ground (arith, at', other')) same
        ]
      ];
      below = λ q u at. elim (Bool-cases (q == p)) [
        | inl same ↦ let e : some t ≡ some u = ground (arith, at, same) in ground (arith, e, own)
        | inr other ↦ omega (arith, v.placed.below q u (ground (arith, at, other)))
      ];
      keys = v.placed.keys;
    };
    timed = v.timed;
    links = v.links;
    asked = v.asked;
    numbered = v.numbered;
    small = small;
    attempts = λ c id e.
        let (given, asks) = v.attempts c id e in
        (
          omega (arith, given),
          λ q u at same. elim (Bool-cases (q == p)) [
            | inl here ↦
                let e : some t ≡ some u = ground (arith, at, here) in
                ground (arith, e, own, same, given)
            | inr other ↦ asks q u (ground (arith, at, other)) same
          ],
        );
    written = λ q on.
        let (u, at, is, there, idle) = v.written q on in
        (u, ground (arith, at, free), is, there, idle);
  }
    where
      absent : find t.task_id k.loop.task_table ≡ none
      absent = elim (Option-cases (find t.task_id k.loop.task_table)) [
        | inl gone ↦ gone
        | inr (q, there) ↦
            let (u, at, is) = v.placed.own t.task_id q there in
            ground (arith, v.placed.below q u at, own, is)
      ]

  -- A call returns, and its task is gone.
  pub Sound-returns :
      (p : Ptr) (t : Task)
      → k.loop.tasks p ≡ some t
      → t.notified ≡ 1
      → Sound (record k { loop = record (k.loop) { tasks = put k.loop.tasks p none } })
  Sound-returns p t at woken = record {
    running = v.running;
    inited = v.inited;
    placed = record {
      one = λ q u here. v.placed.one q u (ground (arith, here));
      mailed = λ q on.
          let (u, here, is) = v.placed.mailed q on in
          let (asleep, _) = mailed-absent q u v.placed on here in
          (u, ground (arith, here, at, woken, asleep), is);
      own = λ id q there.
          let (u, here, is) = v.placed.own id q there in
          let (_, asleep, _) = listed-asleep id q u v.placed there here in
          (u, ground (arith, here, at, woken, asleep), is);
      ids = λ q r u w here here' same.
          v.placed.ids q r u w (ground (arith, here)) (ground (arith, here')) same;
      below = λ q u here. v.placed.below q u (ground (arith, here));
      keys = v.placed.keys;
    };
    timed = v.timed;
    links = v.links;
    asked = v.asked;
    numbered = v.numbered;
    small = v.small;
    attempts = λ c id e.
        let (given, asks) = v.attempts c id e in
        (given, λ q u here same. asks q u (ground (arith, here)) same);
    written = λ q on.
        let (u, here, is, there, idle) = v.written q on in
        let (_, asleep, _) = listed-asleep u.task_id q u v.placed there here in
        (u, ground (arith, here, at, woken, asleep), is, there, idle);
  }

  -- A connection that is not being made is deleted.
  pub close_cb-Goes :
      (c : Ptr) (x : Conn)
      → k.loop.conns c ≡ some x
      → k.connecting c ≡ none
      → Goes (λ s. record k { loop = s }) (close_cb c k.loop)
  unfolding close_cb cl_conn_find cl_conn_del report
  close_cb-Goes c x at done =
      let asked = λ (d : Ptr) (here : Present k.loop.conns d) (other : (d == c) ≡ false).
        let y : Present (put k.loop.conns c none) d = (here.0, rw other here.1) in y in
      elim (Option-cases (find x.conn_id k.loop.conn_table)) [
        | inl absent ↦ record {
          next = record (k.loop) { conns = put k.loop.conns c none };
          result = with_conn_lem c k.loop _ at ∙ ground (arith, absent);
          sound =
              Sound-conns k v k.loop.conn_table (put k.loop.conns c none) k.loop.events
                (λ j d there. there)
                (Links-off k.loop.conn_table k.loop.conns k.loop.next_ptr c x none at
                  (λ j there.
                    let (y, here, is) = v.links.rows j c there in
                    ground (arith, absent, there, here, at, is))
                  v.links)
                (λ d j e.
                  let (present, out) = v.asked d j e in
                  (asked d present (ground (arith, e, done)), out));
        }
        | inr (d, there) ↦ record {
          next = record (k.loop) {
            conns = put k.loop.conns c none;
            conn_table = erase x.conn_id k.loop.conn_table;
            events = conn_changed x.conn_id x.ip false ∷ k.loop.events;
          };
          result = with_conn_lem c k.loop _ at ∙ ground (arith, there);
          sound =
              Sound-conns k v (erase x.conn_id k.loop.conn_table) (put k.loop.conns c none)
                (conn_changed x.conn_id x.ip false ∷ k.loop.events)
                (λ j d here'. (find_of_erase k.loop.conn_table here').1)
                (Links-delete k.loop.conn_table k.loop.conns k.loop.next_ptr c x at v.links)
                (λ d j e.
                  let (present, out) = v.asked d j e in
                  (
                    asked d present (ground (arith, e, done)),
                    λ i listed.
                        out i (ground (arith, listed, find-erase i x.conn_id k.loop.conn_table)),
                  ));
        }
      ]
