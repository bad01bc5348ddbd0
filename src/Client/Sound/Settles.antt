-- ===== src/Client/Sound/Settles.antt =====
-- What the end of a connection attempt changes in the connections: `connect_cb`.
use udpboardcast.Base.{
  ℕ, ◌^◌, ◌<◌, ◌≤◌, ==_iff, ◌≡◌, ◌≢◌, refl, inl, inr, true, false, ◌∷◌, none, some, ◌==◌,
  Bool-cases, Option-cases, arith,
}
use udpboardcast.Table.{find, insert}
use udpboardcast.Table.Laws.{find-insert, find_of_insert}
use udpboardcast.GenId.{invalid_connid, apply_conn_id}
use udpboardcast.ClientLoop.{
  Ptr, put, Conn, conn_changed, ClientLoop, Outcome, ok, with_conn, set_conn, close_conn,
  cl_conn_add, report,
}
use udpboardcast.ClientLoop.Connect.{establish}
use udpboardcast.ClientLoop.Invariant.{close_conn_lem, put_self}
use udpboardcast.ClientLoop.Keeps.{Present, Present-put}
use udpboardcast.ClientLoop.Links.{Links, Links-put, Links-off, Links-insert}
use udpboardcast.ClientLoop.Connected.{opened, establish_lem}
use udpboardcast.Client.Sound.{Numbered}
use udpboardcast.Client.Sound.Rules.{Around}

-- The change that the end of an attempt makes to the connections of a state.
pub record Settles (c : Ptr) (s : ClientLoop) (r : Outcome) : Type 0 where
  pub next : ClientLoop
  pub result : r ≡ ok next
  pub tasks : next.tasks ≡ s.tasks
  pub task_table : next.task_table ≡ s.task_table
  pub timers : next.timers ≡ s.timers
  pub timer_table : next.timer_table ≡ s.timer_table
  pub around : Around s next
  pub links : Links next.conn_table next.conns next.next_ptr
  pub kept : (d : Ptr) → Present s.conns d → Present next.conns d
  pub out :
      (d : Ptr)
      → (d == c) ≡ false
      → ((j : ℕ) → find j s.conn_table ≢ some d)
      → (j : ℕ) → find j next.conn_table ≢ some d

apply_conn_id_bounds :
    (i : ℕ)
    → i < 2 ^ 16
    → ((apply_conn_id i).1 < 2 ^ 16) × (1 ≤ (apply_conn_id i).0) × ((apply_conn_id i).0 < 2 ^ 16)
unfolding apply_conn_id
apply_conn_id_bounds i low = elim (Bool-cases (i == invalid_connid)) [
  | inl zero_id ↦ rw zero_id (omega arith, omega (arith, (==_iff i 0).0 zero_id), omega arith)
  | inr used ↦ rw used (omega arith, ground (arith, used), low)
]

module _ (c : Ptr) (x : Conn) (s : ClientLoop) (at : s.conns c ≡ some x)
    (off : (j : ℕ) → find j s.conn_table ≢ some c) (v : Links s.conn_table s.conns s.next_ptr) where
  pub close_conn-Settles : Settles c s (close_conn c s)
  unfolding set_conn
  close_conn-Settles =
      let y : Conn = record x { closing = true } in
      record {
        next = set_conn c y s;
        result = close_conn_lem c x s at;
        tasks = refl;
        task_table = refl;
        timers = refl;
        timer_table = refl;
        around = record { running = refl; inited = refl; ptr = refl; ids = λ n. n };
        links = Links-put s.conn_table s.conns s.next_ptr c x y at refl v;
        kept = λ d here. Present-put s.conns c y d here;
        out = λ d other was. was;
      }

  free_ids :
      Numbered s.conn_table s.next_conn_id
      → Numbered
          (insert (apply_conn_id s.next_conn_id).0 c s.conn_table)
          (apply_conn_id s.next_conn_id).1
  free_ids (low, each) =
      let (next, from, to) = apply_conn_id_bounds s.next_conn_id low in
      (
        next,
        λ j d there. elim (find_of_insert s.conn_table there) [
          | inl (same, _) ↦ rw same (from, to)
          | inr (_, old) ↦ each j d old
        ],
      )

  taken_ids :
      Numbered s.conn_table s.next_conn_id → Numbered s.conn_table (apply_conn_id s.next_conn_id).1
  taken_ids (low, each) = ((apply_conn_id_bounds s.next_conn_id low).0, each)

  -- The id is free, and the connection enters the table.
  free-Settles :
      find (apply_conn_id s.next_conn_id).0 s.conn_table ≡ none → Settles c s (establish c s)
  free-Settles free =
      let id = (apply_conn_id s.next_conn_id).0 in
      let x' : Conn = record x { conn_id = id } in
      let y : Conn = record x' { reading = true } in
      let m1 = put s.conns c (some x') in
      let m2 = put m1 c (some x') in
      let l1 = Links-off s.conn_table s.conns s.next_ptr c x (some x') at off v in
      let l2 = Links-insert s.conn_table m1 s.next_ptr id c x' (put_self s.conns c x') off l1 in
      record {
        next = opened c x s;
        result = establish_lem c x s at free;
        tasks = refl;
        task_table = refl;
        timers = refl;
        timer_table = refl;
        around = record { running = refl; inited = refl; ptr = refl; ids = λ n. free_ids n };
        links =
            Links-put (insert id c s.conn_table) m2 s.next_ptr c x' y (put_self m1 c x') refl l2;
        kept = λ d here.
            Present-put m2 c y d (Present-put m1 c x' d (Present-put s.conns c x' d here));
        out = λ d other was j there.
            ground (arith, find-insert j id c s.conn_table, there, other, was j);
      }

  -- The id is taken: `cl_conn_add` refuses it, and the connection is read all the same.
  taken_lem :
      (d : Ptr)
      → find (apply_conn_id s.next_conn_id).0 s.conn_table ≡ some d
      → let (id, counter) = apply_conn_id s.next_conn_id in
        let x' : Conn = record x { conn_id = id } in
        establish c s
        ≡ ok (record s {
          next_conn_id = counter;
          conns = put (put s.conns c (some x')) c (some (record x' { reading = true }));
          events = conn_changed id x.ip true ∷ s.events;
        })
  unfolding establish with_conn set_conn cl_conn_add report
  taken_lem d there = ground (arith, at, there)

  taken-Settles :
      (d : Ptr)
      → find (apply_conn_id s.next_conn_id).0 s.conn_table ≡ some d
      → Settles c s (establish c s)
  taken-Settles d there =
      let x' : Conn = record x { conn_id = (apply_conn_id s.next_conn_id).0 } in
      let y : Conn = record x' { reading = true } in
      let m1 = put s.conns c (some x') in
      let l1 = Links-off s.conn_table s.conns s.next_ptr c x (some x') at off v in
      record {
        next = _;
        result = taken_lem d there;
        tasks = refl;
        task_table = refl;
        timers = refl;
        timer_table = refl;
        around = record { running = refl; inited = refl; ptr = refl; ids = λ n. taken_ids n };
        links = Links-put s.conn_table m1 s.next_ptr c x' y (put_self s.conns c x') refl l1;
        kept = λ e here. Present-put m1 c y e (Present-put s.conns c x' e here);
        out = λ e other was. was;
      }

  pub establish-Settles : Settles c s (establish c s)
  establish-Settles = elim (Option-cases (find (apply_conn_id s.next_conn_id).0 s.conn_table)) [
    | inl free ↦ free-Settles free
    | inr (d, there) ↦ taken-Settles d there
  ]
