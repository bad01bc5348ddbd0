-- ===== src/ServerLoop/Sound/Conns.antt =====
-- The callbacks of the server's connections keep the loop sound.
use udpboardcast.Base.{
  ℕ, ◌+◌, ◌≡◌, ◌≢◌, refl, sym, subst, inl, inr, true, false, List, [], ◌∷◌, none, some, ◌==◌, leb,
  length, Bool-cases, Option-cases, arith,
}
use udpboardcast.Table.{find}
use udpboardcast.Proto.{CommPkg, pkg_type_alive, pkg_type_common}
use udpboardcast.Stream.{Received, received, out_of_bounds, never_returns, receive}
use udpboardcast.GenId.{apply_conn_id}
use udpboardcast.ClientLoop.{Ptr, Conn, put}
use udpboardcast.ClientLoop.Read.{Nread, nothing, failed, bytes}
use udpboardcast.ServerLoop.{
  ServerLoop, ok, fault, hangs, with_conn, set_conn, close_conn, sl_conn_find, sl_conn_del,
  sl_conn_add,
}
use udpboardcast.ServerLoop.Requests.{
  server_handler_req, handle_pkg, handle_pkgs, handle_known, read_content,
}
use udpboardcast.ServerLoop.Listen.{
  Accepting, new_conn, start_reading, add_conn, listen_cb, lose_conn, read_cb, close_cb,
}
use udpboardcast.ClientLoop.Links.{Links-put, Links-erase, Links-delete, Links-new, Links-insert}
use udpboardcast.ServerLoop.Rows.{Rows}
use udpboardcast.ServerLoop.Accepted.{server_handler_req-Queued}
use udpboardcast.ServerLoop.Full.{server_handler_req-full}
use udpboardcast.ServerLoop.Sound.{
  Sound, Holds, Holds-bind, Sound-Frame, Holds-with_conn, Sound-conns,
}

set_conn-Sound :
    (c : Ptr) (x y : Conn) (s : ServerLoop)
    → s.conns c ≡ some x
    → y.conn_id ≡ x.conn_id
    → Sound s
    → Sound (set_conn c y s)
unfolding set_conn
set_conn-Sound c x y s at own v =
    Sound-conns s (set_conn c y s) (Links-put s.conn_table s.conns s.next_ptr c x y at own v.rows)
      refl (omega arith) v

sl_conn_del-Sound : (id : ℕ) (s : ServerLoop) → Sound s → Sound (sl_conn_del id s)
unfolding sl_conn_del
sl_conn_del-Sound id s v =
    Sound-conns s (sl_conn_del id s) (Links-erase s.conn_table s.conns s.next_ptr id v.rows) refl
      (omega arith) v

close_conn-Sound : (c : Ptr) (s : ServerLoop) → Sound s → Holds Sound (close_conn c s)
unfolding close_conn
close_conn-Sound c s v =
    Holds-with_conn c s (λ x. ok (set_conn c (record x { closing = true }) s))
      (λ x at. set_conn-Sound c x (record x { closing = true }) s at refl v)

start_reading-Sound : (c : Ptr) (s : ServerLoop) → Sound s → Holds Sound (start_reading c s)
unfolding start_reading
start_reading-Sound c s v =
    Holds-with_conn c s (λ x. ok (set_conn c (record x { reading = true }) s))
      (λ x at. set_conn-Sound c x (record x { reading = true }) s at refl v)

lose_conn-Sound : (c : Ptr) (s : ServerLoop) → Sound s → Holds Sound (lose_conn c s)
unfolding lose_conn
lose_conn-Sound c s v = Holds-with_conn c s _ (λ x at.
    let stopped = set_conn c (record x { reading = false }) s in
    Holds-bind Sound (close_conn c stopped) (λ s. ok (sl_conn_del x.conn_id s))
      (close_conn-Sound c stopped (set_conn-Sound c x (record x { reading = false }) s at refl v))
      (λ s' v'. sl_conn_del-Sound x.conn_id s' v'))

pub close_cb-Sound : (c : Ptr) (s : ServerLoop) → Sound s → Holds Sound (close_cb c s)
unfolding close_cb sl_conn_del
close_cb-Sound c s v = Holds-with_conn c s _ (λ x at.
    Sound-conns s (sl_conn_del x.conn_id (record s { conns = put s.conns c none }))
      (Links-delete s.conn_table s.conns s.next_ptr c x at v.rows) refl (omega arith) v)

server_handler_req-Sound :
    (stale conn_id task_id : ℕ) (content : List ℕ) (s : ServerLoop)
    → Sound s
    → Holds Sound (server_handler_req stale conn_id task_id content s)
server_handler_req-Sound stale conn_id task_id content s v =
    elim (Bool-cases (leb (length s.queue) 64)) [
      | inl room ↦
          let q =
            server_handler_req-Queued stale conn_id task_id content s v.life
              (ground (arith, room)) in
          subst (Holds Sound) (sym q.result) (Sound-Frame s q.next q.frame q.life v)
      | inr full ↦
          subst (Holds Sound)
            (sym (server_handler_req-full stale conn_id task_id content s (ground (arith, full))).0)
            tt
    ]

handle_pkg-Sound :
    (stale conn_id : ℕ) (pkg : CommPkg) (s : ServerLoop)
    → Sound s
    → Holds Sound (handle_pkg stale conn_id pkg s)
unfolding handle_pkg
handle_pkg-Sound stale conn_id pkg s v = elim (Bool-cases (pkg.pkg_type == pkg_type_common)) [
  | inl request ↦ rw request (server_handler_req-Sound stale conn_id pkg.task_id pkg.payload s v)
  | inr other ↦ elim (Bool-cases (pkg.pkg_type == pkg_type_alive)) [
    | inl alive ↦ rw (other, alive) v
    | inr bad ↦ rw (other, bad) tt
  ]
]

handle_pkgs-Sound :
    (stale conn_id : ℕ) (pkgs : List CommPkg) (s : ServerLoop)
    → Sound s
    → Holds Sound (handle_pkgs stale conn_id pkgs s)
unfolding handle_pkgs
handle_pkgs-Sound stale conn_id [] s v = v
handle_pkgs-Sound stale conn_id (pkg ∷ pkgs) s v =
    Holds-bind Sound (handle_pkg stale conn_id pkg s) (handle_pkgs stale conn_id pkgs)
      (handle_pkg-Sound stale conn_id pkg s v) (λ s' v'. handle_pkgs-Sound stale conn_id pkgs s' v')

handle_known-Sound :
    (stale conn_id : ℕ) (pkgs : List CommPkg) (s : ServerLoop)
    → Sound s
    → Holds Sound (handle_known stale conn_id pkgs s)
unfolding handle_known
handle_known-Sound stale conn_id pkgs s v = elim (Option-cases (sl_conn_find conn_id s)) [
  | inl gone ↦ rw (gone, handle_known) v
  | inr (c, there) ↦ rw (there, handle_known) (handle_pkgs-Sound stale conn_id pkgs s v)
]

received-Sound :
    (stale : ℕ) (c : Ptr) (x : Conn) (r : Received) (s : ServerLoop)
    → s.conns c ≡ some x
    → Sound s
    → Holds Sound (elim r [
      | received pkgs tcp ↦
          handle_known stale x.conn_id pkgs (set_conn c (record x { tcp = tcp }) s)
      | out_of_bounds ↦ fault
      | never_returns ↦ hangs
    ])
received-Sound stale c x (received pkgs tcp) s at v =
    handle_known-Sound stale x.conn_id pkgs (set_conn c (record x { tcp = tcp }) s)
      (set_conn-Sound c x (record x { tcp = tcp }) s at refl v)
received-Sound stale c x out_of_bounds s at v = tt
received-Sound stale c x never_returns s at v = tt

read_content-Sound :
    (stale : ℕ) (c : Ptr) (content : List ℕ) (s : ServerLoop)
    → Sound s
    → Holds Sound (read_content stale c content s)
unfolding read_content
read_content-Sound stale c content s v =
    Holds-with_conn c s _ (λ x at. received-Sound stale c x (receive x.tcp content) s at v)

pub read_cb-Sound :
    (stale : ℕ) (c : Ptr) (nread : Nread) (s : ServerLoop)
    → Sound s
    → Holds Sound (read_cb stale c nread s)
unfolding read_cb
read_cb-Sound stale c nothing s v = v
read_cb-Sound stale c (failed err) s v = lose_conn-Sound c s v
read_cb-Sound stale c (bytes content) s v = read_content-Sound stale c content s v

-- The connection is not in the table yet.
sl_conn_add-Sound :
    (id : ℕ) (c : Ptr) (s : ServerLoop)
    → ((j : ℕ) → find j s.conn_table ≢ some c)
    → Sound s
    → Holds Sound (sl_conn_add id c s)
unfolding sl_conn_add with_conn set_conn
sl_conn_add-Sound id c s new v = elim (Option-cases (find id s.conn_table)) [
  | inr (d, taken) ↦ rw (taken, sl_conn_add) v
  | inl free ↦ elim (Option-cases (s.conns c)) [
    | inl gone ↦ rw (free, gone, sl_conn_add, with_conn) tt
    | inr (x, at) ↦
        rw (free, at, sl_conn_add, with_conn)
          (Sound-conns s _ (Links-insert s.conn_table s.conns s.next_ptr id c x at new v.rows) refl
            (omega arith) v)
  ]
]

add_conn-Sound : (a : Accepting) (s : ServerLoop) → Sound s → Holds Sound (add_conn a s)
unfolding add_conn set_conn
add_conn-Sound a s v =
    let c = s.next_ptr in
    let (id, counter) = apply_conn_id s.next_conn_id in
    let s' : ServerLoop = record s {
      conns = put s.conns c (some (new_conn a));
      next_ptr = c + 1;
      next_conn_id = counter;
    } in
    let r = Links-new s.conn_table s.conns s.next_ptr (new_conn a) v.rows in
    let rows : Rows s' = record { rows = r.rows; keys = r.keys; fresh = r.fresh } in
    let v' : Sound s' = Sound-conns s s' rows refl (omega arith) v in
    let new : (j : ℕ) → find j s.conn_table ≢ some c = λ j there.
      let (x, at, _) = v.rows.rows j c there in
      let unused : s.conns c ≡ none = v.rows.fresh c (omega arith) in cc (at, unused) in
    Holds-bind Sound (sl_conn_add id c s') (start_reading c) (sl_conn_add-Sound id c s' new v')
      (λ s'' v''. start_reading-Sound c s'' v'')

pub listen_cb-Sound : (a : Accepting) (s : ServerLoop) → Sound s → Holds Sound (listen_cb a s)
unfolding listen_cb
listen_cb-Sound a s v = elim (Bool-cases (a.status == 0)) [
  | inr bad ↦ rw bad v
  | inl good ↦ elim (Bool-cases (a.inited == 0)) [
    | inr bad ↦
        let r = v.rows in
        let s' : ServerLoop = record s { next_ptr = s.next_ptr + 1 } in
        let rows : Rows s' = record {
          rows = r.rows;
          keys = r.keys;
          fresh = λ c new. r.fresh c (omega (arith, new));
        } in
        rw (good, bad) (Sound-conns s s' rows refl (omega arith) v)
    | inl ready ↦ elim (Bool-cases (a.accepted == 0)) [
      | inr bad ↦ rw (good, ready, bad) tt
      | inl taken ↦ elim (Bool-cases (a.named == 0)) [
        | inr bad ↦ rw (good, ready, taken, bad) tt
        | inl named ↦ rw (good, ready, taken, named) (add_conn-Sound a s v)
      ]
    ]
  ]
]
