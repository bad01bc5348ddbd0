-- ===== src/ServerLoop/Listen.antt =====
-- The connections of the server: `listen_cb`, `read_cb` and `close_cb` of
-- Communication/core/comm_core.cpp.
use Prim.Native.String.{String}
use udpboardcast.Base.{ℕ, ◌+◌, true, false, none, ◌==◌, if◌then◌else◌}
use udpboardcast.Stream.{fresh_tcp}
use udpboardcast.GenId.{apply_conn_id}
use udpboardcast.ClientLoop.{Ptr, Conn, put}
use udpboardcast.ClientLoop.Read.{Nread, nothing, failed, bytes}
use udpboardcast.ServerLoop.{
  ServerLoop, Outcome, ok, fault, ◌>>=◌, with_conn, set_conn, close_conn, sl_conn_add, sl_conn_del,
}
use udpboardcast.ServerLoop.Requests.{read_content}

-- What libuv answers to the calls of `listen_cb`, 0 for success, the peer's address, and what the
-- `connId` of a new connection holds before it is set.
pub record Accepting : Type 0 where
  pub status : ℕ
  pub inited : ℕ
  pub accepted : ℕ
  pub named : ℕ
  pub ip : String
  pub stale : ℕ

-- The connection that a successful `listen_cb` makes, before `sl_conn_add`.
abbrev pub new_conn : Accepting → Conn
new_conn a = record {
  conn_id = a.stale;
  ip = a.ip;
  tcp = fresh_tcp;
  reading = false;
  closing = false;
}

unfoldable pub start_reading : Ptr → ServerLoop → Outcome
unfolding with_conn set_conn
start_reading c s = with_conn c s λ x. ok (set_conn c (record x { reading = true }) s)

-- The end of `listen_cb`: the connection gets an id and is read. A refusal by `sl_conn_add` is not
-- looked at.
unfoldable pub add_conn : Accepting → ServerLoop → Outcome
unfolding set_conn sl_conn_add start_reading apply_conn_id
add_conn a s =
    let c = s.next_ptr in
    let (id, counter) = apply_conn_id s.next_conn_id in
    sl_conn_add id c
      (set_conn c (new_conn a) (record s { next_ptr = c + 1; next_conn_id = counter }))
    >>= start_reading c

-- `listen_cb`. After a failed `uv_accept` or `uv_tcp_getpeername` it frees the memory of a handle
-- that libuv still holds.
unfoldable pub listen_cb : Accepting → ServerLoop → Outcome
unfolding add_conn
listen_cb a s =
    if a.status == 0
    then if a.inited == 0
      then if a.accepted == 0 then if a.named == 0 then add_conn a s else fault else fault
      else ok (record s { next_ptr = s.next_ptr + 1 })
    else ok s

-- The case `nread < 0` of `read_cb` on the server loop.
unfoldable pub lose_conn : Ptr → ServerLoop → Outcome
unfolding with_conn set_conn close_conn sl_conn_del
lose_conn c s = with_conn c s λ x.
    close_conn c (set_conn c (record x { reading = false }) s) >>= λ s. ok (sl_conn_del x.conn_id s)

unfoldable pub read_cb : ℕ → Ptr → Nread → ServerLoop → Outcome
unfolding lose_conn read_content
read_cb stale c nothing s = ok s
read_cb stale c (failed err) s = lose_conn c s
read_cb stale c (bytes content) s = read_content stale c content s

-- `close_cb` for the handle of the connection at `c`, which is deleted.
unfoldable pub close_cb : Ptr → ServerLoop → Outcome
unfolding with_conn sl_conn_del
close_cb c s =
    with_conn c s λ x. ok (sl_conn_del x.conn_id (record s { conns = put s.conns c none }))
