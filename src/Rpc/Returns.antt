-- ===== src/Rpc/Returns.antt =====
-- The client's half: the read that brings the answer, and the return of `async_send`.
use udpboardcast.Base.{ℕ, ◌≡◌, ap, List, [], ◌++◌, some}
use udpboardcast.Table.{find}
use udpboardcast.Proto.{CommPkg, encode, pkg_type_common}
use udpboardcast.Stream.{pending}
use udpboardcast.Stream.Reassembly.{IsCache, IsSent}
use udpboardcast.ClientLoop.{
  Ptr, rw_type, Task, Conn, ClientLoop, Outcome, ok, ◌>>=◌, with_conn, set_conn,
}
use udpboardcast.ClientLoop.Read.{bytes, handle_pkgs, read_content, read_cb}
use udpboardcast.ClientLoop.Invariant.{Inv}
use udpboardcast.Interface.{async_send_result}
use udpboardcast.Interface.Returns.{async_send_result-handle_pkg}
use udpboardcast.Rpc.{receive-last}

-- The caller of the request at `q` is awake, and `async_send` returns 0 with this data.
pub record Returns (q : Ptr) (outdata : List ℕ) (r : Outcome) : Type 0 where
  pub next : ClientLoop
  pub result : r ≡ ok next
  pub task : Task
  pub at : next.tasks q ≡ some task
  pub woken : task.notified ≡ 1
  pub answer : async_send_result task ≡ (0, some outdata)

set_conn-Inv : (k : Ptr) (y : Conn) (s : ClientLoop) → Inv s → Inv (set_conn k y s)
unfolding set_conn
set_conn-Inv k y s v = record { waiting = v.waiting; once = v.once; ticking = v.ticking }

-- The read that completes the answer to a request which waits ends its caller's wait.
pub read_cb-Returns :
    (k : Ptr) (y : Conn) (content : List ℕ) (reply : CommPkg) (q : Ptr) (t : Task) (s : ClientLoop)
    → Inv s
    → s.conns k ≡ some y
    → find reply.task_id s.task_table ≡ some q
    → s.tasks q ≡ some t
    → t.task_type ≡ rw_type
    → IsCache y.tcp
    → IsSent reply
    → pending y.tcp ++ content ≡ encode reply
    → reply.pkg_type ≡ pkg_type_common
    → Returns q reply.payload (read_cb k (bytes content) s)
unfolding read_cb read_content with_conn set_conn handle_pkgs
read_cb-Returns k y content reply q t s v live listed at kind cache sent whole common =
    let r = receive-last y.tcp content reply cache sent whole in
    let s' = set_conn k (record y { tcp = r.next }) s in
    let (next, task, result, held, woken, answer) =
      async_send_result-handle_pkg y.conn_id reply q t s' (set_conn-Inv k _ s v) common listed at
        kind in
    record {
      next = next;
      result =
          rw (live, r.result, read_cb, read_content, with_conn)
            (ap (λ r. r >>= handle_pkgs y.conn_id []) result);
      task = task;
      at = held;
      woken = woken;
      answer = answer;
    }
