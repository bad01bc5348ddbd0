-- ===== src/Rpc/Serve.antt =====
-- The server's half of a request: `read_cb`, a thread of the pool with `svr_work_cb`, and `async_cb`.
use udpboardcast.Base.{
  ℕ, ◌+◌, ◌≤◌, ◌≡◌, refl, ap, ◌∙◌, true, List, [], ◌∷◌, ◌++◌, Option, some, arith, length,
}
use udpboardcast.Table.{find}
use udpboardcast.Proto.{CommPkg, encode, pkg_type_common, proto_build_package}
use udpboardcast.Stream.{CommTcp, pending}
use udpboardcast.Stream.Reassembly.{IsCache, IsSent}
use udpboardcast.ClientLoop.{Ptr, resp_type, Task, Conn, put}
use udpboardcast.ClientLoop.Invariant.{put_self}
use udpboardcast.ClientLoop.Read.{bytes}
use udpboardcast.ServerLoop.{
  ServerLoop, Outcome, ok, ◌>>=◌, with_conn, set_conn, sl_conn_find, sl_create_async, remove,
}
use udpboardcast.ServerLoop.Requests.{
  resp_task, handle_pkg, handle_pkgs, handle_known, read_content, take_job, worked, svr_work_cb,
}
use udpboardcast.ServerLoop.Listen.{read_cb}
use udpboardcast.ServerLoop.Async.{UvResults, send_response, async_cb}
use udpboardcast.ServerLoop.Responses.{respond_lem, async_cb_lem}
use udpboardcast.ServerLoop.Accepted.{request_lem, work_lem}
use udpboardcast.Rpc.{receive-last}

-- The read that completes a request, the job for it, and the response in the loop. The request's
-- task is at `s.next_ptr`.
abbrev pub serve : Option (List ℕ → List ℕ) → ℕ → Ptr → List ℕ → UvResults → ServerLoop → Outcome
serve cb stale c content uv s =
    read_cb stale c (bytes content) s
    >>= (λ s'. svr_work_cb cb s.next_ptr (take_job s'))
    >>= async_cb cb s.next_ptr uv

-- The server once the request is a job.
abbrev pub asked : ℕ → ℕ → CommPkg → ServerLoop → ServerLoop
asked stale conn_id pkg s = record s {
  tasks = put s.tasks s.next_ptr (some (resp_task stale conn_id pkg.task_id pkg.payload));
  next_ptr = s.next_ptr + 1;
  queue = s.queue ++ s.next_ptr ∷ [];
}

abbrev pub with_cache : Ptr → Conn → CommTcp → ServerLoop → ServerLoop
with_cache c x tcp s = record s { conns = put s.conns c (some (record x { tcp = tcp })) }

handle_one :
    (stale conn_id c : ℕ) (pkg : CommPkg) (s : ServerLoop)
    → find conn_id s.conn_table ≡ some c
    → pkg.pkg_type ≡ pkg_type_common
    → length s.queue ≤ 64
    → handle_known stale conn_id (pkg ∷ []) s ≡ ok (asked stale conn_id pkg s)
unfolding handle_known sl_conn_find handle_pkgs handle_pkg
handle_one stale conn_id c pkg s there common room =
    let step : handle_pkg stale conn_id pkg s ≡ ok (asked stale conn_id pkg s) =
      rw (common, handle_pkg) (request_lem stale conn_id pkg.task_id pkg.payload s room) in
    rw (there, handle_known, sl_conn_find) (ap (λ r. r >>= handle_pkgs stale conn_id []) step)

pub read_lem :
    (stale c : ℕ) (x : Conn) (content : List ℕ) (pkg : CommPkg) (s : ServerLoop)
    → s.conns c ≡ some x
    → find x.conn_id s.conn_table ≡ some c
    → IsCache x.tcp
    → IsSent pkg
    → pending x.tcp ++ content ≡ encode pkg
    → pkg.pkg_type ≡ pkg_type_common
    → length s.queue ≤ 64
    → (tcp : CommTcp) × (read_cb stale c (bytes content) s
        ≡ ok (asked stale x.conn_id pkg (with_cache c x tcp s)))
unfolding read_cb read_content with_conn set_conn
read_lem stale c x content pkg s at there cache sent whole common room =
    let r = receive-last x.tcp content pkg cache sent whole in
    let s' = with_cache c x r.next s in
    (
      r.next,
      rw (at, r.result, read_cb, read_content, with_conn)
          (handle_one stale x.conn_id c pkg s' there common room),
    )

take_lem :
    (p : Ptr) (s : ServerLoop)
    → s.queue ≡ p ∷ []
    → take_job s ≡ record s { queue = []; working = p ∷ s.working }
unfolding take_job
take_lem p s e = rw (e, take_job)

send_lem :
    (p : Ptr) (t : Task) (c : Ptr) (x : Conn) (uv : UvResults) (s : ServerLoop)
    → t.task_type ≡ resp_type
    → find t.conn_id s.conn_table ≡ some c
    → s.conns c ≡ some x
    → uv.written ≡ 0
    → send_response p t uv.written s
      ≡ ok (record s {
        sent = (c, proto_build_package t.indata pkg_type_common t.task_id) ∷ s.sent;
        writing = p ∷ s.writing;
      })
unfolding send_response sl_conn_find
send_lem p t c x uv s kind there live good =
    rw (there, send_response) (respond_lem p t c x uv.written s kind live ∙ ground (arith, good))

-- The server has handed one more package to libuv, for the connection at `c`.
pub record Serves (c : Ptr) (reply : CommPkg) (s : ServerLoop) (r : Outcome) : Type 0 where
  pub next : ServerLoop
  pub result : r ≡ ok next
  pub sent : next.sent ≡ (c, reply) ∷ s.sent

respond_to :
    (cb : Option (List ℕ → List ℕ)) (stale conn_id c : ℕ) (x : Conn) (pkg : CommPkg)
    (uv : UvResults) (s : ServerLoop)
    → s.running ≡ true
    → s.inited ≡ true
    → s.queue ≡ []
    → s.conns c ≡ some x
    → find conn_id s.conn_table ≡ some c
    → uv.written ≡ 0
    → Serves c (proto_build_package (worked cb pkg.payload) pkg_type_common pkg.task_id) s (
        svr_work_cb cb s.next_ptr (take_job (asked stale conn_id pkg s))
        >>= async_cb cb s.next_ptr uv)
unfolding sl_create_async resp_task
respond_to cb stale conn_id c x pkg uv s running inited empty at there good =
    let p = s.next_ptr in
    let t = resp_task stale conn_id pkg.task_id pkg.payload in
    let t' : Task = record t { indata = worked cb t.indata } in
    let s1 = asked stale conn_id pkg s in
    let s2 : ServerLoop = record s1 { queue = []; working = p ∷ s.working } in
    let s3 : ServerLoop = record s2 {
      tasks = put s2.tasks p (some t');
      working = remove p s2.working;
      mail = p ∷ s2.mail;
    } in
    let s4 : ServerLoop = record s3 { mail = remove p s3.mail } in
    let taken : take_job s1 ≡ s2 = take_lem p s1 (rw empty) in
    let working : svr_work_cb cb p s2 ≡ ok s3 =
      work_lem cb p t s2 (put_self s.tasks p t) (ground (arith, running, inited)) in
    let mailed : async_cb cb p uv s3 ≡ send_response p t' uv.written s4 =
      async_cb_lem cb p t' uv s3 running inited (put_self s2.tasks p t') refl in
    record {
      next = record s4 {
        sent = (c, proto_build_package t'.indata pkg_type_common t'.task_id) ∷ s.sent;
        writing = p ∷ s.writing;
      };
      result =
          ap (λ s. svr_work_cb cb p s >>= async_cb cb p uv) taken
          ∙ ap (λ r. r >>= async_cb cb p uv) working
          ∙ mailed
          ∙ send_lem p t' c x uv s4 refl there at good;
      sent = refl;
    }

-- When the last byte of a request arrives at an idle server, the pool's callback is run on exactly
-- its payload, and what that leaves is written, with the id of the request, to the same connection.
pub serve-Serves :
    (cb : Option (List ℕ → List ℕ)) (stale c : ℕ) (x : Conn) (content : List ℕ) (pkg : CommPkg)
    (uv : UvResults) (s : ServerLoop)
    → s.running ≡ true
    → s.inited ≡ true
    → s.queue ≡ []
    → s.conns c ≡ some x
    → find x.conn_id s.conn_table ≡ some c
    → IsCache x.tcp
    → IsSent pkg
    → pending x.tcp ++ content ≡ encode pkg
    → pkg.pkg_type ≡ pkg_type_common
    → uv.written ≡ 0
    → Serves c
        (proto_build_package (worked cb pkg.payload) pkg_type_common pkg.task_id)
        s
        (serve cb stale c content uv s)
serve-Serves cb stale c x content pkg uv s running inited empty at there cache sent whole common
      good =
    let p = s.next_ptr in
    let (tcp, arrived) =
      read_lem stale c x content pkg s at there cache sent whole common
        (omega (arith, ap length empty)) in
    let x' : Conn = record x { tcp = tcp } in
    let r =
      respond_to cb stale x.conn_id c x' pkg uv (with_cache c x tcp s) running inited empty
        (put_self s.conns c x') there good in
    record {
      next = r.next;
      result =
          ap (λ r. r >>= (λ s'. svr_work_cb cb p (take_job s')) >>= async_cb cb p uv) arrived
          ∙ r.result;
      sent = r.sent;
    }
