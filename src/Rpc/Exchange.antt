-- ===== src/Rpc/Exchange.antt =====
-- A request and its answer: the client's side with the server's side in between.
use udpboardcast.Base.{
  ℕ, ◌+◌, ◌<◌, ◌^◌, ◌≡◌, refl, sym, ap, subst, ◌∙◌, true, List, [], ◌++◌, Option, some, arith,
  length,
}
use udpboardcast.Table.{find}
use udpboardcast.Proto.{CommPkg, encode, header_size, pkg_type_common, proto_build_package}
use udpboardcast.Stream.{pending}
use udpboardcast.Stream.Reassembly.{IsCache, IsSent, proto_build_package-IsSent}
use udpboardcast.ClientLoop.{Ptr, rw_type, Task, Conn, ClientLoop}
use udpboardcast.ClientLoop.Read.{bytes, read_cb}
use udpboardcast.ClientLoop.Invariant.{Inv}
use udpboardcast.ServerLoop.{ServerLoop}
use udpboardcast.ServerLoop.Requests.{worked}
use udpboardcast.ServerLoop.Async.{UvResults, task_pkg}
use udpboardcast.Rpc.Serve.{serve, Serves, serve-Serves}
use udpboardcast.Rpc.Returns.{Returns, read_cb-Returns}

some_inj : (p q : CommPkg) → some p ≡ some q → p ≡ q
some_inj p q e = cc e

built_as :
    (t : Task) (pkg : CommPkg)
    → t.task_type ≡ rw_type
    → task_pkg t.task_type t.task_id t.indata ≡ some pkg
    → proto_build_package t.indata pkg_type_common t.task_id ≡ pkg
unfolding task_pkg
built_as t pkg kind e = some_inj _ pkg (sym (ap (λ k. task_pkg k t.task_id t.indata) kind) ∙ e)

-- A request and its answer. When the read that completes the package of a request which waits on
-- the client comes to an idle server, and libuv takes the response, what the server writes is one
-- package for the same connection; and the read that completes that package on the client ends the
-- caller's wait: `async_send` returns 0 with exactly what the server's callback made of its data.
pub read_cb-serve :
    (cb : Option (List ℕ → List ℕ)) (stale c : ℕ) (x : Conn) (content : List ℕ) (uv : UvResults)
    (s : ServerLoop) (k : Ptr) (y : Conn) (content' : List ℕ) (pkg reply : CommPkg) (q : Ptr)
    (t : Task) (cl : ClientLoop)
    → s.running ≡ true
    → s.inited ≡ true
    → s.queue ≡ []
    → s.conns c ≡ some x
    → find x.conn_id s.conn_table ≡ some c
    → IsCache x.tcp
    → Inv cl
    → cl.conns k ≡ some y
    → IsCache y.tcp
    → find t.task_id cl.task_table ≡ some q
    → cl.tasks q ≡ some t
    → t.task_type ≡ rw_type
    → t.task_id < 2 ^ 64
    → length t.indata + header_size < 2 ^ 31
    → length (worked cb t.indata) + header_size < 2 ^ 31
    → uv.written ≡ 0
    → task_pkg t.task_type t.task_id t.indata ≡ some pkg
    → pending x.tcp ++ content ≡ encode pkg
    → reply ≡ proto_build_package (worked cb t.indata) pkg_type_common t.task_id
    → pending y.tcp ++ content' ≡ encode reply
    → Serves c reply s (serve cb stale c content uv s)
      × Returns q (worked cb t.indata) (read_cb k (bytes content') cl)
unfolding proto_build_package
read_cb-serve cb stale c x content uv s k y content' pkg reply q t cl running inited empty live
      there cache v live' cache' listed at kind numbered fits fits' good built whole answered
      whole' =
    let pkg' = proto_build_package t.indata pkg_type_common t.task_id in
    let same : pkg' ≡ pkg = built_as t pkg kind built in
    let sent : IsSent pkg' =
      proto_build_package-IsSent t.indata pkg_type_common t.task_id fits (omega arith) numbered in
    let served =
      serve-Serves cb stale c x content pkg' uv s running inited empty live there cache sent
        (whole ∙ ap encode (sym same)) refl good in
    let reply' = proto_build_package (worked cb t.indata) pkg_type_common t.task_id in
    let back : IsSent reply' =
      proto_build_package-IsSent (worked cb t.indata) pkg_type_common t.task_id fits' (omega arith)
        numbered in
    let returns =
      read_cb-Returns k y content' reply' q t cl v live' listed at kind cache' back
        (whole' ∙ ap encode answered) refl in
    (subst (λ r. Serves c r s (serve cb stale c content uv s)) (sym answered) served, returns)
