-- ===== src/Examples/Rpc.antt =====
-- One request from the client of the loop examples to the server of the server examples.
use udpboardcast.Base.{refl, [], ◌∷◌, List, ℕ, arith, some}
use udpboardcast.Table.{find}
use udpboardcast.Proto.{CommPkg, encode, pkg_type_common, proto_build_package}
use udpboardcast.Stream.Reassembly.{fresh_tcp-IsCache}
use udpboardcast.ClientLoop.Read.{bytes, read_cb}
use udpboardcast.ServerLoop.Async.{task_pkg}
use udpboardcast.Rpc.Serve.{serve, Serves}
use udpboardcast.Rpc.Returns.{Returns}
use udpboardcast.Rpc.Exchange.{read_cb-serve}
use udpboardcast.Examples.Loop.{request, server_conn, waiting_loop, waiting_loop-Inv}
use udpboardcast.Examples.Server.{client_conn, quiet, all_sent}

-- The callback puts a byte in front.
abbrev greet : List ℕ → List ℕ
greet d = 33 ∷ d

abbrev asked : CommPkg
asked = proto_build_package (104 ∷ []) pkg_type_common 7

abbrev told : CommPkg
told = proto_build_package (33 ∷ 104 ∷ []) pkg_type_common 7

read_cb-serve_example :
    Serves 200 told quiet (serve (some greet) 0 200 (encode asked) all_sent quiet)
    × Returns 100 (33 ∷ 104 ∷ []) (read_cb 200 (bytes (encode told)) waiting_loop)
unfolding find task_pkg
read_cb-serve_example =
    read_cb-serve (some greet) 0 200 client_conn (encode asked) all_sent quiet 200 server_conn
      (encode told) asked told 100 request waiting_loop refl refl refl refl refl fresh_tcp-IsCache
      waiting_loop-Inv refl fresh_tcp-IsCache refl refl refl (omega arith) (omega arith)
      (omega arith) refl refl refl refl refl
