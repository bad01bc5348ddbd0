-- ===== src/Examples/Runs.antt =====
-- A run of a server: a client connects, its request arrives, and a thread takes it.
use udpboardcast.Base.{◌≡◌, refl, [], ◌∷◌, some, none, true, false, arith}
use udpboardcast.Table.{find, insert}
use udpboardcast.Proto.{CommPkg, encode, pkg_type_common, proto_build_package}
use udpboardcast.Stream.{CommTcp, fresh_tcp}
use udpboardcast.Stream.Reassembly.{fresh_tcp-IsCache, proto_build_package-IsSent}
use udpboardcast.GenId.{apply_conn_id}
use udpboardcast.ClientLoop.{Conn, put}
use udpboardcast.ClientLoop.Read.{bytes}
use udpboardcast.ServerLoop.{ServerLoop, ok, with_conn, set_conn, sl_conn_add}
use udpboardcast.ServerLoop.Requests.{resp_task, take_job}
use udpboardcast.ServerLoop.Listen.{Accepting, add_conn, start_reading, listen_cb, read_cb}
use udpboardcast.ServerLoop.Steps.{started, Steps, accepts, reads, takes, step, stop}
use udpboardcast.ServerLoop.Sound.{Sound}
use udpboardcast.ServerLoop.Sound.Reach.{Steps-Sound}
use udpboardcast.ServerLoop.Sound.Ends.{CanEnd, Steps-CanEnd}
use udpboardcast.Rpc.Serve.{asked, with_cache, read_lem}
use udpboardcast.Examples.Server.{echo}

abbrev client_comes : Accepting
client_comes = record {
  status = 0;
  inited = 0;
  accepted = 0;
  named = 0;
  ip = "10.0.0.2";
  stale = 77;
}

abbrev new_client : Conn
new_client = record {
  conn_id = 1;
  ip = "10.0.0.2";
  tcp = fresh_tcp;
  reading = true;
  closing = false;
}

abbrev connected : ServerLoop
connected = record started {
  conn_table = (1, 0) ∷ [];
  conns =
      put
        (put (put (λ c. none) 0 (some (record new_client { conn_id = 77; reading = false }))) 0
          (some (record new_client { reading = false })))
        0 (some new_client);
  next_ptr = 1;
  next_conn_id = 2;
  dozing = false;
}

comes : listen_cb client_comes started ≡ ok connected
unfolding listen_cb add_conn apply_conn_id sl_conn_add find insert with_conn set_conn start_reading
comes = refl

abbrev hello : CommPkg
hello = proto_build_package (104 ∷ []) pkg_type_common 7

abbrev with_job : CommTcp → ServerLoop
with_job tcp = asked 0 1 hello (with_cache 0 new_client tcp connected)

arrives : (tcp : CommTcp) × (read_cb 0 0 (bytes (encode hello)) connected ≡ ok (with_job tcp))
unfolding find proto_build_package
arrives =
    read_lem 0 0 new_client (encode hello) hello connected refl refl fresh_tcp-IsCache
      (proto_build_package-IsSent (104 ∷ []) pkg_type_common 7 (omega arith) (omega arith)
        (omega arith))
      refl refl (omega arith)

abbrev taken : ServerLoop
taken = take_job (with_job arrives.0)

run : Steps echo started taken
run =
    step
      (step (step stop (accepts client_comes comes)) (reads 0 0 (bytes (encode hello)) arrives.1))
      takes

Steps-Sound_example : Sound taken
Steps-Sound_example = Steps-Sound echo taken run

Steps-CanEnd_example : CanEnd echo 1 taken
unfolding take_job resp_task proto_build_package
Steps-CanEnd_example = Steps-CanEnd echo 1 (resp_task 0 1 7 (104 ∷ [])) taken run refl refl refl
