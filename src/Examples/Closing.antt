-- ===== src/Examples/Closing.antt =====
-- The client of the loop examples is shut down.
use udpboardcast.Base.{refl, arith}
use udpboardcast.Table.{find}
use udpboardcast.ClientLoop.Async.{UvResults}
use udpboardcast.Interface.{cl_create_async}
use udpboardcast.Interface.Shutdown.{Leaves, ssn_shutdown_client-Leaves}
use udpboardcast.Examples.Loop.{server_conn, request_timer, waiting_loop, waiting_loop-Inv}

abbrev no_calls : UvResults
no_calls = record { inited = 0; connected = 0; written = 0 }

-- The memory of the task held 5.
ssn_shutdown_client-Leaves_example : Leaves 150 5 8 no_calls waiting_loop
unfolding find cl_create_async
ssn_shutdown_client-Leaves_example =
    ssn_shutdown_client-Leaves 150 5 8 no_calls waiting_loop waiting_loop-Inv refl (omega arith, tt)
      ((server_conn, refl), tt) ((request_timer, refl, (λ c e. cc e)), tt) refl
