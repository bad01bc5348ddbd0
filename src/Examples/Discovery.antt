-- ===== src/Examples/Discovery.antt =====
-- The start and stop of the discovery on concrete operating systems.
use udpboardcast.Base.{ℕ, suc, ◌+◌, ◌≡◌, ◌<◌, refl, true, false, List, [], ◌∷◌, none, some, arith}
use udpboardcast.Discovery.{
  server_boardcast_port, client_boardcast_port, server_tcp_port, Datagram, Os, Discovery, ◌>>=◌,
  is_open, stopped,
}
use udpboardcast.Discovery.{
  create_listen_udp_socket, create_boardcast_socket, create_udp_socket, when_created, check,
  check_none, check_one, check_two, call, sem_init, sem_wait, thread_create, sendto,
}
use udpboardcast.Discovery.Server.{
  svr_listen_start, svr_listen_on, svr_feedback_on, svr_boardcast_start, svr_boardcast_on,
  both_or_none,
}
use udpboardcast.Discovery.Client.{clt_listen_on, clt_boardcast, clt_run, client_startup_boardcast}
use udpboardcast.Discovery.StartStop.{ServerStops, svr_model_stop-svr_model_start}
use udpboardcast.Discovery.Sockets.{Fresh, Reliable}
use udpboardcast.Discovery.Client.{startup_boardcast, clt_listen_round, clt_model_start}
use udpboardcast.Discovery.ClientRun.{clt_up}
use udpboardcast.Discovery.Server.{svr_listen_round, svr_model_start}
use udpboardcast.Discovery.ServerRun.{SvrStarts, svr_model_start-SvrStarts, boardcast_up, listen_up}
use udpboardcast.Discovery.Model.{set_boardcast_model}
use udpboardcast.Discovery.Switch.{Matches, set_boardcast_model-Matches}
use udpboardcast.Discovery.StartFailed.{set_boardcast_model-start_failed}
use udpboardcast.Discovery.Handshake.{svr_listen_round-handshake}

-- A number above those of a list.
above : List ℕ → ℕ
above [] = 3
above (x ∷ xs) = suc (x + above xs)

is_open-above : (fs : List ℕ) (fd : ℕ) → above fs < suc fd → is_open fd fs ≡ false
unfolding above
is_open-above [] fd h = refl
is_open-above (x ∷ xs) fd h = ground (arith, is_open-above xs fd)

-- An operating system that never fails, and one that has no sockets.
abbrev good_os : Os
good_os = record {
  socket = λ k fs. some (above fs);
  accepts = λ k. true;
  phy_boardcast_addr = 3232235775;
  system_info = [];
}

abbrev full_os : Os
full_os = record good_os { socket = λ k fs. none }

good_os-Fresh : Fresh good_os
good_os-Fresh k fs fd e = is_open-above fs fd (ground (arith, e))

good_os-Reliable : Reliable good_os
good_os-Reliable = ((λ k fs. (above fs, refl)), λ k. refl)

-- Nothing runs.
abbrev at_rest : Discovery
at_rest = record {
  net = record { opened = []; calls = 0; sent = [] };
  clt_listen = stopped;
  clt_startup = none;
  svr_bc = stopped;
  svr_listen = stopped;
  svr_feedback = none;
  run_type = 0;
}

svr_model_start-SvrStarts_example : SvrStarts at_rest (svr_model_start good_os at_rest)
svr_model_start-SvrStarts_example =
    svr_model_start-SvrStarts good_os at_rest good_os-Fresh refl refl refl

set_boardcast_model-Matches_example :
    (d : Discovery) × (set_boardcast_model good_os 3 at_rest ≡ some d)
    × (d.run_type ≡ 3)
    × Matches 3 d
set_boardcast_model-Matches_example =
    set_boardcast_model-Matches good_os 3 at_rest good_os-Fresh good_os-Reliable
      ((refl, refl), (refl, refl, refl))

set_boardcast_model-start_failed_example :
    (set_boardcast_model full_os 1 at_rest >>= set_boardcast_model full_os 0) ≡ none
set_boardcast_model-start_failed_example =
    set_boardcast_model-start_failed full_os at_rest refl (refl, refl) refl

-- The client's part runs, after 6 calls of the operating system.
client_started : Discovery
client_started = clt_up 3 7 6 (startup_boardcast good_os ∷ []) at_rest

client_starts : clt_model_start good_os at_rest ≡ some (true, client_started)
unfolding clt_model_start clt_listen_on clt_boardcast clt_run create_listen_udp_socket
    create_boardcast_socket create_udp_socket when_created check check_none check_one check_two call
    sem_init sem_wait thread_create client_startup_boardcast sendto above client_started
client_starts = refl

server_started : Discovery
server_started = boardcast_up 15 6 (listen_up 3 7 6 at_rest)

server_starts : svr_model_start good_os at_rest ≡ some (true, server_started)
unfolding svr_model_start svr_listen_start svr_listen_on svr_feedback_on svr_boardcast_start
    svr_boardcast_on both_or_none create_listen_udp_socket create_boardcast_socket create_udp_socket
    when_created check check_none check_one check_two call sem_init sem_wait thread_create above
    server_started
server_starts = refl

svr_model_stop-svr_model_start_example : ServerStops at_rest server_started
svr_model_stop-svr_model_start_example =
    svr_model_stop-svr_model_start good_os at_rest server_started good_os-Fresh refl refl refl
      server_starts

abbrev server_address : ℕ
server_address = 9

svr_listen_round-handshake_example :
    (d : Datagram) × ((svr_listen_round good_os
        (some 7)
        (some (5, (startup_boardcast full_os).pkg))
        at_rest.net).sent
      ≡ d ∷ [])
    × (d.address ≡ 5)
    × (d.to_port ≡ client_boardcast_port)
    × ((startup_boardcast full_os).to_port ≡ server_boardcast_port)
    × (clt_listen_round (some (server_address, d.pkg)) ≡ some (server_address, server_tcp_port))
svr_listen_round-handshake_example =
    svr_listen_round-handshake good_os full_os 7 5 server_address at_rest.net refl
