-- ===== src/Discovery/Server.antt =====
-- AutoDiscover/boardcast/boardcast_server.cpp.
use udpboardcast.Base.{ℕ, Bool, true, false, Option, none, some, ◌==◌, if◌then◌else◌}
use udpboardcast.Discovery.{
  boardcast_magic_num, client_boardcast_port, boardcast_msg_startup, Package, Datagram, Os, Net,
  SocketEnv, Discovery, ◌>>=◌, make_startup_pkg, cleansocket, create_udp_socket,
  create_boardcast_socket, create_listen_udp_socket, sendto, sem_init, sem_destroy, sem_wait,
  sem_post, thread_create, thread_join,
}

-- A startup package to the clients' port of an address.
unfoldable pub startup_to : Os → ℕ → Datagram
unfolding make_startup_pkg
startup_to os address = record {
  address = address;
  to_port = client_boardcast_port;
  pkg = make_startup_pkg os;
}

unfoldable pub send_startup : Os → ℕ → Net → Net
unfolding startup_to sendto
send_startup os address n = (sendto os (startup_to os address) n).1

-- `_oriented_feedback`.
unfoldable pub oriented_feedback : Os → Option ℕ → ℕ → Net → Net
unfolding send_startup
oriented_feedback os none client n = n
oriented_feedback os (some _) client n = send_startup os client n

-- One round of `_svrbc_listen_thread`; `none` is a `recvfrom` that returned anything but one package.
unfoldable pub svr_listen_round : Os → Option ℕ → Option (ℕ × Package) → Net → Net
unfolding oriented_feedback
svr_listen_round os feedback none n = n
svr_listen_round os feedback (some (peer, pkg)) n =
    if pkg.magic == boardcast_magic_num
    then if pkg.msg_type == boardcast_msg_startup then oriented_feedback os feedback peer n else n
    else n

-- One round of `_boardcast_svr_msg`.
unfoldable pub boardcast_round : Os → Net → Net
unfolding send_startup
boardcast_round os n = send_startup os os.phy_boardcast_addr n

-- What follows the creation of the socket of `_svr_boardcast_start`.
unfoldable pub svr_boardcast_on : Option ℕ × Net → Discovery → Option (Bool × Discovery)
unfolding sem_wait sem_destroy thread_create
svr_boardcast_on r d =
    let e : SocketEnv = record d.svr_bc { sockfd = r.0 } in
    elim r.0 [
      | none ↦ some (false, record d { net = r.1; svr_bc = sem_destroy e })
      | some _ ↦ do e ← sem_wait e; some (true, record d { net = r.1; svr_bc = thread_create e })
    ]

-- `_svr_boardcast_start`.
unfoldable pub svr_boardcast_start : Os → Discovery → Option (Bool × Discovery)
unfolding svr_boardcast_on create_boardcast_socket sem_init
svr_boardcast_start os d =
    svr_boardcast_on (create_boardcast_socket os d.net) (record d { svr_bc = sem_init 1 d.svr_bc })

-- `_svr_boardcast_stop`.
unfoldable pub svr_boardcast_stop : Discovery → Option Discovery
unfolding sem_post thread_join sem_destroy cleansocket
svr_boardcast_stop d = do
  e ← sem_post d.svr_bc
  e ← thread_join e
  some (record d {
    net = cleansocket e.sockfd d.net;
    svr_bc = record (sem_destroy e) { sockfd = none };
  })

-- `_svr_listen_stop`.
unfoldable pub svr_listen_stop : Discovery → Option Discovery
unfolding sem_post thread_join sem_destroy cleansocket
svr_listen_stop d = do
  e ← sem_post d.svr_listen
  e ← thread_join e
  some (record d {
    net = cleansocket d.svr_feedback (cleansocket e.sockfd d.net);
    svr_listen = sem_destroy (record e { sockfd = none });
    svr_feedback = none;
  })

-- What follows the creation of the feedback socket.
unfoldable pub svr_feedback_on : Option ℕ × Net → Discovery → Option (Bool × Discovery)
unfolding sem_init sem_wait thread_create cleansocket
svr_feedback_on r d = elim r.0 [
  | none ↦ some (
    false,
    record d {
      net = cleansocket d.svr_listen.sockfd r.1;
      svr_listen = record d.svr_listen { sockfd = none };
      svr_feedback = none;
    },
  )
  | some fd ↦ do
    e ← sem_wait (sem_init 1 d.svr_listen)
    some (true, record d { net = r.1; svr_listen = thread_create e; svr_feedback = some fd })
]

-- What follows the creation of the listening socket.
unfoldable pub svr_listen_on : Os → Option ℕ × Net → Discovery → Option (Bool × Discovery)
unfolding svr_feedback_on create_udp_socket
svr_listen_on os r d =
    let d' : Discovery = record d {
      net = r.1;
      svr_listen = record d.svr_listen { sockfd = r.0 };
    } in
    elim r.0 [ none ↦ some (false, d') | some _ ↦ svr_feedback_on (create_udp_socket os r.1) d' ]

-- `_svr_listen_start`.
unfoldable pub svr_listen_start : Os → Discovery → Option (Bool × Discovery)
unfolding svr_listen_on create_listen_udp_socket
svr_listen_start os d = svr_listen_on os (create_listen_udp_socket os d.net) d

-- The test of `svr_model_start` on the results of the two starts.
unfoldable pub both_or_none : Bool → Bool → Discovery → Option (Bool × Discovery)
unfolding svr_listen_stop svr_boardcast_stop
both_or_none true true d = some (true, d)
both_or_none true false d = svr_listen_stop d >>= λ d. some (false, d)
both_or_none false true d = svr_boardcast_stop d >>= λ d. some (false, d)
both_or_none false false d = some (false, d)

-- `svr_model_start`: true for 0, false for -1.
unfoldable pub svr_model_start : Os → Discovery → Option (Bool × Discovery)
unfolding svr_listen_start svr_boardcast_start both_or_none
svr_model_start os d = do
  (l, d) ← svr_listen_start os d
  (b, d) ← svr_boardcast_start os d
  both_or_none l b d

unfoldable pub svr_model_stop : Discovery → Option Discovery
unfolding svr_boardcast_stop svr_listen_stop
svr_model_stop d = svr_boardcast_stop d >>= svr_listen_stop
