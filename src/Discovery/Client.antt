-- ===== src/Discovery/Client.antt =====
-- AutoDiscover/boardcast/boardcast_client.cpp.
use udpboardcast.Base.{ℕ, Bool, true, false, Option, none, some, ◌==◌, if◌then◌else◌}
use udpboardcast.Discovery.{
  boardcast_magic_num, server_boardcast_port, boardcast_msg_startup, Package, Datagram, Os, Net,
  Discovery, ◌>>=◌, make_startup_pkg, cleansocket, create_boardcast_socket,
  create_listen_udp_socket, sendto, sem_init, sem_destroy, sem_wait, sem_post, thread_create,
  thread_join,
}

-- What one round of `_cltbc_listen_thread` hands to `deliver_addsvr_msg`: the sender's address and
-- the port of the package. `none` is a `recvfrom` that returned anything but one package.
unfoldable pub clt_listen_round : Option (ℕ × Package) → Option (ℕ × ℕ)
clt_listen_round none = none
clt_listen_round (some (peer, pkg)) =
    if pkg.magic == boardcast_magic_num
    then if pkg.msg_type == boardcast_msg_startup then some (peer, pkg.port) else none
    else none

-- What `_client_startup_boardcast` sends.
unfoldable pub startup_boardcast : Os → Datagram
unfolding make_startup_pkg
startup_boardcast os = record {
  address = os.phy_boardcast_addr;
  to_port = server_boardcast_port;
  pkg = make_startup_pkg os;
}

-- `_client_startup_boardcast`, whose result no caller reads.
unfoldable pub client_startup_boardcast : Os → Net → Net
unfolding startup_boardcast sendto
client_startup_boardcast os n = (sendto os (startup_boardcast os) n).1

-- The label `exit` of `clt_model_start` with `ret` -1.
unfoldable pub clt_clean : Discovery → Discovery
unfolding cleansocket
clt_clean d = record d {
  net = cleansocket d.clt_startup (cleansocket d.clt_listen.sockfd d.net);
  clt_listen = record d.clt_listen { sockfd = none };
  clt_startup = none;
}

-- The listening thread is started, and the broadcast sent.
unfoldable pub clt_run : Os → Discovery → Option (Bool × Discovery)
unfolding sem_init sem_wait thread_create client_startup_boardcast
clt_run os d = do
  e ← sem_wait (sem_init 1 d.clt_listen)
  some (true, record d { clt_listen = thread_create e; net = client_startup_boardcast os d.net })

-- What follows the creation of the broadcast socket.
unfoldable pub clt_boardcast : Os → Option ℕ × Net → Discovery → Option (Bool × Discovery)
unfolding clt_run clt_clean
clt_boardcast os r d =
    let d' : Discovery = record d { net = r.1; clt_startup = r.0 } in
    elim r.0 [ none ↦ some (false, clt_clean d') | some _ ↦ clt_run os d' ]

-- What follows the creation of the listening socket.
unfoldable pub clt_listen_on : Os → Option ℕ × Net → Discovery → Option (Bool × Discovery)
unfolding clt_boardcast clt_clean create_boardcast_socket
clt_listen_on os r d =
    let d' : Discovery = record d {
      net = r.1;
      clt_listen = record d.clt_listen { sockfd = r.0 };
    } in
    elim r.0 [
      | none ↦ some (false, clt_clean d')
      | some _ ↦ clt_boardcast os (create_boardcast_socket os r.1) d'
    ]

-- `clt_model_start`: true for 0, false for -1.
unfoldable pub clt_model_start : Os → Discovery → Option (Bool × Discovery)
unfolding clt_listen_on create_listen_udp_socket
clt_model_start os d = clt_listen_on os (create_listen_udp_socket os d.net) d

unfoldable pub clt_model_stop : Discovery → Option Discovery
unfolding sem_post thread_join sem_destroy cleansocket
clt_model_stop d = do
  e ← sem_post d.clt_listen
  e ← thread_join e
  some (record d {
    net = cleansocket d.clt_startup (cleansocket e.sockfd d.net);
    clt_listen = sem_destroy (record e { sockfd = none });
    clt_startup = none;
  })
