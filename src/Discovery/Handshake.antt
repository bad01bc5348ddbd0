-- ===== src/Discovery/Handshake.antt =====
-- A client's broadcast and a server's feedback, from one listening thread to the other.
use udpboardcast.Base.{ℕ, ◌≡◌, refl, ◌↔◌, true, some, ◌∷◌, arith}
use udpboardcast.Discovery.{
  boardcast_magic_num, server_boardcast_port, client_boardcast_port, boardcast_msg_startup,
  server_tcp_port, Datagram, Package, Os, Net, make_startup_pkg, sendto,
}
use udpboardcast.Discovery.Client.{clt_listen_round, startup_boardcast}
use udpboardcast.Discovery.Server.{startup_to, send_startup, oriented_feedback, svr_listen_round}

-- A client hands on a server exactly when the package has the magic number and the type STARTUP,
-- whatever its version: the sender's address with the package's port.
pub clt_listen_round-startup :
    (peer port : ℕ) (p : Package) (server : ℕ)
    → (clt_listen_round (some (peer, p)) ≡ some (server, port)) ↔ (
        (p.magic ≡ boardcast_magic_num)
        × (p.msg_type ≡ boardcast_msg_startup)
        × (server ≡ peer)
        × (port ≡ p.port))
unfolding clt_listen_round
clt_listen_round-startup peer port p server = ground arith

send_startup-sent :
    (os : Os) (client : ℕ) (n : Net)
    → os.accepts n.calls ≡ true
    → (send_startup os client n).sent ≡ startup_to os client ∷ n.sent
unfolding send_startup sendto
send_startup-sent os client n sent = rw (sent, send_startup, sendto)

-- What a client at the address `client` broadcasts makes a server at `server` that has its
-- feedback socket send one datagram, if the operating system sends it: to the clients' port at
-- `client`, with a package from which the client's listening thread hands on the server's address
-- with its TCP port.
pub svr_listen_round-handshake :
    (os os' : Os) (fd client server : ℕ) (n : Net)
    → os.accepts n.calls ≡ true
    → (d : Datagram) × ((svr_listen_round os
          (some fd)
          (some (client, (startup_boardcast os').pkg))
          n).sent
        ≡ d ∷ n.sent)
      × (d.address ≡ client)
      × (d.to_port ≡ client_boardcast_port)
      × ((startup_boardcast os').to_port ≡ server_boardcast_port)
      × (clt_listen_round (some (server, d.pkg)) ≡ some (server, server_tcp_port))
unfolding svr_listen_round oriented_feedback startup_to startup_boardcast clt_listen_round
    make_startup_pkg
svr_listen_round-handshake os os' fd client server n sent =
    (startup_to os client, send_startup-sent os client n sent, refl, refl, refl, refl)
