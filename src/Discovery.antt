-- ===== src/Discovery.antt =====
-- Discovery by UDP broadcast: the sockets of AutoDiscover/boardcast/boardcast_common.cpp, the
-- packages of boardcast_protocol.cpp, and the sockets, semaphores and threads that the client's and
-- the server's part of AutoDiscover share. The parts themselves are in the children.
pub mod Sockets
pub mod Client
pub mod ClientRun
pub mod Server
pub mod ServerRun
pub mod Model
pub mod Reliable
pub mod StartStop
pub mod Switch
pub mod StartFailed
pub mod Handshake
use udpboardcast.Base.{
  ℕ, zero, suc, ◌+◌, Bool, true, false, List, [], ◌∷◌, Option, none, some, ◌==◌, if◌then◌else◌,
}

abbrev pub boardcast_protocal_version : ℕ
boardcast_protocal_version = 1

abbrev pub boardcast_magic_num : ℕ
boardcast_magic_num = 2489464644

abbrev pub server_tcp_port : ℕ
server_tcp_port = 10038

abbrev pub server_boardcast_port : ℕ
server_boardcast_port = 10034

abbrev pub client_boardcast_port : ℕ
client_boardcast_port = 10035

abbrev pub boardcast_msg_startup : ℕ
boardcast_msg_startup = 1

-- `boardcast_package_t`; `sys_info` is its bytes.
pub record Package : Type 0 where
  pub version : ℕ
  pub magic : ℕ
  pub port : ℕ
  pub sys_info : List ℕ
  pub msg_type : ℕ

-- A package on its way to an address and a port.
pub record Datagram : Type 0 where
  pub address : ℕ
  pub to_port : ℕ
  pub pkg : Package

-- What the operating system answers: `socket` to the call of that number while those sockets are
-- open, and whether any other call of that number succeeds; the host's broadcast address and
-- system information.
pub record Os : Type 0 where
  pub socket : ℕ → List ℕ → Option ℕ
  pub accepts : ℕ → Bool
  pub phy_boardcast_addr : ℕ
  pub system_info : List ℕ

-- The process as the operating system sees it: the open sockets, the number of calls so far, and
-- what was sent, newest first.
pub record Net : Type 0 where
  pub opened : List ℕ
  pub calls : ℕ
  pub sent : List Datagram

-- `socket_env_t`. A socket of -1 is `none`, and so is the 0 that a static one starts with and that
-- nothing reads; `sem_exit` is `none` while it is not initialised;
-- `thread` is true from the creation of the thread to its join.
pub record SocketEnv : Type 0 where
  pub sockfd : Option ℕ
  pub sem_exit : Option ℕ
  pub thread : Bool

-- The globals of boardcast_client.cpp, boardcast_server.cpp and discover.cpp.
pub record Discovery : Type 0 where
  pub net : Net
  pub clt_listen : SocketEnv
  pub clt_startup : Option ℕ
  pub svr_bc : SocketEnv
  pub svr_listen : SocketEnv
  pub svr_feedback : Option ℕ
  pub run_type : ℕ

infixl 5 ◌>>=◌
abbrev pub ◌>>=◌ {ℓ κ} : {A : Type ℓ} {B : Type κ} → Option A → (A → Option B) → Option B
none >>= f = none
some a >>= f = f a

unfoldable pub make_startup_pkg : Os → Package
make_startup_pkg os = record {
  version = boardcast_protocal_version;
  magic = boardcast_magic_num;
  port = server_tcp_port;
  sys_info = os.system_info;
  msg_type = boardcast_msg_startup;
}

abbrev pub is_open : ℕ → List ℕ → Bool
is_open fd [] = false
is_open fd (x ∷ xs) = if fd == x then true else is_open fd xs

-- `close(fd)`.
unfoldable pub close : ℕ → List ℕ → List ℕ
close fd [] = []
close fd (x ∷ xs) = let rest = close fd xs in if fd == x then xs else x ∷ rest

-- `cleansocket`; the socket becomes -1.
unfoldable pub cleansocket : Option ℕ → Net → Net
unfolding close
cleansocket none n = n
cleansocket (some fd) n = record n { opened = close fd n.opened }

unfoldable pub call : Net → Net
call n = record n { calls = n.calls + 1 }

-- A call on a new socket that must not fail; a socket that fails it is closed.
unfoldable pub check : Os → ℕ → Net → (ℕ → Net → Option ℕ × Net) → Option ℕ × Net
unfolding call cleansocket
check os fd n next =
    if os.accepts n.calls then next fd (call n) else (none, cleansocket (some fd) (call n))

unfoldable pub create_udp_socket : Os → Net → Option ℕ × Net
unfolding call
create_udp_socket os n = elim (os.socket n.calls n.opened) [
  | none ↦ (none, call n)
  | some fd ↦ (some fd, record n { opened = fd ∷ n.opened; calls = n.calls + 1 })
]

-- The rest of a creation, if there is a socket.
unfoldable pub when_created : Option ℕ × Net → (ℕ → Net → Option ℕ × Net) → Option ℕ × Net
when_created r next = elim r.0 [ none ↦ (none, r.1) | some fd ↦ next fd r.1 ]

unfoldable pub check_none : ℕ → Net → Option ℕ × Net
check_none fd n = (some fd, n)

unfoldable pub check_one : Os → ℕ → Net → Option ℕ × Net
unfolding check check_none
check_one os fd n = check os fd n check_none

unfoldable pub check_two : Os → ℕ → Net → Option ℕ × Net
unfolding check check_one
check_two os fd n = check os fd n (check_one os)

-- `setsockopt` must succeed.
unfoldable pub create_boardcast_socket : Os → Net → Option ℕ × Net
unfolding create_udp_socket when_created check_one
create_boardcast_socket os n = when_created (create_udp_socket os n) (check_one os)

-- `setnonblock` and `bind` must succeed. The `port` only goes to `bind`, whose answer is `os`'s;
-- each caller has a constant for it, and nothing in a `Net` depends on it.
unfoldable pub create_listen_udp_socket : Os → Net → Option ℕ × Net
unfolding create_udp_socket when_created check_two
create_listen_udp_socket os n = when_created (create_udp_socket os n) (check_two os)

-- `sendto` of a package, and whether all of it was sent.
unfoldable pub sendto : Os → Datagram → Net → Bool × Net
unfolding call
sendto os d n =
    if os.accepts n.calls
    then (true, record n { sent = d ∷ n.sent; calls = n.calls + 1 })
    else (false, call n)

unfoldable pub sem_init : ℕ → SocketEnv → SocketEnv
sem_init k e = record e { sem_exit = some k }

unfoldable pub sem_destroy : SocketEnv → SocketEnv
sem_destroy e = record e { sem_exit = none }

-- `uv_sem_wait`; `none` where it never returns or has no semaphore.
unfoldable pub sem_wait : SocketEnv → Option SocketEnv
sem_wait e = elim e.sem_exit [
  | none ↦ none
  | some zero ↦ none
  | some (suc k) ↦ some (record e { sem_exit = some k })
]

-- `uv_sem_post`; `none` without a semaphore.
unfoldable pub sem_post : SocketEnv → Option SocketEnv
sem_post e = elim e.sem_exit [ none ↦ none | some k ↦ some (record e { sem_exit = some (k + 1) }) ]

unfoldable pub thread_create : SocketEnv → SocketEnv
thread_create e = record e { thread = true }

-- `uv_thread_join`: the thread takes a post of the semaphore and ends. `none` where there is no
-- thread to join, or it never ends.
unfoldable pub thread_join : SocketEnv → Option SocketEnv
unfolding sem_wait
thread_join e =
    let ended = sem_wait e >>= λ e. some (record e { thread = false }) in
    if e.thread then ended else none

-- The state of a running part, and of a stopped one.
abbrev pub running : ℕ → SocketEnv
running fd = record { sockfd = some fd; sem_exit = some 0; thread = true }

abbrev pub stopped : SocketEnv
stopped = record { sockfd = none; sem_exit = none; thread = false }
