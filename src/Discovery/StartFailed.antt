-- ===== src/Discovery/StartFailed.antt =====
-- `ssn_set_boardcast_model` after a start that got no socket.
use udpboardcast.Base.{◌≡◌, ap, ◌∙◌, false, Option, none, some}
use udpboardcast.Discovery.{
  Os, Net, Discovery, ◌>>=◌, stopped, call, cleansocket, create_udp_socket, when_created,
  create_listen_udp_socket, sem_post,
}
use udpboardcast.Discovery.Client.{clt_model_start, clt_model_stop, clt_listen_on, clt_clean}
use udpboardcast.Discovery.Model.{set_clt, set_svr, set_boardcast_model}
use udpboardcast.Discovery.Switch.{ClientIs}

-- The state after a start that gets no socket: only the run type says that a part runs.
no_socket :
    (os : Os) (n : Net)
    → os.socket n.calls n.opened ≡ none
    → create_udp_socket os n ≡ (none, call n)
unfolding create_udp_socket
no_socket os n e = rw (e, create_udp_socket)

listen_fails :
    (os : Os) (n : Net)
    → os.socket n.calls n.opened ≡ none
    → create_listen_udp_socket os n ≡ (none, call n)
unfolding create_listen_udp_socket when_created
listen_fails os n e = rw (no_socket os n e)

start_fails :
    (os : Os) (d : Discovery)
    → ClientIs 0 d
    → os.socket d.net.calls d.net.opened ≡ none
    → clt_model_start os d
      ≡ some (false, record d { net = call d.net; clt_listen = stopped; clt_startup = none })
unfolding clt_model_start clt_listen_on clt_clean cleansocket
start_fails os d (off, quiet) e = rw (listen_fails os d.net e, off, quiet)

set_clt_on :
    (os : Os) (d : Discovery)
    → d.run_type ≡ 0
    → set_clt os 1 d ≡ (clt_model_start os d >>= λ x. some x.1)
unfolding set_clt
set_clt_on os d run = simp run

set_svr_off : (os : Os) (d : Discovery) → d.run_type ≡ 0 → set_svr os 1 d ≡ some d
unfolding set_svr
set_svr_off os d run = simp run

switch_on_fails :
    (os : Os) (d : Discovery)
    → d.run_type ≡ 0
    → ClientIs 0 d
    → os.socket d.net.calls d.net.opened ≡ none
    → set_boardcast_model os 1 d
      ≡ some (record d { net = call d.net; clt_listen = stopped; clt_startup = none; run_type = 1 })
unfolding set_boardcast_model
switch_on_fails os d run is e =
    let store : Discovery → Option Discovery = λ d. some (record d { run_type = 1 }) in
    let on : Discovery → Option Discovery = λ d. set_svr os 1 d >>= store in
    ap (λ x. x >>= on) (set_clt_on os d run)
    ∙ ap (λ x. (x >>= λ y. some y.1) >>= on) (start_fails os d is e)
    ∙ ap (λ x. x >>= store) (set_svr_off os _ run)

-- If neither part runs and the client's start gets no socket, the run type is stored all the same,
-- and the call that takes the client's bit back joins a thread that was never made.
pub set_boardcast_model-start_failed :
    (os : Os) (d : Discovery)
    → d.run_type ≡ 0
    → ClientIs 0 d
    → os.socket d.net.calls d.net.opened ≡ none
    → (set_boardcast_model os 1 d >>= set_boardcast_model os 0) ≡ none
unfolding set_boardcast_model set_clt clt_model_stop sem_post
set_boardcast_model-start_failed os d run is e =
    ap (λ r. r >>= set_boardcast_model os 0) (switch_on_fails os d run is e)
