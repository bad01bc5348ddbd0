-- ===== src/ServerLoop/Startup.antt =====
-- The start and the end of the server: `init_server_loop`, `start_server_loop` and
-- `uninit_server_loop` of Communication/core/comm_res.cpp, with `ssn_startup_server` and
-- `ssn_shutdown_server` of Communication/comm.cpp.
use udpboardcast.Base.{
  ℕ, ◌≡◌, refl, ◌⊎◌, inl, inr, Bool, true, false, List, [], ◌∷◌, some, ◌==◌, if◌then◌else◌,
  Bool-cases,
}
use udpboardcast.Errors.{err_not_ready, err_uv_library}
use udpboardcast.ClientLoop.{Ptr, Task}
use udpboardcast.ServerLoop.{ServerLoop, sl_create_async}
use udpboardcast.ServerLoop.Calls.{returned, async_push, ssn_push, async_close_server, call_returns}
use udpboardcast.ServerLoop.Steps.{started}

-- `g_serverLoop` before its first use.
abbrev pub zeroed : ServerLoop
zeroed = record started { running = false; inited = false }

-- The pool is a new one.
unfoldable pub init_server_loop : ServerLoop → ServerLoop
init_server_loop s = record s { inited = true; running = false; queue = []; working = [] }

-- What `uv_tcp_init_ex`, `uv_tcp_bind` and `uv_listen` return, 0 for success.
pub record ListenResults : Type 0 where
  pub created : ℕ
  pub bound : ℕ
  pub listening : ℕ

-- `_init_svr_tcp`: a handle that cannot listen is closed.
unfoldable pub init_svr_tcp : ListenResults → ServerLoop → ℕ × ServerLoop
init_svr_tcp r s =
    if r.created == 0
    then if r.bound == 0
      then if r.listening == 0
        then (0, record s { listen_closing = false })
        else (err_uv_library, record s { listen_closing = true })
      else (err_uv_library, record s { listen_closing = true })
    else (err_uv_library, s)

-- `start_server_loop`: true for 0, false for -1.
unfoldable pub start_server_loop : ListenResults → ServerLoop → Bool × ServerLoop
unfolding init_svr_tcp
start_server_loop r s =
    let (err, s') = init_svr_tcp r s in
    if err == 0 then (true, record s' { running = true }) else (false, s')

unfoldable pub ssn_startup_server : ListenResults → ServerLoop → Bool × ServerLoop
unfolding init_server_loop start_server_loop
ssn_startup_server r s = start_server_loop r (init_server_loop s)

-- `uninit_server_loop` with `stop_server_loop`, once the loop's thread has ended.
unfoldable pub uninit_server_loop : ServerLoop → ServerLoop
uninit_server_loop s = record s { running = false; inited = false }

-- `ssn_shutdown_server` from the wait of `async_close_server` on, for its task at `p`.
unfoldable pub ssn_shutdown_server : Ptr → Task → ServerLoop → ℕ × ServerLoop
unfolding call_returns uninit_server_loop
ssn_shutdown_server p t s =
    let (err, s') = call_returns p t s in if err == 0 then (0, uninit_server_loop s') else (err, s')

-- A server either starts in the state from which its runs go, or does not start, and then a push and
-- a shutdown are refused.
pub ssn_startup_server_lem :
    (r : ListenResults) (stale : ℕ) (b : ℕ) (bs : List ℕ)
    → (ssn_startup_server r zeroed ≡ (true, started))
      ⊎ (((ssn_startup_server r zeroed).0 ≡ false)
          × (ssn_push stale (some (b ∷ bs)) (ssn_startup_server r zeroed).1
              ≡ returned err_not_ready)
          × (async_close_server stale (ssn_startup_server r zeroed).1 ≡ returned err_not_ready))
unfolding ssn_startup_server init_server_loop start_server_loop init_svr_tcp ssn_push async_push
    async_close_server sl_create_async
ssn_startup_server_lem r stale b bs = elim (Bool-cases (r.created == 0)) [
  | inr bad ↦ rw bad (inr (refl, refl, refl))
  | inl created ↦ elim (Bool-cases (r.bound == 0)) [
    | inr bad ↦ rw (created, bad) (inr (refl, refl, refl))
    | inl bound ↦ elim (Bool-cases (r.listening == 0)) [
      | inr bad ↦ rw (created, bound, bad) (inr (refl, refl, refl))
      | inl good ↦ rw (created, bound, good) (inl refl)
    ]
  ]
]
