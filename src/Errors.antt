-- ===== src/Errors.antt =====
-- include/internal/ssnet_err.h and common/uv_err_cvt.cpp: the error codes and their messages, and
-- the message that a finished task is given in Communication/core/comm_core.cpp.
use Prim.Native.String.{String}
use udpboardcast.Base.{ℕ, ◌≤◌, ◌^◌, ◌≡◌, arith, ltb, ◌==◌, if◌then◌else◌}

abbrev pub err_param : ℕ
err_param = 1

abbrev pub err_not_ready : ℕ
err_not_ready = 2

abbrev pub err_conn_not_exist : ℕ
err_conn_not_exist = 3

abbrev pub err_conn_already_exist : ℕ
err_conn_already_exist = 4

abbrev pub err_timeout : ℕ
err_timeout = 5

abbrev pub err_shutdown : ℕ
err_shutdown = 6

abbrev pub err_uv_library : ℕ
err_uv_library = 9

-- `g_errmap.errmsg[err]`: a code that is not in the map gets an empty message. The argument is the
-- bit pattern of the `int`.
unfoldable pub ssn_errmsg : ℕ → String
ssn_errmsg err =
    if err == 0
    then "success"
    else if err == 1
    then "invalid param"
    else if err == 2
    then "net module state wrong"
    else if err == 3
    then "connect is lost"
    else if err == 4
    then "connect already exist, can't connect again"
    else if err == 5
    then "operation timeout"
    else if err == 6
    then "loop is closed"
    else if err == 7
    then "communication version error"
    else if err == 8
    then "bad communication package"
    else ""

-- The choice of `task->errmsg` in `_cl_finish_task` and `_sl_finish_task`. `task->err` is a
-- `uint32_t`, so the test compares a natural number with 0. `uv_err_name` is libuv's.
unfoldable pub finish_errmsg : (ℕ → String) → ℕ → String
finish_errmsg uv_err_name err = if ltb err 0 then uv_err_name err else ssn_errmsg err

-- A task that fails by an error of libuv, whose code is the `uint32_t` of a negative number, ends
-- with an empty message, whatever `uv_err_name` says of it.
pub finish_errmsg-libuv :
    (uv_err_name : ℕ → String) (err : ℕ) → 2 ^ 31 ≤ err → finish_errmsg uv_err_name err ≡ ""
unfolding finish_errmsg ssn_errmsg
finish_errmsg-libuv uv_err_name err h = ground arith
