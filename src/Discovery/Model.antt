-- ===== src/Discovery/Model.antt =====
-- AutoDiscover/discover.cpp.
use udpboardcast.Base.{ℕ, ◌/◌, ◌%◌, Option, some, ◌==◌, if◌then◌else◌}
use udpboardcast.Discovery.{Os, Discovery, ◌>>=◌}
use udpboardcast.Discovery.Client.{clt_model_start, clt_model_stop}
use udpboardcast.Discovery.Server.{svr_model_start, svr_model_stop}

-- `runType & CLT_RUN_TYPE` and `runType & SVR_RUN_TYPE`, as 0 or 1.
abbrev pub clt_bit : ℕ → ℕ
clt_bit r = r % 2

abbrev pub svr_bit : ℕ → ℕ
svr_bit r = (r / 2) % 2

-- The client's half of `ssn_set_boardcast_model`; what `clt_model_start` returns is dropped.
unfoldable pub set_clt : Os → ℕ → Discovery → Option Discovery
unfolding clt_model_start clt_model_stop
set_clt os r d =
    let start = clt_model_start os d >>= λ x. some x.1 in
    let stop = clt_model_stop d in
    if clt_bit d.run_type == clt_bit r then some d else if clt_bit r == 0 then stop else start

-- The server's half.
unfoldable pub set_svr : Os → ℕ → Discovery → Option Discovery
unfolding svr_model_start svr_model_stop
set_svr os r d =
    let start = svr_model_start os d >>= λ x. some x.1 in
    let stop = svr_model_stop d in
    if svr_bit d.run_type == svr_bit r then some d else if svr_bit r == 0 then stop else start

-- `ssn_set_boardcast_model`, which returns 0 always.
unfoldable pub set_boardcast_model : Os → ℕ → Discovery → Option Discovery
unfolding set_clt set_svr
set_boardcast_model os r d = do
  d ← set_clt os r d
  d ← set_svr os r d
  some (record d { run_type = r })
