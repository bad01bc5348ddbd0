-- ===== src/Examples/Ids.antt =====
-- The generators of gen_id.cpp and the messages of uv_err_cvt.cpp on concrete inputs.

use udpboardcast.Base.{◌^◌, ◌-◌, ◌%◌, ◌≡◌, ◌≢◌, ◌↔◌, refl}
use udpboardcast.GenId.{invalid_connid, apply_conn_id, nth_conn_id}
use udpboardcast.GenId.Cycle.{nth_conn_id-cycle}

wraps_past_zero : apply_conn_id 65535 ≡ (65535, 0)
unfolding apply_conn_id
wraps_past_zero = refl

skips_zero : apply_conn_id 0 ≡ (1, 2)
unfolding apply_conn_id
skips_zero = refl

nth_conn_id-cycle_example :
    (nth_conn_id 3 ≢ invalid_connid)
    × ((nth_conn_id 3 ≡ nth_conn_id 65538) ↔ (3 % (2 ^ 16 - 1) ≡ 65538 % (2 ^ 16 - 1)))
nth_conn_id-cycle_example = nth_conn_id-cycle 3 65538
