-- ===== src/GenId.antt =====
-- Communication/core/gen_id.cpp: the counters behind task and connection ids. A generator is the
-- value of its `taskId_`; the lock makes each call one step.
pub mod Cycle
use udpboardcast.Base.{ℕ, zero, suc, ◌+◌, ◌%◌, ◌^◌, ◌==◌, if◌then◌else◌}

abbrev pub invalid_connid : ℕ
invalid_connid = 0

-- `GenTaskID::applyId`: the id and the new counter, a `uint64_t`.
unfoldable pub apply_task_id : ℕ → ℕ × ℕ
apply_task_id c = (c, (c + 1) % 2 ^ 64)

-- `GenConnID::applyId`: zero is skipped; the counter is a `uint16_t`.
unfoldable pub apply_conn_id : ℕ → ℕ × ℕ
apply_conn_id c =
    let c' = if c == invalid_connid then (c + 1) % 2 ^ 16 else c in (c', (c' + 1) % 2 ^ 16)

-- The counters after `n` calls of a new generator.
unfoldable pub task_counter : ℕ → ℕ
task_counter zero = 0
task_counter (suc n) = (apply_task_id (task_counter n)).1

unfoldable pub conn_counter : ℕ → ℕ
conn_counter zero = 0
conn_counter (suc n) = (apply_conn_id (conn_counter n)).1

-- What call number `n` returns, from 0.
unfoldable pub nth_task_id : ℕ → ℕ
nth_task_id n = (apply_task_id (task_counter n)).0

unfoldable pub nth_conn_id : ℕ → ℕ
nth_conn_id n = (apply_conn_id (conn_counter n)).0
