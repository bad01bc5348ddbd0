-- ===== src/GenId/Cycle.antt =====
-- Which ids the generators of gen_id.cpp hand out, and when one comes again.
use udpboardcast.Base.{ℕ, zero, suc, ◌+◌, ◌-◌, ◌%◌, ◌^◌, ◌<◌, ◌≡◌, ◌≢◌, ◌↔◌, refl, arith}
use udpboardcast.GenId.{
  invalid_connid, apply_task_id, apply_conn_id, task_counter, conn_counter, nth_task_id,
  nth_conn_id,
}

task_counter_lem : (n : ℕ) → task_counter n ≡ n % 2 ^ 64
unfolding task_counter apply_task_id
task_counter_lem zero = refl
task_counter_lem (suc n) = omega (arith, task_counter_lem n)

conn_counter_lem : (n : ℕ) → conn_counter (suc n) ≡ (2 + n % (2 ^ 16 - 1)) % 2 ^ 16
unfolding conn_counter apply_conn_id
conn_counter_lem zero = refl
conn_counter_lem (suc n) = ground (arith, conn_counter_lem n)

nth_conn_id-suc : (n : ℕ) → nth_conn_id (suc n) ≡ 1 + suc n % (2 ^ 16 - 1)
unfolding nth_conn_id apply_conn_id
nth_conn_id-suc n = ground (arith, conn_counter_lem n)

pub nth_conn_id_lem : (n : ℕ) → nth_conn_id n ≡ 1 + n % (2 ^ 16 - 1)
unfolding nth_conn_id apply_conn_id conn_counter
nth_conn_id_lem zero = refl
nth_conn_id_lem (suc n) = nth_conn_id-suc n

pub nth_task_id_lem : (n : ℕ) → nth_task_id n ≡ n % 2 ^ 64
unfolding nth_task_id apply_task_id
nth_task_id_lem n = task_counter_lem n

-- Two calls of the connection generator return the same id exactly when their numbers differ by
-- a multiple of 65535, and no call returns the invalid id 0.
pub nth_conn_id-cycle :
    (i j : ℕ)
    → (nth_conn_id i ≢ invalid_connid)
      × ((nth_conn_id i ≡ nth_conn_id j) ↔ (i % (2 ^ 16 - 1) ≡ j % (2 ^ 16 - 1)))
nth_conn_id-cycle i j = (
  omega (arith, nth_conn_id_lem i),
  (
    (λ e. omega (arith, nth_conn_id_lem i, nth_conn_id_lem j, e)),
    (λ e. omega (arith, nth_conn_id_lem i, nth_conn_id_lem j, e)),
  ),
)

-- Among 2^64 calls in a row no two return the same task id.
pub nth_task_id-distinct : (i j : ℕ) → i < j → j < i + 2 ^ 64 → nth_task_id i ≢ nth_task_id j
nth_task_id-distinct i j before near = omega (arith, nth_task_id_lem i, nth_task_id_lem j)
