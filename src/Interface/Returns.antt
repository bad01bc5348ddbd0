-- ===== src/Interface/Returns.antt =====
-- What `async_send` returns after the loop has ended its task.
use udpboardcast.Base.{ℕ, ◌+◌, ◌≡◌, refl, ap, some}
use udpboardcast.Table.{find}
use udpboardcast.Proto.{CommPkg, pkg_type_common}
use udpboardcast.ClientLoop.{Ptr, Task, ClientLoop, ok, rw_type}
use udpboardcast.ClientLoop.Read.{handle_pkg}
use udpboardcast.ClientLoop.Invariant.{Inv}
use udpboardcast.ClientLoop.Finish.{woken}
use udpboardcast.ClientLoop.Answer.{handle_pkg-Answered}
use udpboardcast.Interface.{async_send_result}

-- When the answer to a request that waits arrives, the step of the loop leaves its caller awake,
-- and `async_send` returns 0 with the answer's payload.
pub async_send_result-handle_pkg :
    (conn : ℕ) (pkg : CommPkg) (p : Ptr) (t : Task) (s : ClientLoop)
    → Inv s
    → pkg.pkg_type ≡ pkg_type_common
    → find pkg.task_id s.task_table ≡ some p
    → s.tasks p ≡ some t
    → t.task_type ≡ rw_type
    → (s' : ClientLoop) × (t' : Task) × (handle_pkg conn pkg s ≡ ok s')
      × (s'.tasks p ≡ some t')
      × (t'.notified ≡ 1)
      × (async_send_result t' ≡ (0, some pkg.payload))
unfolding async_send_result
async_send_result-handle_pkg conn pkg p t s v common there at request =
    let a = handle_pkg-Answered conn pkg p t s v common there at request in
    (
      a.next,
      woken (record t { err = 0; outdata = pkg.payload }),
      a.result,
      a.settled.at,
      ap (λ k. k + 1) a.settled.woken_once,
      refl,
    )
