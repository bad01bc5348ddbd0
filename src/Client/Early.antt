-- ===== src/Client/Early.antt =====
-- An answer that comes before the callback for the write of its request.
use udpboardcast.Base.{ℕ, ◌≡◌, true, none, some, arith}
use udpboardcast.Table.{find}
use udpboardcast.Proto.{CommPkg, pkg_type_common}
use udpboardcast.ClientLoop.{Ptr, put, Task, ClientLoop, ok, fault, with_task}
use udpboardcast.ClientLoop.Tasks.{write_cb}
use udpboardcast.ClientLoop.Read.{handle_pkg}
use udpboardcast.ClientLoop.Finish.{woken}
use udpboardcast.ClientLoop.Answer.{handle_pkg-Answered}
use udpboardcast.Client.{Client, started, Runs}
use udpboardcast.Client.Sound.{Sound-Inv}
use udpboardcast.Client.Sound.Reach.{Runs-Sound}

-- The loop once the call whose task lay at `q` has returned.
abbrev pub returned_from : Ptr → ClientLoop → ClientLoop
returned_from q s = record s { tasks = put s.tasks q none }

write_gone : (q : Ptr) (status : ℕ) (s : ClientLoop) → write_cb q status (returned_from q s) ≡ fault
unfolding write_cb with_task
write_gone q status s = ground arith

-- If a package with the id of a request is the first answer to come before the callback for a write,
-- the request's own, which is still in flight, the request's caller
-- is woken at once; once the call has returned, the callback for the write uses the task on its
-- stack, which is gone.
pub Runs-AnsweredEarly :
    (k : Client) (q : Ptr) (t : Task) (conn status : ℕ) (pkg : CommPkg)
    → Runs started k
    → k.writing q ≡ true
    → k.loop.tasks q ≡ some t
    → pkg.pkg_type ≡ pkg_type_common
    → pkg.task_id ≡ t.task_id
    → (s : ClientLoop) × (u : Task) × (handle_pkg conn pkg k.loop ≡ ok s)
      × (s.tasks q ≡ some u)
      × (u.notified ≡ 1)
      × (write_cb q status (returned_from q s) ≡ fault)
Runs-AnsweredEarly k q t conn status pkg run on at common own =
    let v = Runs-Sound k run in
    let (t', at', kind, there, _) = v.written q on in
    let listed : find pkg.task_id k.loop.task_table ≡ some q =
      ground (arith, there, own, at, at') in
    let a = handle_pkg-Answered conn pkg q t' k.loop (Sound-Inv k v) common listed at' kind in
    (
      a.next,
      woken (record t' { err = 0; outdata = pkg.payload }),
      a.result,
      a.settled.at,
      omega (arith, a.settled.woken_once),
      write_gone q status a.next,
    )
