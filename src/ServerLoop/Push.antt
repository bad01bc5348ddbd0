-- ===== src/ServerLoop/Push.antt =====
-- A message pushed to all connections: `async_cb` with a `PUSH` task.
use udpboardcast.Base.{
  ℕ, ◌+◌, ◌≤◌, ◌≡◌, refl, sym, ap, ◌∙◌, inl, inr, true, false, List, [], ◌∷◌, ◌++◌, map, Option,
  some, ◌==◌, if◌then◌else◌, Bool-cases, append_assoc, arith, length, length-append,
}
use udpboardcast.Table.{values}
use udpboardcast.Proto.{CommPkg, pkg_type_push, proto_build_package}
use udpboardcast.ClientLoop.{Ptr, push_type, Task, Conn}
use udpboardcast.ServerLoop.{
  ServerLoop, Outcome, ok, ◌>>=◌, with_task, with_conn, remove, fail_task,
}
use udpboardcast.ServerLoop.Async.{
  UvResults, task_pkg, uv_write, push_to, push_each, do_push, run_task, async_cb,
}
use udpboardcast.ServerLoop.Changes.{Live}
use udpboardcast.ServerLoop.Rows.{Frame, Frame-tasks}
use udpboardcast.ServerLoop.Life.{count, Life, Held, fail_task-Woken, Life-mail}

-- The connections whose write libuv takes, the last first.
pub taken : (Ptr → ℕ) → List Ptr → List Ptr
taken rets [] = []
taken rets (c ∷ cs) = let later = taken rets cs in if rets c == 0 then later ++ c ∷ [] else later

-- Only what was sent and the count of push tasks differ.
abbrev pub pushed : List (Ptr × CommPkg) → ℕ → ServerLoop → ServerLoop
pushed sent k s = record s { sent = sent; pushes = k }

abbrev pub to_each : CommPkg → List Ptr → List (Ptr × CommPkg)
to_each pkg = map λ c. (c, pkg)

to_each-append :
    (pkg : CommPkg) (cs ds : List Ptr) → to_each pkg (cs ++ ds) ≡ to_each pkg cs ++ to_each pkg ds
to_each-append pkg [] ds = refl
to_each-append pkg (c ∷ cs) ds = ap (◌∷◌ (c, pkg)) (to_each-append pkg cs ds)

push_to_lem :
    (indata : List ℕ) (stale : ℕ) (rets : Ptr → ℕ) (c : Ptr) (x : Conn) (s : ServerLoop)
    → s.conns c ≡ some x
    → push_to indata stale rets c s
      ≡ ok (
          if rets c == 0
          then pushed
              ((c, proto_build_package indata pkg_type_push stale) ∷ s.sent)
              (s.pushes + 1)
              s
          else s)
unfolding push_to with_conn task_pkg uv_write
push_to_lem indata stale rets c x s live = ground (arith, live)

taken-nil : (rets : Ptr → ℕ) → taken rets [] ≡ []
unfolding taken
taken-nil rets = refl

taken-yes :
    (rets : Ptr → ℕ) (c : Ptr) (cs : List Ptr)
    → (rets c == 0) ≡ true
    → taken rets (c ∷ cs) ≡ taken rets cs ++ c ∷ []
unfolding taken
taken-yes rets c cs good = rw good

taken-no :
    (rets : Ptr → ℕ) (c : Ptr) (cs : List Ptr)
    → (rets c == 0) ≡ false
    → taken rets (c ∷ cs) ≡ taken rets cs
unfolding taken
taken-no rets c cs bad = rw bad

one_more :
    (pkg : CommPkg) (c : Ptr) (cs : List Ptr) (sent : List (Ptr × CommPkg))
    → to_each pkg cs ++ (c, pkg) ∷ sent ≡ to_each pkg (cs ++ c ∷ []) ++ sent
one_more pkg c cs sent = simp (to_each-append, append_assoc)

pushed_eq :
    (a b : List (Ptr × CommPkg)) (j k : ℕ) (s : ServerLoop)
    → a ≡ b
    → j ≡ k
    → pushed a j s ≡ pushed b k s
pushed_eq a b j k s e f = rw (e, f)

push_each_lem :
    (indata : List ℕ) (stale : ℕ) (rets : Ptr → ℕ) (cs : List Ptr) (s : ServerLoop)
    → Live s cs
    → let pkg = proto_build_package indata pkg_type_push stale in
      push_each indata stale rets cs s
      ≡ ok (pushed (to_each pkg (taken rets cs) ++ s.sent) (s.pushes + length (taken rets cs)) s)
unfolding push_each
push_each_lem indata stale rets [] s live = ap ok (
    pushed_eq _ _ _ _ s
      (ap (λ l. to_each (proto_build_package indata pkg_type_push stale) l ++ s.sent)
        (sym (taken-nil rets)))
      (omega (arith, ap length (taken-nil rets))))
push_each_lem indata stale rets (c ∷ cs) s ((x, at), live) =
    let pkg = proto_build_package indata pkg_type_push stale in
    let first =
      ap (λ r. r >>= push_each indata stale rets cs) (push_to_lem indata stale rets c x s at) in
    let ts = taken rets cs in
    elim (Bool-cases (rets c == 0)) [
      | inl good ↦
          let s' = pushed ((c, pkg) ∷ s.sent) (s.pushes + 1) s in
          let step : push_each indata stale rets (c ∷ cs) s ≡ push_each indata stale rets cs s' =
            first ∙ rw good in
          let all : push_each indata stale rets (c ∷ cs) s
              ≡ ok (
                  pushed (to_each pkg (ts ++ c ∷ []) ++ s.sent) (s.pushes + length (ts ++ c ∷ []))
                    s) =
            step
            ∙ push_each_lem indata stale rets cs s' live
            ∙ ap ok (
                pushed_eq _ _ _ _ s (one_more pkg c ts s.sent)
                  (omega (arith, length-append ts (c ∷ [])))) in
          all
          ∙ ap (λ l. ok (pushed (to_each pkg l ++ s.sent) (s.pushes + length l) s))
              (sym (taken-yes rets c cs good))
      | inr bad ↦
          let step : push_each indata stale rets (c ∷ cs) s ≡ push_each indata stale rets cs s =
            first ∙ rw bad in
          step
          ∙ push_each_lem indata stale rets cs s live
          ∙ ap (λ l. ok (pushed (to_each pkg l ++ s.sent) (s.pushes + length l) s))
              (sym (taken-no rets c cs bad))
    ]

-- The message of a push is sent once to each connection of the table whose write libuv takes, and to
-- no other, and the caller is woken with success.
pub record Pushes (p : Ptr) (t : Task) (uv : UvResults) (s : ServerLoop) (r : Outcome)
    : Type 0 where
  pub next : ServerLoop
  pub result : r ≡ ok next
  pub life : Life next
  pub at : next.tasks p ≡ some (record t { err = 0; notified = 1 })
  pub sent :
      next.sent
      ≡ to_each
          (proto_build_package t.indata pkg_type_push uv.stale)
          (taken uv.push_written (values s.conn_table))
        ++ s.sent
  pub others : (q : Ptr) → (q == p) ≡ false → next.tasks q ≡ s.tasks q
  pub frame : Frame s next

push_lem :
    (cb : Option (List ℕ → List ℕ)) (p : Ptr) (t : Task) (uv : UvResults) (s : ServerLoop)
    → s.running ≡ true
    → s.inited ≡ true
    → s.tasks p ≡ some t
    → t.task_type ≡ push_type
    → async_cb cb p uv s
      ≡ do_push p t uv.stale uv.push_written (record s { mail = remove p s.mail })
unfolding async_cb with_task run_task
push_lem cb p t uv s running ready at kind = ground (arith, running, ready, at, kind)

-- A push handed to the loop while it runs sends the caller's bytes, in one package of the type PUSH,
-- to exactly the connections of the table whose write libuv takes, and wakes the caller once with
-- success; nothing faults, each task stays in one place, and all other tasks stay as they were.
pub async_cb-Pushes :
    (cb : Option (List ℕ → List ℕ)) (p : Ptr) (t : Task) (uv : UvResults) (s : ServerLoop)
    → Life s
    → Live s (values s.conn_table)
    → s.running ≡ true
    → s.inited ≡ true
    → s.tasks p ≡ some t
    → t.task_type ≡ push_type
    → 1 ≤ count p s.mail
    → Pushes p t uv s (async_cb cb p uv s)
unfolding do_push
async_cb-Pushes cb p t uv s v live running ready at kind there =
    let s' : ServerLoop = record s { mail = remove p s.mail } in
    let pkg = proto_build_package t.indata pkg_type_push uv.stale in
    let ts = taken uv.push_written (values s.conn_table) in
    let s'' : ServerLoop = pushed (to_each pkg ts ++ s.sent) (s.pushes + length ts) s' in
    let h = Life-mail p t s v at there in
    let h' : Held p t s'' = record {
      others = h.others;
      at = h.at;
      idle = h.idle;
      asleep = h.asleep;
      fresh = h.fresh;
    } in
    let w = fail_task-Woken p t 0 s'' h' in
    record {
      next = w.next;
      result =
          push_lem cb p t uv s running ready at kind
          ∙ ap (λ r. r >>= fail_task p 0)
              (push_each_lem t.indata uv.stale uv.push_written (values s.conn_table) s' live)
          ∙ w.result;
      life = w.life;
      at = w.at;
      sent = ap (λ s. s.sent) w.same;
      others = w.others;
      frame =
          let f = Frame-tasks s'' w.next w.same in
          record {
            conns = f.conns;
            table = f.table;
            ptr = f.ptr;
            running = f.running;
            inited = f.inited;
            short = f.short;
          };
    }
