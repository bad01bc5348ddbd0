-- ===== src/ClientLoop/Shutdown.antt =====
-- The last loop of `_client_shutdown`, over the tasks.
use udpboardcast.Base.{
  ℕ, suc, ◌≤◌, ◌≡◌, refl, sym, ap, ◌∙◌, false, [], ◌∷◌, some, All, ◌==◌, arith, Bool-cases, inl,
  inr,
}
use udpboardcast.Table.{Table, From, values}
use udpboardcast.Errors.{err_shutdown}
use udpboardcast.ClientLoop.{Ptr, Task, ClientLoop, Outcome, ok, ◌>>=◌}
use udpboardcast.ClientLoop.Async.{for_each, shut_task}
use udpboardcast.ClientLoop.Invariant.{Inv, Waits, SameRest, untouched}
use udpboardcast.ClientLoop.Finish.{woken}
use udpboardcast.ClientLoop.Conclude.{fail_task-Concludes}

-- The task of an entry waits before, and its caller has been woken once with `err_shutdown` after.
abbrev pub Shut : ClientLoop → ClientLoop → ℕ × Ptr → Type 0
Shut s s' e =
    (t : Task) × (s.tasks e.1 ≡ some t)
    × (t.notified ≡ 0)
    × (s'.tasks e.1 ≡ some (woken (record t { err = err_shutdown })))

pub record ShutsDown (m : Table Ptr) (s : ClientLoop) (r : Outcome) : Type 0 where
  pub next : ClientLoop
  pub result : r ≡ ok next
  pub inv : Inv next
  pub shut : All (Shut s next) m
  pub rest : SameRest s next
  pub others : (q : Ptr) → All (λ e. (q == e.1) ≡ false) m → next.tasks q ≡ s.tasks q

-- Two tasks with different ids lie at different addresses.
apart :
    (tasks : ClientLoop) (i j p q : ℕ)
    → suc i ≤ j
    → Waits tasks.tasks i p
    → Waits tasks.tasks j q
    → (q == p) ≡ false
apart s i j p q less w w' = elim (Bool-cases (q == p)) [
  | inl same ↦ absurd (ground (arith, same, less, w.at, w'.at, w.own_id, w'.own_id))
  | inr other ↦ other
]

-- The entries behind the first, after its task has ended.
later_wait :
    (m : Table Ptr) (n i p : ℕ) (s s' : ClientLoop)
    → suc i ≤ n
    → From n m
    → Waits s.tasks i p
    → ((q : Ptr) → (q == p) ≡ false → s'.tasks q ≡ s.tasks q)
    → All (λ e. Waits s.tasks e.0 e.1) m
    → All (λ e. Waits s'.tasks e.0 e.1) m
later_wait [] n i p s s' less order w same all = tt
later_wait ((j, q) ∷ m) n i p s s' less (first, order) w same (w', all) =
    let less' : suc i ≤ j = omega (arith, less, first) in
    let other = apart s i j p q less' w w' in
    (
      record { task = w'.task; at = same q other ∙ w'.at; own_id = w'.own_id; asleep = w'.asleep },
      later_wait m (suc j) i p s s' (omega (arith, less')) order w same all,
    )

later_apart :
    (m : Table Ptr) (n i p : ℕ) (s : ClientLoop)
    → suc i ≤ n
    → From n m
    → Waits s.tasks i p
    → All (λ e. Waits s.tasks e.0 e.1) m
    → All (λ e. ((e.1 == p) ≡ false) × ((p == e.1) ≡ false)) m
later_apart [] n i p s less order w all = tt
later_apart ((j, q) ∷ m) n i p s less (first, order) w (w', all) =
    let less' : suc i ≤ j = omega (arith, less, first) in
    let other = apart s i j p q less' w w' in
    ((other, ground (arith, other)), later_apart m (suc j) i p s (omega (arith, less')) order w all)

-- What the later steps show of a task holds from before the first.
carried_back :
    (m : Table Ptr) (p : Ptr) (s s' s'' : ClientLoop)
    → ((q : Ptr) → (q == p) ≡ false → s'.tasks q ≡ s.tasks q)
    → All (λ e. ((e.1 == p) ≡ false) × ((p == e.1) ≡ false)) m
    → All (Shut s' s'') m
    → All (Shut s s'') m
carried_back [] p s s' s'' same far all = tt
carried_back ((j, q) ∷ m) p s s' s'' same ((other, _), far) ((t, at, asleep, after), all) =
    ((t, sym (same q other) ∙ at, asleep, after), carried_back m p s s' s'' same far all)

seen_from :
    (m : Table Ptr) (p : Ptr)
    → All (λ e. ((e.1 == p) ≡ false) × ((p == e.1) ≡ false)) m
    → All (λ e. (p == e.1) ≡ false) m
seen_from [] p far = tt
seen_from (e ∷ m) p ((_, other), far) = (other, seen_from m p far)

-- The loop over the tasks of a shutdown: if each entry of the table leads to a task that waits
-- under its key, no step faults, the caller of each of them is woken once, with `err_shutdown`, and
-- every other task stays as it was.
pub shut_task-ShutsDown :
    (m : Table Ptr) (n : ℕ) (s : ClientLoop)
    → From n m
    → Inv s
    → All (λ e. Waits s.tasks e.0 e.1) m
    → ShutsDown m s (for_each shut_task (values m) s)
unfolding for_each shut_task
shut_task-ShutsDown [] n s order v waiting = record {
  next = s;
  result = refl;
  inv = v;
  shut = tt;
  rest = untouched;
  others = λ q far. refl;
}
shut_task-ShutsDown ((i, p) ∷ m) n s (_, order) v (w, waiting) =
    let c = fail_task-Concludes p w.task err_shutdown s v w.at w.asleep in
    let far = later_apart m (suc i) i p s (omega arith) order w waiting in
    let rest =
      shut_task-ShutsDown m (suc i) c.next order c.inv
        (later_wait m (suc i) i p s c.next (omega arith) order w c.others waiting) in
    record {
      next = rest.next;
      result = ap (λ r. r >>= for_each shut_task (values m)) c.result ∙ rest.result;
      inv = rest.inv;
      shut = (
        (w.task, w.at, w.asleep, rest.others p (seen_from m p far) ∙ c.settled.at),
        carried_back m p s c.next rest.next c.others far rest.shut,
      );
      rest = record {
        running = rest.rest.running ∙ c.rest.running;
        inited = rest.rest.inited ∙ c.rest.inited;
        conn_table = rest.rest.conn_table ∙ c.rest.conn_table;
        conns = rest.rest.conns ∙ c.rest.conns;
        next_ptr = rest.rest.next_ptr ∙ c.rest.next_ptr;
        events = rest.rest.events ∙ c.rest.events;
        next_conn_id = rest.rest.next_conn_id ∙ c.rest.next_conn_id;
      };
      others = λ q away. rest.others q away.1 ∙ c.others q away.0;
    }
