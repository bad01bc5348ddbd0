-- ===== src/Client/Sound/Over.antt =====
-- The end of a task of the table, as a change of the loop's state, keeps the invariant.
use udpboardcast.Base.{
  ℕ, ◌+◌, ◌≡◌, ◌≢◌, refl, sym, ap, ◌∙◌, inl, inr, Bool, true, false, Option, none, some, ◌==◌,
  if◌then◌else◌, Bool-cases, ==_iff, arith,
}
use udpboardcast.Table.{find, IsMap}
use udpboardcast.ClientLoop.{Ptr, Task, TimerData, ClientLoop}
use udpboardcast.ClientLoop.Clock.{Stops}
use udpboardcast.Client.Sound.{bit, listed, Placed, Timed, Attempts, Written, listed-asleep}

-- The task at `p` with this id has been woken, and it and its timer have left the tables.
pub record Over (id : ℕ) (p : Ptr) (s next : ClientLoop) : Type 0 where
  pub task : Task
  pub at : next.tasks p ≡ some task
  pub own : task.task_id ≡ id
  pub awake : task.notified ≡ 1
  pub kind : (t : Task) → s.tasks p ≡ some t → task.task_type ≡ t.task_type
  pub others : (q : Ptr) → (q == p) ≡ false → next.tasks q ≡ s.tasks q
  pub finds : (j : ℕ) → find j next.task_table ≡ (if j == id then none else find j s.task_table)
  pub keys : IsMap s.task_table → IsMap next.task_table
  pub clock : Stops id s.timer_table next.timer_table s.timers next.timers

module _ (id : ℕ) (p : Ptr) (s next : ClientLoop) (o : Over id p s next)
    (there : find id s.task_table ≡ some p) where
  module _ (mail : Ptr → Bool) (counter : ℕ) (v : Placed s.tasks s.task_table mail counter) where
    -- A task elsewhere has another id.
    other_id : (q : Ptr) (u : Task) → (q == p) ≡ false → s.tasks q ≡ some u → u.task_id ≢ id
    other_id q u other at same =
        let (t, at', own) = v.own id p there in
        let e : q ≡ p = v.ids q p u t at at' (same ∙ sym own) in ground (arith, e, other)

    -- Each task of the new state has one of the old state at its place, with the same id.
    before :
        (q : Ptr) (u : Task)
        → next.tasks q ≡ some u
        → (w : Task) × (s.tasks q ≡ some w) × (w.task_id ≡ u.task_id)
    before q u at = elim (Bool-cases (q == p)) [
      | inl same ↦
          let (t, at', own) = v.own id p there in
          let e : q ≡ p = ground (arith, same) in
          let f : next.tasks p ≡ some u = ap next.tasks (sym e) ∙ at in
          (t, ap s.tasks e ∙ at', ground (arith, own, o.own, o.at, f))
      | inr other ↦ (u, sym (o.others q other) ∙ at, refl)
    ]

    one :
        (q : Ptr) (u : Task)
        → next.tasks q ≡ some u
        → bit (mail q) + listed q u.task_id next.task_table + u.notified ≡ 1
    one q u at = elim (Bool-cases (q == p)) [
      | inl same ↦
          let e : q ≡ p = ground (arith, same) in
          let f : next.tasks p ≡ some u = ap next.tasks (sym e) ∙ at in
          let (t, at', own) = v.own id p there in
          let (_, _, idle) = listed-asleep id p t v there at' in
          ground (arith, e, f, o.at, o.own, o.awake, idle, o.finds u.task_id)
      | inr other ↦
          let at' : s.tasks q ≡ some u = sym (o.others q other) ∙ at in
          let apart = other_id q u other at' in
          ground (arith, v.one q u at', apart, o.finds u.task_id)
    ]

    pub Placed-Over : Placed next.tasks next.task_table mail counter
    Placed-Over = record {
      one = one;
      mailed = λ q sent.
          let (u, at, kind) = v.mailed q sent in
          let other : (q == p) ≡ false =
            let (t, at', own) = v.own id p there in
            let (_, _, idle) = listed-asleep id p t v there at' in ground (arith, idle, sent) in
          (u, o.others q other ∙ at, kind);
      own = λ j q listed.
          let old : find j s.task_table ≡ some q = ground (arith, o.finds j, listed) in
          let (u, at, own) = v.own j q old in
          let other : (q == p) ≡ false =
            let (t, at', own') = v.own id p there in
            ground (arith, o.finds j, listed, at, at', own, own') in
          (u, o.others q other ∙ at, own);
      ids = λ q r t u at at' same.
          let (t', was, e) = before q t at in
          let (u', was', e') = before r u at' in v.ids q r t' u' was was' (e ∙ same ∙ sym e');
      below = λ q t at. let (t', was, e) = before q t at in ground (arith, v.below q t' was, e);
      keys = o.keys v.keys;
    }

  module _ (connecting connecting' : Ptr → Option ℕ) (n : Ptr)
      (v : Timed s.timers s.timer_table s.task_table connecting n)
      (still : (c : Ptr) (j : ℕ) → connecting c ≡ some j → j ≢ id → connecting' c ≡ some j) where
    -- A timer under another id goes on.
    spared : (j q : ℕ) → find j s.timer_table ≡ some q → j ≢ id → find id s.timer_table ≢ some q
    spared j q listed other same =
        let (td, at, _, own) = v.armed j q listed in
        let (td', at', _, own') = v.armed id q same in ground (arith, at, at', own, own', other)

    -- A timer that runs did so before, under another id.
    ran :
        (q : Ptr) (td : TimerData)
        → next.timers q ≡ some td
        → td.closing ≡ false
        → (s.timers q ≡ some td) × (td.task_id ≢ id)
    ran q td at runs =
        let apart : find id s.timer_table ≢ some q = λ listed.
          let (td', at', _, _) = v.armed id q listed in
          let shut = o.clock.shut q td' listed at' in ground (arith, shut, at, runs) in
        let at' : s.timers q ≡ some td = sym (o.clock.kept q apart) ∙ at in
        (at', λ e. apart (ap (λ j. find j s.timer_table) (sym e) ∙ (v.live q td at' runs).0))

    pub Timed-Over : Timed next.timers next.timer_table next.task_table connecting' n
    Timed-Over = record {
      armed = λ j q listed.
          let other : j ≢ id = ground (arith, o.clock.finds j, listed) in
          let old : find j s.timer_table ≡ some q = ground (arith, o.clock.finds j, listed) in
          let (td, at, runs, own) = v.armed j q old in
          (td, o.clock.kept q (spared j q old other) ∙ at, runs, own);
      live = λ q td at runs.
          let (at', other) = ran q td at runs in
          let (listed, (w, waits), target) = v.live q td at' runs in
          (
            ground (arith, o.clock.finds td.task_id, listed, other),
            (w, ground (arith, o.finds td.task_id, waits, other)),
            λ c e. still c td.task_id (target c e) other,
          );
      keys = o.clock.keys v.keys;
      fresh = λ q new.
          let apart : find id s.timer_table ≢ some q =
            λ listed. let (td, at, _, _) = v.armed id q listed in cc (at, v.fresh q new) in
          o.clock.kept q apart ∙ v.fresh q new;
    }

  pub Written-Over :
      (writing writing' : Ptr → Bool)
      → ((q : Ptr) → writing' q ≡ true → (writing q ≡ true) × ((q == p) ≡ false))
      → Written writing s.tasks s.task_table s.timer_table
      → Written writing' next.tasks next.task_table next.timer_table
  Written-Over writing writing' fewer v q on =
      let (was, other) = fewer q on in
      let (t, at, kind, waits, idle) = v q was in
      (
        t,
        o.others q other ∙ at,
        kind,
        ground (arith, o.finds t.task_id, waits, there, other),
        ground (arith, o.clock.finds t.task_id, idle),
      )

  pub Attempts-Over :
      (connecting connecting' : Ptr → Option ℕ) (mail : Ptr → Bool) (counter : ℕ)
      → Placed s.tasks s.task_table mail counter
      → ((c : Ptr) (j : ℕ) → connecting' c ≡ some j → connecting c ≡ some j)
      → Attempts connecting s.tasks counter
      → Attempts connecting' next.tasks counter
  Attempts-Over connecting connecting' mail counter v fewer a c j e =
      let (given, kind) = a c j (fewer c j e) in
      (
        given,
        λ q u at same. elim (Bool-cases (q == p)) [
          | inl here ↦
              let f : next.tasks p ≡ some u = ap next.tasks (sym ((==_iff q p).0 here)) ∙ at in
              let (t, was, own) = v.own id p there in
              let g : some o.task ≡ some u = sym o.at ∙ f in
              let w : o.task ≡ u = cc g in
              ap (λ (u : Task). u.task_type) (sym w)
              ∙ o.kind t was
              ∙ kind p t was (own ∙ sym o.own ∙ ap (λ (u : Task). u.task_id) w ∙ same)
          | inr other ↦ kind q u (sym (o.others q other) ∙ at) same
        ],
      )
