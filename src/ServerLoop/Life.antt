-- ===== src/ServerLoop/Life.antt =====
-- The life of a task on the server: from its creation to its end it is in one place at a time.
use udpboardcast.Base.{
  ℕ, suc, ◌+◌, ◌-◌, ◌≤◌, ◌≡◌, refl, ◌∙◌, inl, inr, false, List, [], ◌∷◌, ◌++◌, Option, none, some,
  ◌==◌, if◌then◌else◌, Bool-cases, arith,
}
use udpboardcast.ClientLoop.{Ptr, Task}
use udpboardcast.ClientLoop.Invariant.{put_self, put_other}
use udpboardcast.ServerLoop.{
  ServerLoop, Outcome, ok, with_task, set_task, remove, finish_task, fail_task,
}

abbrev pub count : Ptr → List Ptr → ℕ
count p [] = 0
count p (q ∷ qs) = if p == q then suc (count p qs) else count p qs

-- Whether there is a task, and how many posts its semaphore has.
abbrev pub alive : Option Task → ℕ
alive none = 0
alive (some t) = 1

abbrev pub posts : Option Task → ℕ
posts none = 0
posts (some t) = t.notified

-- The places of the task at `p`: the pool's queue, a thread that runs its callback, the way to the
-- loop, a write that libuv has not ended, and, once its waiter is woken, a post.
abbrev pub lists : Ptr → ServerLoop → ℕ
lists p s = count p s.queue + count p s.working + count p s.mail + count p s.writing

abbrev pub places : Ptr → ServerLoop → ℕ
places p s = lists p s + posts (s.tasks p)

-- Every task is in one place, and what is not a task in none; new addresses are unused.
pub record Life (s : ServerLoop) : Type 0 where
  pub one : (p : Ptr) → places p s ≡ alive (s.tasks p)
  pub fresh : (p : Ptr) → s.next_ptr ≤ p → s.tasks p ≡ none

-- The task at `p` has been taken out of its place, and is in none.
pub record Held (p : Ptr) (t : Task) (s : ServerLoop) : Type 0 where
  pub others : (q : Ptr) → (q == p) ≡ false → places q s ≡ alive (s.tasks q)
  pub at : s.tasks p ≡ some t
  pub idle : lists p s ≡ 0
  pub asleep : t.notified ≡ 0
  pub fresh : (q : Ptr) → s.next_ptr ≤ q → s.tasks q ≡ none

pub count-remove_self : (p : Ptr) (qs : List Ptr) → count p (remove p qs) ≡ count p qs - 1
unfolding remove
count-remove_self p [] = omega arith
count-remove_self p (q ∷ qs) = ground (arith, count-remove_self p qs)

pub count-remove_other :
    (q p : Ptr) (qs : List Ptr) → (q == p) ≡ false → count q (remove p qs) ≡ count q qs
unfolding remove
count-remove_other q p [] h = refl
count-remove_other q p (x ∷ qs) h = ground (arith, h, count-remove_other q p qs h)

pub count-append : (p : Ptr) (qs rs : List Ptr) → count p (qs ++ rs) ≡ count p qs + count p rs
count-append p [] rs = omega arith
count-append p (q ∷ qs) rs = ground (arith, count-append p qs rs)

-- A task that is held gets a place again.
pub Held-placed :
    (p : Ptr) (t t' : Task) (s s' : ServerLoop)
    → Held p t s
    → s'.tasks p ≡ some t'
    → ((q : Ptr) → (q == p) ≡ false → s'.tasks q ≡ s.tasks q)
    → s'.next_ptr ≡ s.next_ptr
    → ((q : Ptr) → (q == p) ≡ false → lists q s' ≡ lists q s)
    → lists p s' + t'.notified ≡ 1
    → Life s'
Held-placed p t t' s s' h at' same_tasks ptr away placed = record {
  one = λ q. elim (Bool-cases (q == p)) [
    | inl same ↦ ground (arith, same, placed, at')
    | inr other ↦ ground (arith, other, away q other, h.others q other, same_tasks q other)
  ];
  fresh = λ q new.
      let unused : s.tasks q ≡ none = h.fresh q (omega (arith, ptr)) in
      elim (Bool-cases (q == p)) [
        | inl same ↦ ground (arith, same, unused, h.at)
        | inr other ↦ same_tasks q other ∙ unused
      ];
}

-- A write to its other fields leaves it held.
pub Held-set_task :
    (p : Ptr) (t t' : Task) (s : ServerLoop)
    → Held p t s
    → t'.notified ≡ t.notified
    → Held p t' (set_task p t' s)
unfolding set_task
Held-set_task p t t' s h same = record {
  others = λ q other. rw (put_other s.tasks p (some t') q other) (h.others q other);
  at = put_self s.tasks p t';
  idle = h.idle;
  asleep = same ∙ h.asleep;
  fresh = λ q new. ground (arith, h.fresh q new, h.at);
}

-- A task that is held ends: its waiter is woken, that is its place, and only tasks change.
pub record Woken (p : Ptr) (t : Task) (s : ServerLoop) (r : Outcome) : Type 0 where
  pub next : ServerLoop
  pub result : r ≡ ok next
  pub life : Life next
  pub at : next.tasks p ≡ some (record t { notified = 1 })
  pub others : (q : Ptr) → (q == p) ≡ false → next.tasks q ≡ s.tasks q
  pub same : next ≡ record s { tasks = next.tasks }

pub finish_task-Woken :
    (p : Ptr) (t : Task) (s : ServerLoop) → Held p t s → Woken p t s (finish_task p s)
unfolding finish_task with_task set_task
finish_task-Woken p t s h =
    let t' : Task = record t { notified = t.notified + 1 } in
    record {
      next = set_task p t' s;
      result = rw (h.at, finish_task, with_task);
      life =
          Held-placed p t t' s (set_task p t' s) h (put_self s.tasks p t')
            (put_other s.tasks p (some t')) refl (λ q other. refl)
            (omega (arith, h.idle, h.asleep));
      at = ground (arith, h.asleep);
      others = λ q other. put_other s.tasks p (some t') q other;
      same = refl;
    }

pub fail_task-Woken :
    (p : Ptr) (t : Task) (e : ℕ) (s : ServerLoop)
    → Held p t s
    → Woken p (record t { err = e }) s (fail_task p e s)
unfolding fail_task with_task set_task
fail_task-Woken p t e s h =
    let t' : Task = record t { err = e } in
    let w = finish_task-Woken p t' (set_task p t' s) (Held-set_task p t t' s h refl) in
    record {
      next = w.next;
      result = rw (h.at, fail_task, with_task) w.result;
      life = w.life;
      at = w.at;
      others = λ q other. w.others q other ∙ put_other s.tasks p (some t') q other;
      same = w.same;
    }

held :
    (p : Ptr) (t : Task) (s : ServerLoop) → Life s → s.tasks p ≡ some t → lists p s + t.notified ≡ 1
held p t s v at = ground (arith, v.one p, at)

-- To take a task out of the loop's mail, or of the writes.
pub Life-mail :
    (p : Ptr) (t : Task) (s : ServerLoop)
    → Life s
    → s.tasks p ≡ some t
    → 1 ≤ count p s.mail
    → Held p t (record s { mail = remove p s.mail })
Life-mail p t s v at there = record {
  others = λ q other. omega (arith, v.one q, count-remove_other q p s.mail other);
  at = at;
  idle = omega (arith, held p t s v at, count-remove_self p s.mail);
  asleep = omega (arith, held p t s v at);
  fresh = v.fresh;
}

pub Life-writing :
    (p : Ptr) (t : Task) (s : ServerLoop)
    → Life s
    → s.tasks p ≡ some t
    → 1 ≤ count p s.writing
    → Held p t (record s { writing = remove p s.writing })
Life-writing p t s v at there = record {
  others = λ q other. omega (arith, v.one q, count-remove_other q p s.writing other);
  at = at;
  idle = omega (arith, held p t s v at, count-remove_self p s.writing);
  asleep = omega (arith, held p t s v at);
  fresh = v.fresh;
}

pub Life-working :
    (p : Ptr) (t : Task) (s : ServerLoop)
    → Life s
    → s.tasks p ≡ some t
    → 1 ≤ count p s.working
    → Held p t (record s { working = remove p s.working })
Life-working p t s v at there = record {
  others = λ q other. omega (arith, v.one q, count-remove_other q p s.working other);
  at = at;
  idle = omega (arith, held p t s v at, count-remove_self p s.working);
  asleep = omega (arith, held p t s v at);
  fresh = v.fresh;
}
