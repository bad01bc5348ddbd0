-- ===== src/ServerLoop/PoolEnd.antt =====
-- The end of the pool of threads: `threadpool_uninit` in `_server_shutdown`.
use udpboardcast.Base.{
  ℕ, ◌+◌, ◌≤◌, ◌≡◌, refl, ap, ◌∙◌, ◌⊎◌, inl, inr, true, false, List, [], ◌∷◌, Option, some, ◌==◌,
  leb, Bool-cases, arith,
}
use udpboardcast.ClientLoop.{Ptr, Task}
use udpboardcast.ServerLoop.{ServerLoop, Outcome, ok, fault, hangs, ◌>>=◌, with_task}
use udpboardcast.ServerLoop.Async.{
  for_each, clear_queue, is_resp, join_waiting, join_working, join_busy, join_idle,
  threadpool_uninit,
}
use udpboardcast.ServerLoop.Life.{count, lists}
use udpboardcast.ServerLoop.Accepted.{svr_work_cb-stopped}

abbrev pub Bad : Outcome → Type 0
Bad r = (r ≡ fault) ⊎ (r ≡ hangs)

join_hangs :
    (p : Ptr) (t : Task) (s : ServerLoop)
    → s.tasks p ≡ some t
    → is_resp t.task_type ≡ true
    → t.notified ≡ 0
    → join_waiting p s ≡ hangs
unfolding join_waiting with_task
join_hangs p t s at resp unwoken = ground (arith, at, resp, unwoken)

join_skips :
    (p : Ptr) (t : Task) (s : ServerLoop)
    → s.tasks p ≡ some t
    → is_resp t.task_type ≡ false
    → join_waiting p s ≡ ok s
unfolding join_waiting with_task
join_skips p t s at other = ground (arith, at, other)

-- The threads whose tasks are in a list of tasks that nobody has woken.
join_each :
    (ps : List Ptr) (s : ServerLoop)
    → ((p : Ptr) → 1 ≤ count p ps → (t : Task) × (s.tasks p ≡ some t) × (t.notified ≡ 0))
    → (for_each join_waiting ps s ≡ hangs)
      ⊎ ((for_each join_waiting ps s ≡ ok s)
          × ((p : Ptr) (t : Task)
              → 1 ≤ count p ps
              → s.tasks p ≡ some t
              → is_resp t.task_type ≡ false))
unfolding for_each
join_each [] s asleep = inr (refl, λ p t there at. absurd (omega arith))
join_each (p ∷ ps) s asleep =
    let (t, at, unwoken) = asleep p (ground arith) in
    let rest = join_each ps s (λ q there. asleep q (ground (arith, there))) in
    elim (Bool-cases (is_resp t.task_type)) [
      | inl resp ↦ inl (ap (λ r. r >>= for_each join_waiting ps) (join_hangs p t s at resp unwoken))
      | inr other ↦
          let step = ap (λ r. r >>= for_each join_waiting ps) (join_skips p t s at other) in
          elim rest [
            | inl stuck ↦ inl (step ∙ stuck)
            | inr (through, nobody) ↦ inr (
              step ∙ through,
              λ q u there at'. elim (Bool-cases (q == p)) [
                | inl same ↦ ground (arith, same, at, at', other)
                | inr apart ↦ nobody q u (ground (arith, there, apart)) at'
              ],
            )
          ]
    ]

List-cases : (ps : List Ptr) → (ps ≡ []) ⊎ ((p : Ptr) × (qs : List Ptr) × (ps ≡ p ∷ qs))
List-cases [] = inl refl
List-cases (p ∷ qs) = inr (p, qs, refl)

-- Every task that is on the way to the loop or being written is in memory and not woken.
abbrev pub Asleep : ServerLoop → List Ptr → Type 0
Asleep s ps = (p : Ptr) → 1 ≤ count p ps → (t : Task) × (s.tasks p ≡ some t) × (t.notified ≡ 0)

abbrev pub InFlight : Ptr → Task → ServerLoop → Type 0
InFlight p t s = (s.tasks p ≡ some t) × (is_resp t.task_type ≡ true) × (1 ≤ lists p s)

nowhere :
    (p : Ptr) (t : Task) (s : ServerLoop)
    → s.tasks p ≡ some t
    → is_resp t.task_type ≡ true
    → 1 ≤ count p s.mail + count p s.writing
    → ((q : Ptr) (u : Task) → 1 ≤ count q s.mail → s.tasks q ≡ some u → is_resp u.task_type ≡ false)
    → ((q : Ptr) (u : Task)
        → 1 ≤ count q s.writing
        → s.tasks q ≡ some u
        → is_resp u.task_type ≡ false)
    → ⊥
nowhere p t s at resp there nobody nobody' = elim (Bool-cases (leb 1 (count p s.mail))) [
  | inl mail ↦ cc (resp, nobody p t (ground (arith, mail)) at)
  | inr other ↦ cc (resp, nobody' p t (ground (arith, other, there)) at)
]

clear_empty : (s : ServerLoop) → s.queue ≡ [] → clear_queue s ≡ ok s
unfolding clear_queue
clear_empty s empty = ground (arith, empty)

join_stopped :
    (cb : Option (List ℕ → List ℕ)) (p : Ptr) (s : ServerLoop)
    → s.running ≡ false
    → join_working cb p s ≡ fault
unfolding join_working
join_stopped cb p s stopped = ap (λ r. r >>= join_waiting p) (svr_work_cb-stopped cb p s stopped)

clear_waiting :
    (q : Ptr) (qs : List Ptr) (s : ServerLoop) → s.queue ≡ q ∷ qs → clear_queue s ≡ fault
unfolding clear_queue
clear_waiting q qs s e = rw (e, clear_queue)

uninit_queued :
    (cb : Option (List ℕ → List ℕ)) (q : Ptr) (qs : List Ptr) (s : ServerLoop)
    → s.queue ≡ q ∷ qs
    → join_busy cb s ≡ fault
unfolding join_busy clear_queue
uninit_queued cb q qs s e =
    ap
      (λ r.
        r
        >>= for_each (join_working cb) s.working
        >>= for_each join_waiting s.mail
        >>= for_each join_waiting s.writing)
      (clear_waiting q qs s e)

-- With an empty queue the threads end, those that run a callback first.
uninit_joins :
    (cb : Option (List ℕ → List ℕ)) (ws : List Ptr) (s : ServerLoop)
    → s.queue ≡ []
    → s.working ≡ ws
    → join_busy cb s ≡ (
        for_each (join_working cb) ws s
        >>= for_each join_waiting s.mail
        >>= for_each join_waiting s.writing)
unfolding join_busy
uninit_joins cb ws s empty at_work =
    let waiting : Outcome → Outcome =
      λ r. r >>= for_each join_waiting s.mail >>= for_each join_waiting s.writing in
    ap (λ r. waiting (r >>= for_each (join_working cb) s.working)) (clear_empty s empty)
    ∙ ap (λ l. waiting (for_each (join_working cb) l s)) at_work

uninit_working :
    (cb : Option (List ℕ → List ℕ)) (q : Ptr) (qs : List Ptr) (s : ServerLoop)
    → s.queue ≡ []
    → s.working ≡ q ∷ qs
    → s.running ≡ false
    → join_busy cb s ≡ fault
unfolding for_each
uninit_working cb q qs s empty busy stopped =
    uninit_joins cb (q ∷ qs) s empty busy
    ∙ ap
        (λ r.
          r
          >>= for_each (join_working cb) qs
          >>= for_each join_waiting s.mail
          >>= for_each join_waiting s.writing)
        (join_stopped cb q s stopped)

pub uninit_quiet :
    (cb : Option (List ℕ → List ℕ)) (s : ServerLoop)
    → s.queue ≡ []
    → s.working ≡ []
    → join_busy cb s ≡ (for_each join_waiting s.mail s >>= for_each join_waiting s.writing)
unfolding for_each
uninit_quiet cb s empty idle = uninit_joins cb [] s empty idle

join_both :
    (p : Ptr) (t : Task) (s : ServerLoop)
    → Asleep s s.mail
    → Asleep s s.writing
    → s.tasks p ≡ some t
    → is_resp t.task_type ≡ true
    → 1 ≤ count p s.mail + count p s.writing
    → (for_each join_waiting s.mail s >>= for_each join_waiting s.writing) ≡ hangs
join_both p t s mail writing at resp there = elim (join_each s.mail s mail) [
  | inl stuck ↦ ap (λ r. r >>= for_each join_waiting s.writing) stuck
  | inr (through, nobody) ↦
      ap (λ r. r >>= for_each join_waiting s.writing) through
      ∙ elim (join_each s.writing s writing) [
        | inl stuck ↦ stuck
        | inr (_, nobody') ↦ absurd (nowhere p t s at resp there nobody nobody')
      ]
]

join_busy-Bad :
    (cb : Option (List ℕ → List ℕ)) (p : Ptr) (t : Task) (s : ServerLoop)
    → s.running ≡ false
    → Asleep s s.mail
    → Asleep s s.writing
    → InFlight p t s
    → Bad (join_busy cb s)
join_busy-Bad cb p t s stopped mail writing (at, resp, there) = elim (List-cases s.queue) [
  | inr (q, qs, e) ↦ inl (uninit_queued cb q qs s e)
  | inl empty ↦ elim (List-cases s.working) [
    | inr (q, qs, e) ↦ inl (uninit_working cb q qs s empty e stopped)
    | inl idle ↦
        let there' : 1 ≤ count p s.mail + count p s.writing =
          omega (arith, ap (count p) empty, ap (count p) idle) in
        inr (uninit_quiet cb s empty idle ∙ join_both p t s mail writing at resp there')
  ]
]

pub threadpool_uninit-Bad :
    (cb : Option (List ℕ → List ℕ)) (p : Ptr) (t : Task) (s : ServerLoop)
    → s.running ≡ false
    → Asleep s s.mail
    → Asleep s s.writing
    → InFlight p t s
    → Bad (threadpool_uninit cb s)
unfolding threadpool_uninit
threadpool_uninit-Bad cb p t s stopped mail writing flying =
    elim (join_busy-Bad cb p t s stopped mail writing flying) [
      | inl broken ↦ inl (ap (λ r. r >>= join_idle) broken)
      | inr stuck ↦ inr (ap (λ r. r >>= join_idle) stuck)
    ]

-- The idle threads end if none of them is about to wait.
pub uninit_awake :
    (cb : Option (List ℕ → List ℕ)) (s : ServerLoop)
    → s.dozing ≡ false
    → join_busy cb s ≡ ok s
    → threadpool_uninit cb s ≡ ok s
unfolding threadpool_uninit join_idle
uninit_awake cb s awake through = ap (λ r. r >>= join_idle) through ∙ rw awake refl

-- Nobody waits for the tasks of a list.
pub join_through :
    (ps : List Ptr) (s : ServerLoop)
    → ((p : Ptr)
        → 1 ≤ count p ps
        → (t : Task) × (s.tasks p ≡ some t) × (is_resp t.task_type ≡ false))
    → for_each join_waiting ps s ≡ ok s
unfolding for_each
join_through [] s nobody = refl
join_through (p ∷ ps) s nobody =
    let (t, at, other) = nobody p (ground arith) in
    ap (λ r. r >>= for_each join_waiting ps) (join_skips p t s at other)
    ∙ join_through ps s (λ q there. nobody q (ground (arith, there)))
