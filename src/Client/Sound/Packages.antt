-- ===== src/Client/Sound/Packages.antt =====
-- The packages of a read: `_read_content_process` on a client.
use udpboardcast.Base.{
  ℕ, ◌≡◌, ◌⊎◌, refl, sym, ap, subst, ◌∙◌, inl, inr, Bool, true, false, List, [], ◌∷◌, none, some,
  ◌==◌, Bool-cases, Option-cases, ==_iff, arith,
}
use udpboardcast.Table.{find}
use udpboardcast.Table.Laws.{erase-absent}
use udpboardcast.Proto.{CommPkg, pkg_type_common, pkg_type_push}
use udpboardcast.ClientLoop.{
  Ptr, Task, push_message, ClientLoop, Outcome, ok, fault, ◌>>=◌, set_task, report,
}
use udpboardcast.ClientLoop.Tasks.{drop_timer, finish_task}
use udpboardcast.ClientLoop.Read.{answer, answer_task, handle_pkg, handle_pkgs}
use udpboardcast.ClientLoop.Conclude.{Concludes, set_task-Concludes}
use udpboardcast.ClientLoop.Answer.{dropped, dropped-Inv, answered, handle_pkg_common, answer_lem}
use udpboardcast.Client.{Client, mark}
use udpboardcast.Client.Sound.{Sound, Sound-Inv, listed-asleep}
use udpboardcast.Client.Sound.Rules.{Dropped-Over, Sound-Over}
use udpboardcast.Client.Sound.Parts.{Sound-conns}
use udpboardcast.Client.Sound.Branches.{undropped, TaskType-cases, answer_other, push_lem, odd_lem}

-- The caller of the task at `q` has been woken.
abbrev Awake : Ptr → ClientLoop → Type 0
Awake q s = (u : Task) × (s.tasks q ≡ some u) × (u.notified ≡ 1)

-- What packages leave: a request that has been answered counts as written no more, and who is
-- awake stays as he was.
pub record Reads (k : Client) (s : ClientLoop) : Type 0 where
  pub writing : Ptr → Bool
  pub sound : Sound (record k { loop = s; writing = writing })
  pub fewer : (q : Ptr) → writing q ≡ true → k.writing q ≡ true
  pub rest : (q : Ptr) → k.writing q ≡ true → (writing q ≡ true) ⊎ Awake q s
  pub awake : (q : Ptr) → Awake q k.loop → Awake q s

Reads-refl : (k : Client) → Sound k → Reads k k.loop
Reads-refl k v = record {
  writing = k.writing;
  sound = v;
  fewer = λ q on. on;
  rest = λ q on. inl on;
  awake = λ q a. a;
}

Reads-trans :
    (k : Client) (s s' : ClientLoop) (a : Reads k s)
    → Reads (record k { loop = s; writing = a.writing }) s'
    → Reads k s'
Reads-trans k s s' a b = record {
  writing = b.writing;
  sound = b.sound;
  fewer = λ q on. a.fewer q (b.fewer q on);
  rest =
      λ q on. elim (a.rest q on) [ inl still ↦ b.rest q still | inr woken ↦ inr (b.awake q woken) ];
  awake = λ q w. b.awake q (a.awake q w);
}

>>=-eq-ok :
    (r : Outcome) (f : ClientLoop → Outcome) (s : ClientLoop)
    → (r >>= f) ≡ ok s
    → (n : ClientLoop) × (r ≡ ok n) × (f n ≡ ok s)
>>=-eq-ok (ok n) f s e = (n, refl, e)
>>=-eq-ok fault f s e = cc

module _ (k : Client) (v : Sound k) (conn : ℕ) (pkg : CommPkg) where
  -- The answer to a request that waits.
  module _ (p : Ptr) (t : Task) (there : find pkg.task_id k.loop.task_table ≡ some p)
      (at : k.loop.tasks p ≡ some t) (own : t.task_id ≡ pkg.task_id) (asleep : t.notified ≡ 0) where
    ends :
        (c : Concludes p (answered pkg t) (dropped pkg.task_id k.loop (Sound-Inv k v)).next (
          finish_task p
            (set_task p (answered pkg t) (dropped pkg.task_id k.loop (Sound-Inv k v)).next)))
        → Reads k c.next
    ends c =
        let d = dropped pkg.task_id k.loop (Sound-Inv k v) in
        let o =
          Dropped-Over pkg.task_id k.loop d.next d refl refl refl refl c own
            (λ u at'. let same : t ≡ u = cc (at, at') in ap (λ (u : Task). u.task_type) same) in
        record {
          writing = mark k.writing p false;
          sound =
              Sound-Over k v pkg.task_id p there c.next (mark k.writing p false) k.connecting o
                (record {
                  running = c.rest.running ∙ d.rest.running;
                  inited = c.rest.inited ∙ d.rest.inited;
                  ptr = c.rest.next_ptr ∙ d.rest.next_ptr;
                  ids = λ n.
                      rw
                        (
                          c.rest.conn_table, c.rest.next_conn_id, d.rest.conn_table,
                          d.rest.next_conn_id,
                        )
                        n;
                })
                (λ q on. ground (arith, on)) (λ e j f _. f) (λ e j f. f)
                (rw
                  (
                    c.rest.conn_table, c.rest.conns, c.rest.next_ptr, d.rest.conn_table,
                    d.rest.conns, d.rest.next_ptr,
                  )
                  v.links)
                (λ e j f.
                  rw (c.rest.conn_table, c.rest.conns, d.rest.conn_table, d.rest.conns)
                    (v.asked e j f));
          fewer = λ q on. ground (arith, on);
          rest = λ q on. elim (Bool-cases (q == p)) [
            | inl same ↦
                inr
                  (subst (λ r. Awake r c.next) (sym ((==_iff q p).0 same)) (o.task, o.at, o.awake))
            | inr other ↦ inl (ground (arith, on, other))
          ];
          awake = λ q (u, was, woken). elim (Bool-cases (q == p)) [
            | inl same ↦
                let e : some u ≡ some t = sym was ∙ ap k.loop.tasks ((==_iff q p).0 same) ∙ at in
                ground (arith, e, woken, asleep)
            | inr other ↦ (u, o.others q other ∙ was, woken)
          ];
        }

  -- Nobody waits for the package: nothing changes.
  ignored :
      find pkg.task_id k.loop.task_table ≡ none
      → pkg.pkg_type ≡ pkg_type_common
      → handle_pkg conn pkg k.loop ≡ ok k.loop
  unfolding answer_task
  ignored absent common =
      let id = pkg.task_id in
      let untimed : find id k.loop.timer_table ≡ none =
        elim (Option-cases (find id k.loop.timer_table)) [
          | inl free ↦ free
          | inr (q, listed) ↦
              let (td, held, runs, own) = v.timed.armed id q listed in
              let (_, (p, waits), _) = v.timed.live q td held runs in
              cc (ap (λ j. find j k.loop.task_table) own, waits, absent)
        ] in
      handle_pkg_common conn pkg k.loop common
      ∙ rw absent (
          ap (λ m. drop_timer id (record (k.loop) { task_table = m }) >>= answer_task pkg none)
            (erase-absent id k.loop.task_table absent)
          ∙ ap (λ r. r >>= answer_task pkg none) (undropped id k.loop untimed))

  -- A package whose task waits: the task is a request, or the loop faults.
  found :
      (p : Ptr)
      → find pkg.task_id k.loop.task_table ≡ some p
      → pkg.pkg_type ≡ pkg_type_common
      → (s : ClientLoop) → handle_pkg conn pkg k.loop ≡ ok s
      → Reads k s
  unfolding answer_task
  found p there common s e =
      let (t, at, own) = v.placed.own pkg.task_id p there in
      let (_, asleep, _) = listed-asleep pkg.task_id p t v.placed there at in
      let d = dropped pkg.task_id k.loop (Sound-Inv k v) in
      let at' : d.next.tasks p ≡ some t = ap (λ m. m p) d.tasks ∙ at in
      let run : handle_pkg conn pkg k.loop ≡ answer pkg p d.next =
        handle_pkg_common conn pkg k.loop common
        ∙ ap (λ r. r >>= answer_task pkg (find pkg.task_id k.loop.task_table)) d.result
        ∙ ap (λ o. answer_task pkg o d.next) there in
      elim (TaskType-cases t.task_type) [
        | inl request ↦
            let c =
              set_task-Concludes p t (answered pkg t) d.next
                (dropped-Inv pkg.task_id k.loop (Sound-Inv k v)) at' refl refl asleep in
            let same : ok c.next ≡ ok s =
              sym c.result ∙ sym (answer_lem pkg p t d.next at' request) ∙ sym run ∙ e in
            subst (Reads k) (cc same) (ends p t there at own asleep c)
        | inr other ↦
            let wrong : fault ≡ ok s = sym (answer_other pkg p t d.next at' other) ∙ sym run ∙ e in
            cc wrong
      ]

  -- A pushed message is handed to the user.
  pushed : Reads k (report (push_message conn pkg.payload) k.loop)
  unfolding report
  pushed = record {
    writing = k.writing;
    sound =
        Sound-conns k v k.loop.conn_table k.loop.conns
          (push_message conn pkg.payload ∷ k.loop.events) (λ j c there. there) v.links v.asked;
    fewer = λ q on. on;
    rest = λ q on. inl on;
    awake = λ q w. w;
  }

  pub handle_pkg-Reads : (s : ClientLoop) → handle_pkg conn pkg k.loop ≡ ok s → Reads k s
  handle_pkg-Reads s e = elim (Bool-cases (pkg.pkg_type == pkg_type_common)) [
    | inl common ↦
        let is = (==_iff pkg.pkg_type pkg_type_common).0 common in
        elim (Option-cases (find pkg.task_id k.loop.task_table)) [
          | inl absent ↦
              let same : ok k.loop ≡ ok s = sym (ignored absent is) ∙ e in
              subst (Reads k) (cc same) (Reads-refl k v)
          | inr (p, there) ↦ found p there is s e
        ]
    | inr uncommon ↦ elim (Bool-cases (pkg.pkg_type == pkg_type_push)) [
      | inl push ↦
          let n = report (push_message conn pkg.payload) k.loop in
          let same : ok n ≡ ok s = sym (push_lem conn pkg k.loop uncommon push) ∙ e in
          subst (Reads k) (cc same) pushed
      | inr neither ↦
          let wrong : fault ≡ ok s = sym (odd_lem conn pkg k.loop uncommon neither) ∙ e in cc wrong
    ]
  ]

-- All packages of a read, if none makes the loop fault.
pub handle_pkgs-Reads :
    (conn : ℕ) (pkgs : List CommPkg) (k : Client) (s : ClientLoop)
    → Sound k
    → handle_pkgs conn pkgs k.loop ≡ ok s
    → Reads k s
unfolding handle_pkgs
handle_pkgs-Reads conn [] k s v e =
    let same : ok k.loop ≡ ok s = e in subst (Reads k) (cc same) (Reads-refl k v)
handle_pkgs-Reads conn (pkg ∷ pkgs) k s v e =
    let (n, first, later) = >>=-eq-ok (handle_pkg conn pkg k.loop) (handle_pkgs conn pkgs) s e in
    let a = handle_pkg-Reads k v conn pkg n first in
    Reads-trans k n s a
      (handle_pkgs-Reads conn pkgs (record k { loop = n; writing = a.writing }) s a.sound later)
