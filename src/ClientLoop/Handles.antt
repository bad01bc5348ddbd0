-- ===== src/ClientLoop/Handles.antt =====
-- The first two loops of `_client_shutdown`: the handles of the connections and of the timers.
use udpboardcast.Base.{
  ◌≡◌, refl, sym, ap, ◌∙◌, inl, inr, true, false, List, [], ◌∷◌, Option, none, some, All, ◌==◌,
  Bool-cases, arith,
}
use udpboardcast.ClientLoop.{
  Ptr, put, Conn, TimerData, ClientLoop, Outcome, ok, ◌>>=◌, with_conn, with_timer, set_conn,
  set_timer, close_conn, close_timer, close_target,
}
use udpboardcast.ClientLoop.Async.{for_each, stop_conn, stop_timer}
use udpboardcast.ClientLoop.Invariant.{put_self}
use udpboardcast.ClientLoop.Keeps.{Keeps, Ended, Present, Keeps-put, Keeps-trans, Keeps-Present}

pub record StopsConns (cs : List Ptr) (s : ClientLoop) (r : Outcome) : Type 0 where
  pub conns : Ptr → Option Conn
  pub result : r ≡ ok (record s { conns = conns })
  pub keeps : Keeps s.conns conns
  pub ended : All (Ended conns) cs

stop_conn_lem :
    (c : Ptr) (x : Conn) (s : ClientLoop)
    → s.conns c ≡ some x
    → let x' : Conn = record x { reading = false } in
      stop_conn c s
      ≡ ok (record s {
        conns = put (put s.conns c (some x')) c (some (record x' { closing = true }));
      })
unfolding stop_conn close_conn with_conn set_conn
stop_conn_lem c x s at = ground (arith, at)

pub stop_conn-StopsConns :
    (cs : List Ptr) (s : ClientLoop)
    → All (Present s.conns) cs
    → StopsConns cs s (for_each stop_conn cs s)
unfolding for_each
stop_conn-StopsConns [] s all = record {
  conns = s.conns;
  result = refl;
  keeps = λ c x at. (x, at, (λ e. e), (λ e. e));
  ended = tt;
}
stop_conn-StopsConns (c ∷ cs) s ((x, at), all) =
    let x' : Conn = record x { reading = false } in
    let y : Conn = record x' { closing = true } in
    let m1 = put s.conns c (some x') in
    let m2 = put m1 c (some y) in
    let k =
      Keeps-trans s.conns m1 m2 (Keeps-put s.conns c x x' at (λ e. e) (λ e. refl))
        (Keeps-put m1 c x' y (put_self s.conns c x') (λ e. refl) (λ e. refl)) in
    let rest =
      stop_conn-StopsConns cs (record s { conns = m2 }) (Keeps-Present s.conns m2 cs k all) in
    record {
      conns = rest.conns;
      result = ap (λ r. r >>= for_each stop_conn cs) (stop_conn_lem c x s at) ∙ rest.result;
      keeps = Keeps-trans s.conns m2 rest.conns k rest.keeps;
      ended =
          let (z, there, closed, quiet) = rest.keeps c y (put_self m1 c y) in
          ((z, there, closed refl, quiet refl), rest.ended);
    }

-- The timer at `q` is in memory, and so is the connection that it closes, if it has one.
abbrev pub Armed : ClientLoop → Ptr → Type 0
Armed s q =
    (td : TimerData) × (s.timers q ≡ some td) × ((c : Ptr) → td.target ≡ some c → Present s.conns c)

abbrev after_timer : Ptr → TimerData → ClientLoop → ClientLoop
after_timer q td s = record s { timers = put s.timers q (some (record td { closing = true })) }

close_timer_lem :
    (q : Ptr) (td : TimerData) (s : ClientLoop)
    → s.timers q ≡ some td
    → close_timer q s ≡ ok (after_timer q td s)
unfolding close_timer with_timer set_timer
close_timer_lem q td s at = rw (at, close_timer, with_timer) refl

stop_timer_lem :
    (q : Ptr) (td : TimerData) (s : ClientLoop)
    → s.timers q ≡ some td
    → stop_timer q s ≡ close_target td.target (after_timer q td s)
unfolding stop_timer with_timer
stop_timer_lem q td s at =
    rw (at, stop_timer, with_timer)
      (ap (λ r. r >>= close_target td.target) (close_timer_lem q td s at))

pub record StopsTimers (s : ClientLoop) (r : Outcome) : Type 0 where
  pub conns : Ptr → Option Conn
  pub timers : Ptr → Option TimerData
  pub result : r ≡ ok (record s { conns = conns; timers = timers })
  pub keeps : Keeps s.conns conns
  pub armed :
      (q : Ptr) (td : TimerData)
      → s.timers q ≡ some td
      → (td' : TimerData) × (timers q ≡ some td') × (td'.target ≡ td.target)

same_target :
    (m : Ptr → Option TimerData) (q : Ptr) (td : TimerData)
    → m q ≡ some td
    → (q' : Ptr) (u : TimerData) → m q' ≡ some u
    → (u' : TimerData) × (put m q (some (record td { closing = true })) q' ≡ some u')
      × (u'.target ≡ u.target)
same_target m q td at q' u there = elim (Bool-cases (q' == q)) [
  | inl same ↦
      let one : some td ≡ some u = sym at ∙ ap m (ground (arith, same)) ∙ there in
      (record td { closing = true }, rw same refl, cc one)
  | inr other ↦ (u, rw other there, refl)
]

stop_target :
    (o : Option Ptr) (q : Ptr) (td : TimerData) (s : ClientLoop)
    → s.timers q ≡ some td
    → ((c : Ptr) → o ≡ some c → Present s.conns c)
    → StopsTimers s (close_target o (after_timer q td s))
unfolding close_target close_conn with_conn set_conn
stop_target none q td s at there = record {
  conns = s.conns;
  timers = put s.timers q (some (record td { closing = true }));
  result = refl;
  keeps = λ c x at. (x, at, (λ e. e), (λ e. e));
  armed = same_target s.timers q td at;
}
stop_target (some c) q td s at there =
    let (x, live) = there c refl in
    record {
      conns = put s.conns c (some (record x { closing = true }));
      timers = put s.timers q (some (record td { closing = true }));
      result = rw (live, close_target, close_conn, with_conn) refl;
      keeps = Keeps-put s.conns c x (record x { closing = true }) live (λ e. refl) (λ e. e);
      armed = same_target s.timers q td at;
    }

pub Armed-after :
    (qs : List Ptr) (s s' : ClientLoop)
    → Keeps s.conns s'.conns
    → ((q : Ptr) (td : TimerData)
        → s.timers q ≡ some td
        → (td' : TimerData) × (s'.timers q ≡ some td') × (td'.target ≡ td.target))
    → All (Armed s) qs
    → All (Armed s') qs
Armed-after [] s s' k armed all = tt
Armed-after (q ∷ qs) s s' k armed ((td, at, target), all) =
    let (td', at', same) = armed q td at in
    (
      (
        td',
        at',
        λ c e.
            let (x, live) = target c (sym same ∙ e) in
            let (y, live', _, _) = k c x live in (y, live'),
      ),
      Armed-after qs s s' k armed all,
    )

pub stop_timer-StopsTimers :
    (qs : List Ptr) (s : ClientLoop) → All (Armed s) qs → StopsTimers s (for_each stop_timer qs s)
unfolding for_each
stop_timer-StopsTimers [] s all = record {
  conns = s.conns;
  timers = s.timers;
  result = refl;
  keeps = λ c x at. (x, at, (λ e. e), (λ e. e));
  armed = λ q td at. (td, at, refl);
}
stop_timer-StopsTimers (q ∷ qs) s ((td, at, target), all) =
    let one = stop_target td.target q td s at target in
    let s' : ClientLoop = record s { conns = one.conns; timers = one.timers } in
    let rest = stop_timer-StopsTimers qs s' (Armed-after qs s s' one.keeps one.armed all) in
    record {
      conns = rest.conns;
      timers = rest.timers;
      result =
          ap (λ r. r >>= for_each stop_timer qs) (stop_timer_lem q td s at ∙ one.result)
          ∙ rest.result;
      keeps = Keeps-trans s.conns one.conns rest.conns one.keeps rest.keeps;
      armed = λ q' u there.
          let (u', there', same) = one.armed q' u there in
          let (u'', there'', same') = rest.armed q' u' there' in (u'', there'', same' ∙ same);
    }
