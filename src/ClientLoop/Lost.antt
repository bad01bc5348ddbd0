-- ===== src/ClientLoop/Lost.antt =====
-- A connection that breaks: the error branch of `read_cb`, and the `close_cb` that follows.
use udpboardcast.Base.{
  ℕ, ◌≡◌, refl, ap, ◌∙◌, true, false, [], ◌∷◌, none, some, arith, ◌==◌, ==_refl, if◌then◌else◌,
}
use udpboardcast.Table.{find, erase}
use udpboardcast.Table.Laws.{find-erase_self}
use udpboardcast.ClientLoop.{
  Ptr, Conn, conn_changed, ClientLoop, Outcome, ok, ◌>>=◌, set_conn, cl_conn_del, cl_conn_find,
  report, put,
}
use udpboardcast.ClientLoop.Read.{
  requests_on, others_than, finish_lost, lose_conn, failed, read_cb, close_cb,
}
use udpboardcast.ClientLoop.Invariant.{with_conn_lem, close_conn_lem, put_self}

abbrev pub broken : Conn → Conn
broken x = record x { reading = false; closing = true }

-- The loop once the connection is closed, out of the table, and reported.
unfoldable pub after_loss : Ptr → Conn → ClientLoop → ClientLoop
after_loss c x s = record s {
  conns = put (put s.conns c (some (record x { reading = false }))) c (some (broken x));
  conn_table = erase x.conn_id s.conn_table;
  events = conn_changed x.conn_id x.ip false ∷ s.events;
  task_table = others_than x.conn_id s.tasks s.task_table;
}

pub lose_conn_lem :
    (c : Ptr) (x : Conn) (s : ClientLoop)
    → s.conns c ≡ some x
    → lose_conn c s ≡ finish_lost (requests_on x.conn_id s.tasks s.task_table) (after_loss c x s)
unfolding lose_conn after_loss report cl_conn_del set_conn
lose_conn_lem c x s at =
    with_conn_lem c s _ at
    ∙ ap
        (λ r. r >>= λ n. finish_lost (requests_on x.conn_id n.tasks n.task_table) (record n {
          conn_table = erase x.conn_id n.conn_table;
          events = conn_changed x.conn_id x.ip false ∷ n.events;
          task_table = others_than x.conn_id n.tasks n.task_table;
        }))
        (close_conn_lem c (record x { reading = false })
          (set_conn c (record x { reading = false }) s) (put_self s.conns c _))

close_cb_absent :
    (c : Ptr) (x : Conn) (s : ClientLoop)
    → s.conns c ≡ some x
    → find x.conn_id s.conn_table ≡ none
    → close_cb c s ≡ ok (record s { conns = λ a. if a == c then none else s.conns a })
unfolding close_cb cl_conn_find
close_cb_absent c x s at absent = with_conn_lem c s _ at ∙ ground (arith, absent)

-- A broken connection on which nothing waits.
pub record LostOnce (c : Ptr) (x : Conn) (s : ClientLoop) (r : Outcome) : Type 0 where
  pub next : ClientLoop
  pub result : r ≡ ok next
  pub reported : next.events ≡ conn_changed x.conn_id x.ip false ∷ s.events
  pub unlisted : find x.conn_id next.conn_table ≡ none
  pub deleted : next.conns c ≡ none

-- A read that fails while no request waits on the connection, and the `close_cb` that it brings
-- about, tell the user exactly once that the connection is gone, take it out of the table, and
-- delete it.
pub read_cb-close_cb :
    (c : Ptr) (x : Conn) (err : ℕ) (s : ClientLoop)
    → s.conns c ≡ some x
    → requests_on x.conn_id s.tasks s.task_table ≡ []
    → LostOnce c x s (read_cb c (failed err) s >>= close_cb c)
unfolding read_cb finish_lost after_loss
read_cb-close_cb c x err s at idle = record {
  next = record (after_loss c x s) {
    conns = λ a. if a == c then none else (after_loss c x s).conns a;
  };
  result =
      ap (λ r. r >>= close_cb c)
        (lose_conn_lem c x s at ∙ ap (λ qs. finish_lost qs (after_loss c x s)) idle)
      ∙ close_cb_absent c (broken x) (after_loss c x s) (put_self (put s.conns c _) c (broken x))
          (find-erase_self x.conn_id s.conn_table);
  reported = refl;
  unlisted = find-erase_self x.conn_id s.conn_table;
  deleted = rw (==_refl c);
}
