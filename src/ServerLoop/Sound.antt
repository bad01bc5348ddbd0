-- ===== src/ServerLoop/Sound.antt =====
-- The invariant of the server's loop.
pub mod Conns
pub mod Tasks
pub mod Reach
pub mod Ends
use udpboardcast.Base.{
  length, ℕ, suc, ◌+◌, ◌≤◌, ◌≡◌, ◌≢◌, refl, sym, ap, subst, ◌∙◌, inl, inr, true, false, List, [],
  ◌∷◌, Option, none, some, ◌==◌, leb, length, if◌then◌else◌, Bool-cases, Option-cases, arith,
}
use udpboardcast.Table.{find}
use udpboardcast.Proto.{CommPkg, pkg_type_alive, pkg_type_common}
use udpboardcast.Stream.{Received, received, out_of_bounds, never_returns, receive}
use udpboardcast.GenId.{apply_conn_id}
use udpboardcast.ClientLoop.{Ptr, Conn, put}
use udpboardcast.ClientLoop.Read.{Nread, nothing, failed, bytes}
use udpboardcast.ServerLoop.{
  ServerLoop, Outcome, ok, fault, hangs, ◌>>=◌, with_conn, set_conn, close_conn, sl_conn_find,
  sl_conn_del, sl_conn_add,
}
use udpboardcast.ServerLoop.Requests.{
  server_handler_req, handle_pkg, handle_pkgs, handle_known, read_content,
}
use udpboardcast.ServerLoop.Listen.{
  Accepting, new_conn, start_reading, add_conn, listen_cb, lose_conn, read_cb, close_cb,
}
use udpboardcast.ServerLoop.Life.{Life}
use udpboardcast.ServerLoop.Rows.{Rows, Frame, Rows-Frame}
use udpboardcast.ServerLoop.Accepted.{server_handler_req-Queued}
use udpboardcast.ServerLoop.Full.{server_handler_req-full}

-- The loop runs, each task is in one place, the table leads to the connections in memory, and at
-- most 65 jobs wait.
pub record Sound (s : ServerLoop) : Type 0 where
  pub life : Life s
  pub rows : Rows s
  pub running : s.running ≡ true
  pub inited : s.inited ≡ true
  pub short : length s.queue ≤ 65

-- What holds if the handler comes to its end.
abbrev pub Holds : (ServerLoop → Type 0) → Outcome → Type 0
Holds P (ok s) = P s
Holds P fault = Unit
Holds P hangs = Unit

pub Holds-bind :
    (P : ServerLoop → Type 0) (r : Outcome) (f : ServerLoop → Outcome)
    → Holds P r
    → ((s : ServerLoop) → P s → Holds P (f s))
    → Holds P (r >>= f)
Holds-bind P (ok s) f h each = each s h
Holds-bind P fault f h each = tt
Holds-bind P hangs f h each = tt

pub Sound-Frame : (s next : ServerLoop) → Frame s next → Life next → Sound s → Sound next
Sound-Frame s next f life v = record {
  life = life;
  rows = Rows-Frame s next f v.rows;
  running = f.running ∙ v.running;
  inited = f.inited ∙ v.inited;
  short = f.short v.short;
}

on_conn :
    (o : Option Conn) (f : Conn → Outcome)
    → ((x : Conn) → o ≡ some x → Holds Sound (f x))
    → Holds Sound (elim o [ none ↦ fault | some x ↦ f x ])
on_conn none f each = tt
on_conn (some x) f each = each x refl

pub Holds-with_conn :
    (c : Ptr) (s : ServerLoop) (f : Conn → Outcome)
    → ((x : Conn) → s.conns c ≡ some x → Holds Sound (f x))
    → Holds Sound (with_conn c s f)
unfolding with_conn
Holds-with_conn c s f each = on_conn (s.conns c) f each

-- The connections change, and addresses may have been given out.
pub Sound-conns :
    (s s' : ServerLoop)
    → Rows s'
    → s' ≡ record s {
      conns = s'.conns;
      conn_table = s'.conn_table;
      next_ptr = s'.next_ptr;
      next_conn_id = s'.next_conn_id;
    }
    → s.next_ptr ≤ s'.next_ptr
    → Sound s
    → Sound s'
Sound-conns s s' rows same later v = record {
  life =
      subst Life (sym same)
        record { one = v.life.one; fresh = λ p new. v.life.fresh p (omega (arith, later, new)) };
  rows = rows;
  running = ap (λ s. s.running) same ∙ v.running;
  inited = ap (λ s. s.inited) same ∙ v.inited;
  short = omega (arith, v.short, ap (λ s. length s.queue) same);
}
