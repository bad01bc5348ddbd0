-- ===== src/ServerLoop/Rows.antt =====
-- The table of the server's connections against the connections in memory.
use udpboardcast.Base.{length, subst, ℕ, suc, ◌≤◌, ◌≡◌, sym, ap, ◌∙◌, [], ◌∷◌, some, arith}
use udpboardcast.Table.{Table, find, values, From, IsMap}
use udpboardcast.Table.Entries.{find-From}
use udpboardcast.ClientLoop.{Ptr, Conn}
use udpboardcast.ClientLoop.Links.{Links}
use udpboardcast.ServerLoop.{ServerLoop}
use udpboardcast.ServerLoop.Changes.{Live}

-- The entries of the table lead to connections in memory with their ids.
abbrev pub Rows : ServerLoop → Type 0
Rows s = Links s.conn_table s.conns s.next_ptr

-- A step that leaves the connections, the table and the flags as they are.
pub record Frame (s next : ServerLoop) : Type 0 where
  pub conns : next.conns ≡ s.conns
  pub table : next.conn_table ≡ s.conn_table
  pub ptr : s.next_ptr ≤ next.next_ptr
  pub running : next.running ≡ s.running
  pub inited : next.inited ≡ s.inited
  pub short : length s.queue ≤ 65 → length next.queue ≤ 65

pub Frame-tasks : (s next : ServerLoop) → next ≡ record s { tasks = next.tasks } → Frame s next
Frame-tasks s next same = record {
  conns = ap (λ s. s.conns) same;
  table = ap (λ s. s.conn_table) same;
  ptr = omega (arith, ap (λ s. s.next_ptr) same);
  running = ap (λ s. s.running) same;
  inited = ap (λ s. s.inited) same;
  short = λ h. omega (arith, h, ap (λ s. length s.queue) same);
}

pub Rows-Frame : (s next : ServerLoop) → Frame s next → Rows s → Rows next
Rows-Frame s next f r = record {
  rows = λ id c there.
      let (x, at, own) = r.rows id c (sym (ap (find id) f.table) ∙ there) in
      (x, ap (λ m. m c) f.conns ∙ at, own);
  keys = subst IsMap (sym f.table) r.keys;
  fresh = λ c new. ap (λ m. m c) f.conns ∙ r.fresh c (omega (arith, f.ptr, new));
}

Live-From :
    (n : ℕ) (m : Table Ptr) (s : ServerLoop)
    → From n m
    → ((id c : ℕ) → find id m ≡ some c → (x : Conn) × (s.conns c ≡ some x))
    → Live s (values m)
unfolding find
Live-From n [] s f known = tt
Live-From n ((j, d) ∷ m) s (low, f) known = (
  known j d (ground arith),
  Live-From (suc j) m s f (λ id c there.
      let above = find-From (suc j) id c m f there in known id c (ground (arith, there, above))),
)

-- Every connection of the table is in memory.
pub Rows-Live : (s : ServerLoop) → Rows s → Live s (values s.conn_table)
Rows-Live s r =
    Live-From 0 s.conn_table s r.keys (λ id c there. let (x, at, _) = r.rows id c there in (x, at))
