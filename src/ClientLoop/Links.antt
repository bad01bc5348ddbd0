-- ===== src/ClientLoop/Links.antt =====
-- A table of connections against the connections in memory.
use udpboardcast.Base.{
  ℕ, ◌+◌, ◌≤◌, ◌≡◌, ◌≢◌, inl, inr, false, Option, none, some, ◌==◌, Bool-cases, arith,
}
use udpboardcast.Table.{Table, find, insert, erase, IsMap}
use udpboardcast.Table.Laws.{find-erase, find-insert, IsMap-erase, IsMap-insert}
use udpboardcast.ClientLoop.{Ptr, Conn, put}

-- An entry of the table leads to a connection in memory that has the entry's key as its id; `n` is
-- the next address that is given out.
pub record Links (m : Table Ptr) (conns : Ptr → Option Conn) (n : Ptr) : Type 0 where
  pub rows : (id c : ℕ) → find id m ≡ some c → (x : Conn) × (conns c ≡ some x) × (x.conn_id ≡ id)
  pub keys : IsMap m
  pub fresh : (c : Ptr) → n ≤ c → conns c ≡ none

module _ (m : Table Ptr) (conns : Ptr → Option Conn) (n : Ptr) where
  -- A connection that keeps its id.
  pub Links-put :
      (c : Ptr) (x y : Conn)
      → conns c ≡ some x
      → y.conn_id ≡ x.conn_id
      → Links m conns n
      → Links m (put conns c (some y)) n
  Links-put c x y at own r = record {
    rows = λ id d there.
        let (z, at', own') = r.rows id d there in
        elim (Bool-cases (d == c)) [
          | inl same ↦ (y, rw same, ground (arith, same, at, at', own, own'))
          | inr other ↦ (z, rw other at', own')
        ];
    keys = r.keys;
    fresh = λ d new. ground (arith, r.fresh d new, at);
  }

  -- A connection that is not in the table.
  pub Links-off :
      (c : Ptr) (x : Conn) (o : Option Conn)
      → conns c ≡ some x
      → ((j : ℕ) → find j m ≢ some c)
      → Links m conns n
      → Links m (put conns c o) n
  Links-off c x o at out r = record {
    rows = λ id d there.
        let (z, at', own) = r.rows id d there in
        let other : (d == c) ≡ false = ground (arith, there, out id) in (z, rw other at', own);
    keys = r.keys;
    fresh = λ d new. ground (arith, r.fresh d new, at);
  }

  pub Links-erase : (id : ℕ) → Links m conns n → Links (erase id m) conns n
  Links-erase id r = record {
    rows = λ j c there. r.rows j c (ground (arith, find-erase j id m, there));
    keys = IsMap-erase id m r.keys;
    fresh = r.fresh;
  }

  -- A connection that is deleted, with the entry at its id.
  pub Links-delete :
      (c : Ptr) (x : Conn)
      → conns c ≡ some x
      → Links m conns n
      → Links (erase x.conn_id m) (put conns c none) n
  Links-delete c x at r = record {
    rows = λ id d there.
        let (z, at', own) = r.rows id d (ground (arith, find-erase id x.conn_id m, there)) in
        let apart : (d == c) ≡ false =
          ground (arith, find-erase id x.conn_id m, there, at, at', own) in
        (z, rw apart at', own);
    keys = IsMap-erase x.conn_id m r.keys;
    fresh = λ d new. ground (arith, r.fresh d new);
  }

  -- A new connection that is not in the table.
  pub Links-new : (x : Conn) → Links m conns n → Links m (put conns n (some x)) (n + 1)
  Links-new x r = record {
    rows = λ id d there.
        let (z, at, own) = r.rows id d there in
        let other : (d == n) ≡ false = ground (arith, at, r.fresh n (omega arith)) in
        (z, rw other at, own);
    keys = r.keys;
    fresh = λ d new. ground (arith, r.fresh d (omega (arith, new)));
  }

  -- A connection that is entered at an id that is free.
  pub Links-insert :
      (id : ℕ) (c : Ptr) (x : Conn)
      → conns c ≡ some x
      → ((j : ℕ) → (find j m ≢ some c))
      → Links m conns n
      → Links (insert id c m) (put conns c (some (record x { conn_id = id }))) n
  Links-insert id c x at new r = record {
    rows = λ j d there. elim (Bool-cases (j == id)) [
      | inl same ↦
          let own : d ≡ c = ground (arith, find-insert j id c m, there, same) in
          (record x { conn_id = id }, ground (arith, own), ground (arith, same))
      | inr other ↦
          let before : find j m ≡ some d = ground (arith, find-insert j id c m, there, other) in
          let (z, at', own') = r.rows j d before in
          let apart : (d == c) ≡ false = ground (arith, before, new j) in (z, rw apart at', own')
    ];
    keys = IsMap-insert id c m r.keys;
    fresh = λ d later. ground (arith, r.fresh d later, at);
  }
