-- ===== src/ServerLoop/Changes.antt =====
-- A change of each connection of a list that is in memory.
use udpboardcast.Base.{
  ◌≡◌, refl, ap, ◌∙◌, inl, inr, Bool, true, false, List, [], ◌∷◌, Option, none, some, ◌==◌,
  if◌then◌else◌, Bool-cases, arith,
}
use udpboardcast.ClientLoop.{Ptr, Conn, put}
use udpboardcast.ServerLoop.{ServerLoop, Outcome, ok, ◌>>=◌, with_conn, set_conn}
use udpboardcast.ServerLoop.Async.{for_each}

-- The connections are in memory.
abbrev pub Live : ServerLoop → List Ptr → Type 0
Live s [] = Unit
Live s (c ∷ cs) = ((x : Conn) × (s.conns c ≡ some x)) × Live s cs

-- A change of each connection of a list.
abbrev pub change : (Conn → Conn) → Ptr → ServerLoop → Outcome
change f c s = with_conn c s λ x. ok (set_conn c (f x) s)

abbrev pub is_in : Ptr → List Ptr → Bool
is_in c [] = false
is_in c (d ∷ ds) = if c == d then true else is_in c ds

abbrev pub changed : (Conn → Conn) → Option Conn → Option Conn
changed f none = none
changed f (some x) = some (f x)

pub record Changes (f : Conn → Conn) (cs : List Ptr) (s : ServerLoop) (r : Outcome) : Type 0 where
  pub conns : Ptr → Option Conn
  pub result : r ≡ ok (record s { conns = conns })
  pub each : (c : Ptr) → conns c ≡ (if is_in c cs then changed f (s.conns c) else s.conns c)

pub Live-put :
    (cs : List Ptr) (c : Ptr) (x : Conn) (s : ServerLoop)
    → Live s cs
    → Live (record s { conns = put s.conns c (some x) }) cs
Live-put [] c x s live = tt
Live-put (d ∷ ds) c x s ((y, at), live) = (
  elim (Bool-cases (d == c)) [ inl same ↦ (x, rw same) | inr other ↦ (y, rw other at) ],
  Live-put ds c x s live,
)

pub Live-same : (cs : List Ptr) (s s' : ServerLoop) → s'.conns ≡ s.conns → Live s cs → Live s' cs
Live-same [] s s' same live = tt
Live-same (c ∷ cs) s s' same ((x, at), live) =
    ((x, ap (λ m. m c) same ∙ at), Live-same cs s s' same live)

change_lem :
    (f : Conn → Conn) (c : Ptr) (x : Conn) (s : ServerLoop)
    → s.conns c ≡ some x
    → change f c s ≡ ok (record s { conns = put s.conns c (some (f x)) })
unfolding with_conn set_conn
change_lem f c x s at = rw (at, with_conn)

pub change_each :
    (f : Conn → Conn) (cs : List Ptr) (s : ServerLoop)
    → ((x : Conn) → f (f x) ≡ f x)
    → Live s cs
    → Changes f cs s (for_each (change f) cs s)
unfolding for_each
change_each f [] s idem live = record { conns = s.conns; result = refl; each = λ c. refl }
change_each f (c ∷ cs) s idem ((x, at), live) =
    let s' : ServerLoop = record s { conns = put s.conns c (some (f x)) } in
    let r = change_each f cs s' idem (Live-put cs c (f x) s live) in
    record {
      conns = r.conns;
      result = ap (λ r. r >>= for_each (change f) cs) (change_lem f c x s at) ∙ r.result;
      each = λ d. ground (arith, r.each d, at, idem x);
    }

-- What was in memory still is.
pub Live-Changes :
    (f : Conn → Conn) (cs ds : List Ptr) (s : ServerLoop) {r : Outcome} (h : Changes f cs s r)
    → Live s ds
    → Live (record s { conns = h.conns }) ds
Live-Changes f cs [] s h live = tt
Live-Changes f cs (d ∷ ds) s h ((x, at), live) = (
  elim (Bool-cases (is_in d cs)) [
    | inl hit ↦ (f x, h.each d ∙ rw (hit, at))
    | inr miss ↦ (x, h.each d ∙ rw (miss, at))
  ],
  Live-Changes f cs ds s h live,
)
