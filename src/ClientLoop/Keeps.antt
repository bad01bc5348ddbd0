-- ===== src/ClientLoop/Keeps.antt =====
-- Connections that stay in memory while handles are closed.
use udpboardcast.Base.{
  ◌≡◌, refl, sym, ap, ◌∙◌, inl, inr, true, false, List, [], ◌∷◌, Option, some, All, ◌==◌,
  Bool-cases, arith,
}
use udpboardcast.ClientLoop.{Ptr, put, Conn}

-- A connection of `s` is still one of `s'`, and what was closed or not read stays so.
abbrev pub Keeps : (Ptr → Option Conn) → (Ptr → Option Conn) → Type 0
Keeps m m' =
    (c : Ptr) (x : Conn)
    → m c ≡ some x
    → (x' : Conn) × (m' c ≡ some x')
      × (x.closing ≡ true → x'.closing ≡ true)
      × (x.reading ≡ false → x'.reading ≡ false)

-- The connection at `c` is closed and not read.
abbrev pub Ended : (Ptr → Option Conn) → Ptr → Type 0
Ended m c = (x : Conn) × (m c ≡ some x) × (x.closing ≡ true) × (x.reading ≡ false)

abbrev pub Present : (Ptr → Option Conn) → Ptr → Type 0
Present m c = (x : Conn) × (m c ≡ some x)

pub Present-put :
    (m : Ptr → Option Conn) (c : Ptr) (x : Conn) (d : Ptr)
    → Present m d
    → Present (put m c (some x)) d
Present-put m c x d (y, at) = elim (Bool-cases (d == c)) [
  | inl same ↦ (x, rw same refl)
  | inr other ↦ (y, rw other at)
]

pub Keeps-put :
    (m : Ptr → Option Conn) (c : Ptr) (x y : Conn)
    → m c ≡ some x
    → (x.closing ≡ true → y.closing ≡ true)
    → (x.reading ≡ false → y.reading ≡ false)
    → Keeps m (put m c (some y))
Keeps-put m c x y at closed quiet d z there = elim (Bool-cases (d == c)) [
  | inl same ↦
      let one : some z ≡ some x = sym there ∙ ap m (ground (arith, same)) ∙ at in
      (y, rw same refl, (λ e. closed (cc (one, e))), (λ e. quiet (cc (one, e))))
  | inr other ↦ (z, rw other there, (λ e. e), (λ e. e))
]

pub Keeps-trans : (m m' m'' : Ptr → Option Conn) → Keeps m m' → Keeps m' m'' → Keeps m m''
Keeps-trans m m' m'' k k' c x at =
    let (y, at', closed, quiet) = k c x at in
    let (z, at'', closed', quiet') = k' c y at' in
    (z, at'', (λ e. closed' (closed e)), (λ e. quiet' (quiet e)))

pub Keeps-Ended :
    (m m' : Ptr → Option Conn) (cs : List Ptr) → Keeps m m' → All (Ended m) cs → All (Ended m') cs
Keeps-Ended m m' [] k all = tt
Keeps-Ended m m' (c ∷ cs) k ((x, at, closed, quiet), all) =
    let (y, at', closed', quiet') = k c x at in
    ((y, at', closed' closed, quiet' quiet), Keeps-Ended m m' cs k all)

pub Keeps-Present :
    (m m' : Ptr → Option Conn) (cs : List Ptr)
    → Keeps m m'
    → All (Present m) cs
    → All (Present m') cs
Keeps-Present m m' [] k all = tt
Keeps-Present m m' (c ∷ cs) k ((x, at), all) =
    let (y, at', _, _) = k c x at in ((y, at'), Keeps-Present m m' cs k all)
