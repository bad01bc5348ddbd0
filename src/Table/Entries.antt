-- ===== src/Table/Entries.antt =====
-- What holds of every entry of a table.
use udpboardcast.Base.{
  ℕ, suc, ◌≤◌, ◌≡◌, subst, inl, inr, [], ◌∷◌, some, All, ◌==◌, Bool-cases, arith,
}
use udpboardcast.Table.{Table, find, From}

pub find-From : (n id p : ℕ) (m : Table ℕ) → From n m → find id m ≡ some p → n ≤ id
unfolding find
find-From n id p [] f there = cc
find-From n id p ((j, q) ∷ m) (low, f) there = elim (Bool-cases (id == j)) [
  | inl same ↦ ground (arith, same, low)
  | inr other ↦
      let later : find id m ≡ some p = ground (arith, other, there) in
      omega (arith, low, find-From (suc j) id p m f later)
]

pub All-From :
    (P : ℕ → ℕ → Type 0) (n : ℕ) (m : Table ℕ)
    → From n m
    → ((id p : ℕ) → find id m ≡ some p → P id p)
    → All (λ e. P e.0 e.1) m
unfolding find
All-From P n [] f each = tt
All-From P n ((j, q) ∷ m) (low, f) each = (
  each j q (ground arith),
  All-From P (suc j) m f (λ id p there.
      let above = find-From (suc j) id p m f there in each id p (ground (arith, there, above))),
)

-- What holds of every entry holds of the one that is found.
pub All-find :
    (P : ℕ × ℕ → Type 0) (id p : ℕ) (m : Table ℕ) → find id m ≡ some p → All P m → P (id, p)
unfolding find
All-find P id p [] there all = cc there
All-find P id p ((j, q) ∷ m) there (first, all) = elim (Bool-cases (id == j)) [
  | inl same ↦
      let e : j ≡ id = ground (arith, same) in
      let f : q ≡ p = ground (arith, there, same) in
      subst (λ i. P (i, p)) e (subst (λ r. P (j, r)) f first)
  | inr other ↦ All-find P id p m (ground (arith, there, other)) all
]
