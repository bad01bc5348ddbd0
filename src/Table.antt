-- ===== src/Table.antt =====
-- `std::map` with unsigned keys, as an association list in ascending order of the keys: the
-- connection, task and timer tables of Communication/core/comm_res.h.
pub mod Laws
pub mod Entries
use udpboardcast.Base.{
  ℕ, suc, ◌≤◌, List, [], ◌∷◌, Option, none, some, ltb, ◌==◌, if◌then◌else◌, map,
}

abbrev pub Table {ℓ} : Type ℓ → Type ℓ
Table V = List (ℕ × V)

module _ {ℓ} {V : Type ℓ} where
  -- `it = table.find(k)`; `none` is `table.end()`.
  unfoldable pub find : ℕ → Table V → Option V
  find k [] = none
  find k ((j, v) ∷ m) = if k == j then some v else find k m

  -- `table[k] = v`.
  unfoldable pub insert : ℕ → V → Table V → Table V
  insert k v [] = (k, v) ∷ []
  insert k v ((j, w) ∷ m) =
      let later = (j, w) ∷ insert k v m in
      if k == j then (k, v) ∷ m else if ltb k j then (k, v) ∷ (j, w) ∷ m else later

  -- `table.erase(it)` for the entry at `k`, if there is one.
  unfoldable pub erase : ℕ → Table V → Table V
  erase k [] = []
  erase k ((j, v) ∷ m) = let rest = erase k m in if k == j then rest else (j, v) ∷ rest

  abbrev pub values : Table V → List V
  values = map λ e. e.1

  -- The keys ascend, and the first is not below `n`.
  abbrev pub From : ℕ → Table V → Type 0
  From n [] = Unit
  From n ((j, v) ∷ m) = (n ≤ j) × From (suc j) m

  abbrev pub IsMap : Table V → Type 0
  IsMap m = From 0 m
