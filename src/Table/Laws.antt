-- ===== src/Table/Laws.antt =====
-- The map operations against each other.
use udpboardcast.Base.{
  ℕ, suc, ◌≤◌, ◌≡◌, ◌≢◌, ◌⊎◌, refl, [], ◌∷◌, none, some, arith, ◌==◌, if◌then◌else◌, Bool-cases,
  inl, inr, ==_iff,
}
use udpboardcast.Table.{Table, find, insert, erase, From, IsMap}

module _ {ℓ} {V : Type ℓ} where
  pub find-insert :
      (j k : ℕ) (v : V) (m : Table V)
      → find j (insert k v m) ≡ (if j == k then some v else find j m)
  unfolding find insert
  find-insert j k v [] = refl
  find-insert j k v ((i, w) ∷ m) = ground (arith, find-insert j k v m)

  pub find-erase :
      (j k : ℕ) (m : Table V) → find j (erase k m) ≡ (if j == k then none else find j m)
  unfolding find erase
  find-erase j k [] = ground arith
  find-erase j k ((i, w) ∷ m) = ground (arith, find-erase j k m)

  pub erase-absent : (k : ℕ) (m : Table V) → find k m ≡ none → erase k m ≡ m
  unfolding find erase
  erase-absent k [] h = refl
  erase-absent k ((i, w) ∷ m) h = ground (arith, erase-absent k m)

  From-le : (n n' : ℕ) (m : Table V) → n ≤ n' → From n' m → From n m
  From-le n n' [] h f = tt
  From-le n n' (e ∷ m) h f = (omega arith, f.1)

  From-insert : (n k : ℕ) (v : V) (m : Table V) → n ≤ k → From n m → From n (insert k v m)
  unfolding insert
  From-insert n k v [] h f = (omega arith, tt)
  From-insert n k v ((j, w) ∷ m) h f = ground (arith, From-insert (suc j) k v m)

  From-erase : (n k : ℕ) (m : Table V) → From n m → From n (erase k m)
  unfolding erase
  From-erase n k [] f = tt
  From-erase n k ((j, w) ∷ m) f =
      ground (arith, From-erase (suc j) k m f.1, From-le n (suc j) (erase k m))

  pub IsMap-insert : (k : ℕ) (v : V) (m : Table V) → IsMap m → IsMap (insert k v m)
  IsMap-insert k v m f = From-insert 0 k v m (omega arith) f

  pub IsMap-erase : (k : ℕ) (m : Table V) → IsMap m → IsMap (erase k m)
  IsMap-erase k m f = From-erase 0 k m f

  pub find-erase_self : (k : ℕ) (m : Table V) → find k (erase k m) ≡ none
  find-erase_self k m = ground (arith, find-erase k k m)

  pub find-insert_self : (k : ℕ) (v : V) (m : Table V) → find k (insert k v m) ≡ some v
  find-insert_self k v m = ground (arith, find-insert k k v m)

  pub find_of_erase :
      {j k : ℕ} {v : V} (m : Table V) → find j (erase k m) ≡ some v → (j ≢ k) × (find j m ≡ some v)
  find_of_erase {j} {k} m e = (ground (arith, find-erase j k m), ground (arith, find-erase j k m))

  pub find_of_insert :
      {j k : ℕ} {v w : V} (m : Table V)
      → find j (insert k w m) ≡ some v
      → ((j ≡ k) × (v ≡ w)) ⊎ ((j ≢ k) × (find j m ≡ some v))
  find_of_insert {j} {k} {w} m e = elim (Bool-cases (j == k)) [
    | inl same ↦ inl ((==_iff j k).0 same, ground (arith, find-insert j k w m))
    | inr other ↦ inr (ground arith, ground (arith, find-insert j k w m))
  ]
