-- ===== src/UnorderedMap.antt =====
-- What the source uses of `std::unordered_map` with integer keys: `find`, `at`, `insert`, `size`.
use ispd_exa_engine.Base.{
  ℕ, suc, ◌≡◌, refl, Option, none, some, List, [], ◌∷◌, arith, ◌==◌, if◌then◌else◌, length, Result,
  or_fail, out_of_range,
}

abbrev pub UnorderedMap {ℓ} : Type ℓ → Type ℓ
UnorderedMap V = List (ℕ × V)

module _ {ℓ} {V : Type ℓ} where
  unfoldable pub find : ℕ → UnorderedMap V → Option V
  find k [] = none
  find k ((j, v) ∷ m) = if j == k then some v else find k m

  -- A key that is present keeps its value.
  unfoldable pub insert : ℕ → V → UnorderedMap V → UnorderedMap V
  insert k v [] = (k, v) ∷ []
  insert k v ((j, w) ∷ m) = if j == k then (j, w) ∷ m else (j, w) ∷ insert k v m

  unfoldable pub at : UnorderedMap V → ℕ → Result V
  at m k = or_fail (find k m) out_of_range

  pub find-insert_self :
      (k : ℕ) (v : V) (m : UnorderedMap V)
      → find k (insert k v m) ≡ elim (find k m) [ none ↦ some v | some w ↦ some w ]
  unfolding find insert
  find-insert_self k v [] = ground arith
  find-insert_self k v ((j, w) ∷ m) = ground (arith, find-insert_self k v m)

  pub find-insert_ne :
      (k j : ℕ) (v : V) (m : UnorderedMap V) → ¬ (k ≡ j) → find j (insert k v m) ≡ find j m
  unfolding find insert
  find-insert_ne k j v [] h = ground arith
  find-insert_ne k j v ((i, w) ∷ m) h = ground (arith, find-insert_ne k j v m h)

  pub length-insert :
      (k : ℕ) (v : V) (m : UnorderedMap V)
      → length (insert k v m) ≡ elim (find k m) [ none ↦ suc (length m) | some w ↦ length m ]
  unfolding find insert
  length-insert k v [] = refl
  length-insert k v ((j, w) ∷ m) = ground (arith, length-insert k v m)
