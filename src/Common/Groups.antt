-- ===== src/Common/Groups.antt =====
-- A dictionary in insertion order, and the loop `groups.setdefault(key, []).append(item)`.
use alfaedge_pulse.Common.{
  ◌≡◌, refl, sym, ◌↔◌, inl, inr, Bool, true, ◌||◌, List, [], ◌∷◌, ◌++◌, arith, if◌then◌else◌,
  Bool-cases, any, keep,
}
use mathlib.Core.List.{append-nil, append_assoc}

module _ {ℓ κ} {K : Type ℓ} {V : Type κ} (same : K → K → Bool) where
  -- `d.get(k, [])`
  unfoldable pub group_of : K → List (K × List V) → List V
  group_of k [] = []
  group_of k ((j, vs) ∷ d) = if same j k then vs else group_of k d

  -- `d.setdefault(k, []).append(v)`
  unfoldable pub add_to_group : K → V → List (K × List V) → List (K × List V)
  add_to_group k v [] = (k, v ∷ []) ∷ []
  add_to_group k v ((j, vs) ∷ d) =
      if same j k then (j, vs ++ v ∷ []) ∷ d else (j, vs) ∷ add_to_group k v d

  unfoldable pub group_from : (V → K) → List V → List (K × List V) → List (K × List V)
  group_from key [] d = d
  group_from key (v ∷ vs) d = group_from key vs (add_to_group (key v) v d)

  -- The whole loop, from an empty dictionary.
  unfoldable pub group_by : (V → K) → List V → List (K × List V)
  unfolding group_from add_to_group
  group_by key vs = group_from key vs []

module _ {ℓ κ} {K : Type ℓ} {V : Type κ} (same : K → K → Bool)
    (same_iff : (a b : K) → (same a b ≡ true) ↔ (a ≡ b)) where
  group_of-add :
      (k j : K) (v : V) (d : List (K × List V))
      → group_of same k (add_to_group same j v d)
        ≡ group_of same k d ++ (if same j k then v ∷ [] else [])
  unfolding group_of add_to_group
  group_of-add k j v [] = ground arith
  group_of-add k j v ((i, vs) ∷ d) = ground (
    arith,
    group_of-add k j v d,
    same_iff i j,
    same_iff i k,
    same_iff j k,
    append-nil vs,
    append-nil (group_of same k d),
  )

  group_of-from :
      (k : K) (key : V → K) (vs : List V) (d : List (K × List V))
      → group_of same k (group_from same key vs d)
        ≡ group_of same k d ++ keep (λ v. same (key v) k) vs
  unfolding group_from
  group_of-from k key [] d = sym (append-nil (group_of same k d))
  group_of-from k key (v ∷ vs) d = elim (Bool-cases (same (key v) k)) [
    | inl here ↦ rw (group_of-from k key vs, group_of-add, here, append_assoc)
    | inr away ↦ rw (group_of-from k key vs, group_of-add, away, append-nil)
  ]

  -- A group holds the items of its key, in the order in which they came.
  pub group_of-group_by :
      (k : K) (key : V → K) (vs : List V)
      → group_of same k (group_by same key vs) ≡ keep (λ v. same (key v) k) vs
  unfolding group_by group_of
  group_of-group_by k key vs = group_of-from k key vs []

  any-add_to_group :
      (p : K → Bool) (k : K) (v : V) (d : List (K × List V))
      → any (λ g. p g.0) (add_to_group same k v d) ≡ (p k || any (λ g. p g.0) d)
  unfolding add_to_group
  any-add_to_group p k v [] = refl
  any-add_to_group p k v ((j, vs) ∷ d) = ground (arith, any-add_to_group p k v d, same_iff j k)

  any-group_from :
      (p : K → Bool) (key : V → K) (vs : List V) (d : List (K × List V))
      → any (λ g. p g.0) (group_from same key vs d)
        ≡ (any (λ g. p g.0) d || any (λ v. p (key v)) vs)
  unfolding group_from
  any-group_from p key [] d = ground arith
  any-group_from p key (v ∷ vs) d = ground (
    arith,
    any-group_from p key vs (add_to_group same (key v) v d),
    any-add_to_group p (key v) v d,
  )

  -- The keys of the groups are those of the items.
  pub any-group_by :
      (p : K → Bool) (key : V → K) (vs : List V)
      → any (λ g. p g.0) (group_by same key vs) ≡ any (λ v. p (key v)) vs
  unfolding group_by
  any-group_by p key vs = any-group_from p key vs []

  -- The groups of the keys that pass a test are found as before, and the others are gone.
  pub group_of-keep :
      (p : K → Bool) (k : K) (d : List (K × List V))
      → group_of same k (keep (λ g. p g.0) d) ≡ (if p k then group_of same k d else [])
  unfolding group_of
  group_of-keep p k [] = ground arith
  group_of-keep p k ((j, vs) ∷ d) = ground (arith, group_of-keep p k d, same_iff j k)
