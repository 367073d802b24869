-- ===== src/Common/Dicts.antt =====
-- Dictionaries with text keys, in the order of insertion.
use mathlib.Core.Option
use alfaedge_pulse.Common.{
  String, ◌≡◌, refl, sym, inl, inr, Bool, true, false, ◌||◌, Option, none, some, List, [], ◌∷◌,
  ◌++◌, arith, str_eq, eq_iff, if◌then◌else◌, Bool-cases, any,
}

unfoldable pub dict_get {ℓ} : {V : Type ℓ} → String → List (String × V) → Option V
dict_get k [] = none
dict_get k ((j, v) ∷ d) = if str_eq j k then some v else dict_get k d

-- `d[k] = v`
unfoldable pub dict_set {ℓ} : {V : Type ℓ} → String → V → List (String × V) → List (String × V)
dict_set k v [] = (k, v) ∷ []
dict_set k v ((j, w) ∷ d) = if str_eq j k then (j, v) ∷ d else (j, w) ∷ dict_set k v d

-- `k in d`
unfoldable pub has_key {ℓ} : {V : Type ℓ} → String → List (String × V) → Bool
has_key k d = any (λ e. str_eq e.0 k) d

-- A dictionary has each key once.
abbrev pub HasDistinctKeys {ℓ} : {V : Type ℓ} → List (String × V) → Type 0
HasDistinctKeys [] = Unit
HasDistinctKeys ((k, v) ∷ d) = (has_key k d ≡ false) × HasDistinctKeys d

module _ {ℓ} {V : Type ℓ} where
  pub dict_get-set :
      (k j : String) (v : V) (d : List (String × V))
      → dict_get j (dict_set k v d) ≡ (if str_eq k j then some v else dict_get j d)
  unfolding dict_get dict_set
  dict_get-set k j v [] = refl
  dict_get-set k j v ((i, w) ∷ d) =
      ground (arith, eq_iff k j, eq_iff i k, eq_iff i j, dict_get-set k j v d)

  pub has_key-set :
      (k j : String) (v : V) (d : List (String × V))
      → has_key j (dict_set k v d) ≡ (str_eq k j || has_key j d)
  unfolding has_key dict_set
  has_key-set k j v [] = refl
  has_key-set k j v ((i, w) ∷ d) =
      ground (arith, eq_iff k j, eq_iff i k, eq_iff i j, has_key-set k j v d)

  pub dict_get_absent :
      (k : String) (d : List (String × V)) → has_key k d ≡ false → dict_get k d ≡ none
  unfolding dict_get has_key
  dict_get_absent k [] h = refl
  dict_get_absent k ((j, v) ∷ d) h = ground (arith, h, dict_get_absent k d)

-- The entry of a key that is there is changed.
unfoldable pub dict_change {ℓ} :
    {V : Type ℓ} → String → (V → V) → List (String × V) → List (String × V)
dict_change k f [] = []
dict_change k f ((j, v) ∷ d) = if str_eq j k then (j, f v) ∷ d else (j, v) ∷ dict_change k f d

-- `del d[k]`
unfoldable pub dict_delete {ℓ} : {V : Type ℓ} → String → List (String × V) → List (String × V)
dict_delete k [] = []
dict_delete k ((j, v) ∷ d) =
    let rest = dict_delete k d in if str_eq j k then rest else (j, v) ∷ rest

module _ {ℓ} {V : Type ℓ} where
  pub dict_get-change :
      (k j : String) (f : V → V) (d : List (String × V))
      → dict_get j (dict_change k f d)
        ≡ (if str_eq k j then Option.map f (dict_get j d) else dict_get j d)
  unfolding dict_get dict_change
  dict_get-change k j f [] = ground arith
  dict_get-change k j f ((i, v) ∷ d) =
      ground (arith, eq_iff k j, eq_iff i k, eq_iff i j, dict_get-change k j f d)

  pub dict_get-delete :
      (k j : String) (d : List (String × V))
      → dict_get j (dict_delete k d) ≡ (if str_eq k j then none else dict_get j d)
  unfolding dict_get dict_delete
  dict_get-delete k j [] = ground arith
  dict_get-delete k j ((i, v) ∷ d) =
      ground (arith, eq_iff k j, eq_iff i k, eq_iff i j, dict_get-delete k j d)

  has_key-change :
      (k j : String) (f : V → V) (d : List (String × V))
      → has_key j (dict_change k f d) ≡ has_key j d
  unfolding has_key dict_change
  has_key-change k j f [] = refl
  has_key-change k j f ((i, v) ∷ d) = ground (arith, has_key-change k j f d)

  has_key-delete :
      (k j : String) (d : List (String × V))
      → has_key j d ≡ false
      → has_key j (dict_delete k d) ≡ false
  unfolding has_key dict_delete
  has_key-delete k j [] h = refl
  has_key-delete k j ((i, v) ∷ d) h = ground (arith, has_key-delete k j d)

  pub dict_set-HasDistinctKeys :
      (k : String) (v : V) (d : List (String × V))
      → HasDistinctKeys d
      → HasDistinctKeys (dict_set k v d)
  unfolding dict_set has_key
  dict_set-HasDistinctKeys k v [] h = (refl, tt)
  dict_set-HasDistinctKeys k v ((i, w) ∷ d) h = ground (
    arith,
    eq_iff i k,
    eq_iff k i,
    has_key-set k i v d,
    h.0,
    h.1,
    dict_set-HasDistinctKeys k v d h.1,
  )

  pub dict_change-HasDistinctKeys :
      (k : String) (f : V → V) (d : List (String × V))
      → HasDistinctKeys d
      → HasDistinctKeys (dict_change k f d)
  unfolding dict_change has_key
  dict_change-HasDistinctKeys k f [] h = tt
  dict_change-HasDistinctKeys k f ((i, w) ∷ d) h =
      ground (arith, has_key-change k i f d, h.0, h.1, dict_change-HasDistinctKeys k f d h.1)

  pub dict_delete-HasDistinctKeys :
      (k : String) (d : List (String × V)) → HasDistinctKeys d → HasDistinctKeys (dict_delete k d)
  unfolding dict_delete has_key
  dict_delete-HasDistinctKeys k [] h = tt
  dict_delete-HasDistinctKeys k ((i, w) ∷ d) h =
      ground (arith, has_key-delete k i d h.0, h.1, dict_delete-HasDistinctKeys k d h.1)

  pub has_key_found :
      (k : String) (v : V) (d : List (String × V)) → dict_get k d ≡ some v → has_key k d ≡ true
  unfolding dict_get has_key
  has_key_found k v [] h = ground (arith, h)
  has_key_found k v ((j, w) ∷ d) h = ground (arith, h, has_key_found k v d)

  pub has_key_missing :
      (k : String) (d : List (String × V)) → dict_get k d ≡ none → has_key k d ≡ false
  unfolding dict_get has_key
  has_key_missing k [] h = refl
  has_key_missing k ((j, w) ∷ d) h = ground (arith, h, has_key_missing k d)

module _ {ℓ κ} {V : Type ℓ} (P : String → V → Type κ) where
  -- Every entry has the property.
  abbrev pub AllEntries : List (String × V) → Type κ
  AllEntries [] = Unit
  AllEntries ((k, v) ∷ d) = P k v × AllEntries d

  pub dict_set-AllEntries :
      (k : String) (v : V) (d : List (String × V))
      → P k v
      → AllEntries d
      → AllEntries (dict_set k v d)
  unfolding dict_set
  dict_set-AllEntries k v [] p h = (p, tt)
  dict_set-AllEntries k v ((j, w) ∷ d) p (q, h) = elim (Bool-cases (str_eq j k)) [
    | inl e ↦ rw e (rw ((eq_iff j k).0 e) p, h)
    | inr e ↦ rw e (q, dict_set-AllEntries k v d p h)
  ]

  -- The property at the value found, if any.
  abbrev pub AtFound : String → Option V → Type κ
  AtFound k none = Unit
  AtFound k (some v) = P k v

  pub dict_get-AtFound :
      (k : String) (d : List (String × V)) → AllEntries d → AtFound k (dict_get k d)
  unfolding dict_get
  dict_get-AtFound k [] h = tt
  dict_get-AtFound k ((j, v) ∷ d) (p, h) = elim (Bool-cases (str_eq j k)) [
    | inl e ↦ let named = (eq_iff j k).0 e in rw (e, sym named) p
    | inr e ↦ rw e (dict_get-AtFound k d h)
  ]

  pub append-AllEntries :
      (d e : List (String × V)) → AllEntries d → AllEntries e → AllEntries (d ++ e)
  append-AllEntries [] e h i = i
  append-AllEntries ((k, v) ∷ d) e (p, h) i = (p, append-AllEntries d e h i)
