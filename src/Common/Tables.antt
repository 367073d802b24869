-- ===== src/Common/Tables.antt =====
-- A table as the list of its rows: the queries and updates that the program's code makes on one.
use alfaedge_pulse.Common.{
  ℕ, ◌≡◌, refl, Bool, true, false, not, Option, none, some, List, [], ◌∷◌, map, arith, ltb,
  if◌then◌else◌, any, keep,
}

module _ {ℓ} {A : Type ℓ} where
  -- `frappe.db.get_value(doctype, filters, …)`: the first row that fits.
  abbrev pub first_that : (A → Bool) → List A → Option A
  first_that p [] = none
  first_that p (x ∷ xs) = let rest = first_that p xs in if p x then some x else rest

  -- `frappe.db.set_value` on every row that fits.
  unfoldable pub set_where : (A → Bool) → (A → A) → List A → List A
  set_where p f xs = map (λ x. if p x then f x else x) xs

  -- `frappe.delete_doc` for every row that fits.
  unfoldable pub delete_where : (A → Bool) → List A → List A
  delete_where p xs = keep (λ x. not (p x)) xs

  -- The row that fits is written, or appended where there is none.
  unfoldable pub upsert : (A → Bool) → (Option A → A) → List A → List A
  upsert p f [] = f none ∷ []
  upsert p f (x ∷ xs) = let rest = upsert p f xs in if p x then f (some x) ∷ xs else x ∷ rest

  pub first_that-upsert :
      (p : A → Bool) (f : Option A → A) (xs : List A)
      → ((o : Option A) → p (f o) ≡ true)
      → first_that p (upsert p f xs) ≡ some (f (first_that p xs))
  unfolding upsert
  first_that-upsert p f [] fits = ground (arith, fits none)
  first_that-upsert p f (x ∷ xs) fits = ground (arith, fits (some x), first_that-upsert p f xs fits)

  -- Another search finds what it found, if it never fits the written row.
  pub first_that-upsert_other :
      (p q : A → Bool) (f : Option A → A) (xs : List A)
      → ((o : Option A) → q (f o) ≡ false)
      → ((x : A) → p x ≡ true → q x ≡ false)
      → first_that q (upsert p f xs) ≡ first_that q xs
  unfolding upsert
  first_that-upsert_other p q f [] misses apart = ground (arith, misses none)
  first_that-upsert_other p q f (x ∷ xs) misses apart =
      ground (arith, misses (some x), apart x, first_that-upsert_other p q f xs misses apart)

  pub keep-set_where :
      (p q : A → Bool) (f : A → A) (xs : List A)
      → ((x : A) → q x ≡ true → p x ≡ false)
      → ((x : A) → p x ≡ true → q (f x) ≡ false)
      → keep q (set_where p f xs) ≡ keep q xs
  unfolding set_where
  keep-set_where p q f [] apart out = refl
  keep-set_where p q f (x ∷ xs) apart out =
      ground (arith, apart x, out x, keep-set_where p q f xs apart out)

  -- A search that the written row passes finds something.
  pub any-upsert :
      (p q : A → Bool) (f : Option A → A) (xs : List A)
      → ((o : Option A) → q (f o) ≡ true)
      → any q (upsert p f xs) ≡ true
  unfolding upsert
  any-upsert p q f [] hits = ground (arith, hits none)
  any-upsert p q f (x ∷ xs) hits = ground (arith, hits (some x), any-upsert p q f xs hits)

  pub any-upsert_other :
      (p q : A → Bool) (f : Option A → A) (xs : List A)
      → ((o : Option A) → q (f o) ≡ false)
      → ((x : A) → p x ≡ true → q x ≡ false)
      → any q (upsert p f xs) ≡ any q xs
  unfolding upsert
  any-upsert_other p q f [] misses apart = ground (arith, misses none)
  any-upsert_other p q f (x ∷ xs) misses apart =
      ground (arith, misses (some x), apart x, any-upsert_other p q f xs misses apart)

  -- The row with the largest key, the last of several: `order_by="… desc"` with a limit of 1.
  unfoldable pub newest : (A → ℕ) → List A → Option A
  newest key [] = none
  newest key (x ∷ xs) = elim (newest key xs) [
    | none ↦ some x
    | some y ↦ some (if ltb (key y) (key x) then x else y)
  ]
