-- ===== src/Retention/Backfill/Loops.antt =====
-- Lemmas on the loops of `backfill_server` over the guests, run twice.
use mathlib.Core.Path.{subst}
use mathlib.Core.List.{append-nil, append_assoc}
use alfaedge_pulse.Common.{
  All-map, ℕ, ◌+◌, String, ◌≡◌, refl, sym, ap, ◌∙◌, ◌⊎◌, inl, inr, List, [], ◌∷◌, ◌++◌, arith, All,
}
use alfaedge_pulse.Retention.Backfill.{Fetched, fetched, fetch_failed, import_guests}
use alfaedge_pulse.Retention.History.{GuestPoint, GuestRow}

-- What an import that went well has: nothing is claimed where it raised.
abbrev pub WhereFetched {ℓ} : {A : Type ℓ} → (A → Type 0) → Fetched A → Type 0
WhereFetched P (fetched a) = P a
WhereFetched P (fetch_failed e) = Unit

-- The opposite: an error has no such property.
abbrev pub IsFetched {ℓ} : {A : Type ℓ} → (A → Type 0) → Fetched A → Type 0
IsFetched P (fetched a) = P a
IsFetched P (fetch_failed e) = ⊥

Fetched-cases {ℓ} :
    {A : Type ℓ} (f : Fetched A)
    → ((a : A) × (f ≡ fetched a)) ⊎ ((e : String) × (f ≡ fetch_failed e))
Fetched-cases (fetched a) = inl (a, refl)
Fetched-cases (fetch_failed e) = inr (e, refl)

WhereFetched-map {ℓ} :
    {A : Type ℓ} {P Q : A → Type 0} (f : Fetched A)
    → ((a : A) → P a → Q a)
    → WhereFetched P f
    → WhereFetched Q f
WhereFetched-map (fetched a) g h = g a h
WhereFetched-map (fetch_failed e) g h = tt

module _ (get : ℕ → Fetched (List GuestPoint))
    (import_one : ℕ → List GuestPoint → List GuestRow → ℕ × List GuestRow) where
  import_guests-step :
      (v : ℕ) (vmids : List ℕ) (total : ℕ) (rows : List GuestRow) (points : List GuestPoint)
      → get v ≡ fetched points
      → import_guests get import_one (v ∷ vmids) total rows
        ≡ import_guests get import_one vmids
            (total + (import_one v points rows).0)
            (import_one v points rows).1
  unfolding import_guests
  import_guests-step v vmids total rows points e = rw (import_guests, e) refl

  import_guests-error :
      (v : ℕ) (vmids : List ℕ) (total : ℕ) (rows : List GuestRow) (e : String)
      → get v ≡ fetch_failed e
      → import_guests get import_one (v ∷ vmids) total rows ≡ fetch_failed e
  unfolding import_guests
  import_guests-error v vmids total rows e h = rw (import_guests, h) refl

module _ (get : ℕ → Fetched (List GuestPoint))
    (IsDone : ℕ → List GuestPoint → List GuestRow → Type 0) where
  -- Every guest's import is done in these rows, and no call for one raises.
  abbrev pub AllDone : List ℕ → List GuestRow → Type 0
  AllDone vmids rows = All (λ v. IsFetched (λ points. IsDone v points rows) (get v)) vmids

  -- The table of a loop that went well holds the old rows, and every guest's import is done in it.
  abbrev pub IsWhole : List ℕ → List GuestRow → ℕ × List GuestRow → Type 0
  IsWhole vmids rows (n, rows') =
      ((more : List GuestRow) × (rows' ≡ rows ++ more)) × AllDone vmids rows'

-- Two imports of a guest: what the first leaves done, the second does not do again.
module _ (get : ℕ → Fetched (List GuestPoint))
    (import_one : ℕ → List GuestPoint → List GuestRow → ℕ × List GuestRow)
    (import_again : ℕ → List GuestPoint → List GuestRow → ℕ × List GuestRow)
    (IsDone : ℕ → List GuestPoint → List GuestRow → Type 0)
    (done : (v : ℕ) (points : List GuestPoint) (rows : List GuestRow)
      → IsDone v points (import_one v points rows).1)
    (grows : (v : ℕ) (points : List GuestPoint) (rows : List GuestRow)
      → (more : List GuestRow) × ((import_one v points rows).1 ≡ rows ++ more))
    (more_done : (v : ℕ) (points : List GuestPoint) (rows more : List GuestRow)
      → IsDone v points rows
      → IsDone v points (rows ++ more))
    (again : (v : ℕ) (points : List GuestPoint) (rows : List GuestRow)
      → IsDone v points rows
      → import_again v points rows ≡ (0, rows)) where
  IsFetched-more :
      (v : ℕ) (f : Fetched (List GuestPoint)) (rows more : List GuestRow)
      → IsFetched (λ points. IsDone v points rows) f
      → IsFetched (λ points. IsDone v points (rows ++ more)) f
  IsFetched-more v (fetched points) rows more h = more_done v points rows more h
  IsFetched-more v (fetch_failed e) rows more h = elim h [ ]

  pub AllDone-more :
      (vmids : List ℕ) (rows more : List GuestRow)
      → AllDone get IsDone vmids rows
      → AllDone get IsDone vmids (rows ++ more)
  AllDone-more vmids rows more h = All-map vmids (λ v. IsFetched-more v (get v) rows more) h

  IsWhole-next :
      (v : ℕ) (vmids : List ℕ) (rows : List GuestRow) (points : List GuestPoint)
      → get v ≡ fetched points
      → (r : ℕ × List GuestRow) → IsWhole get IsDone vmids (import_one v points rows).1 r
      → IsWhole get IsDone (v ∷ vmids) rows r
  IsWhole-next v vmids rows points e (n, rows') ((more, grown), all_done) =
      let (first, begun) = grows v points rows in
      (
        (first ++ more, grown ∙ ap (λ t. t ++ more) begun ∙ append_assoc rows first more),
        (
          subst (IsFetched (λ ps. IsDone v ps rows')) (sym e) (
              subst (IsDone v points) (sym grown)
                (more_done v points (import_one v points rows).1 more (done v points rows))),
          all_done,
        ),
      )

  pub import_guests-IsWhole :
      (vmids : List ℕ) (total : ℕ) (rows : List GuestRow)
      → WhereFetched (IsWhole get IsDone vmids rows) (import_guests get import_one vmids total rows)
  unfolding import_guests
  import_guests-IsWhole [] total rows = (([], sym (append-nil rows)), tt)
  import_guests-IsWhole (v ∷ vmids) total rows = elim (Fetched-cases (get v)) [
    | inl (points, e) ↦
        subst (WhereFetched (IsWhole get IsDone (v ∷ vmids) rows))
          (sym (import_guests-step get import_one v vmids total rows points e))
          (WhereFetched-map _ (IsWhole-next v vmids rows points e) (
            import_guests-IsWhole vmids (total + (import_one v points rows).0)
              (import_one v points rows).1))
    | inr (error, e) ↦
        subst (WhereFetched (IsWhole get IsDone (v ∷ vmids) rows))
          (sym (import_guests-error get import_one v vmids total rows error e)) tt
  ]

  -- Once every guest's import is done, the loop counts nothing and changes nothing.
  pub import_guests-again :
      (vmids : List ℕ) (total : ℕ) (rows : List GuestRow)
      → AllDone get IsDone vmids rows
      → import_guests get import_again vmids total rows ≡ fetched (total, rows)
  unfolding import_guests
  import_guests-again [] total rows h = refl
  import_guests-again (v ∷ vmids) total rows h = elim (Fetched-cases (get v)) [
    | inl (points, e) ↦
        import_guests-step get import_again v vmids total rows points e
        ∙ ap (λ r. import_guests get import_again vmids (total + r.0) r.1)
            (again v points rows (subst (IsFetched (λ ps. IsDone v ps rows)) e h.0))
        ∙ import_guests-again vmids (total + 0) rows h.1
        ∙ ap (λ n. fetched (n, rows)) (omega arith)
    | inr (error, e) ↦ elim (subst (IsFetched (λ ps. IsDone v ps rows)) e h.0) [ ]
  ]
