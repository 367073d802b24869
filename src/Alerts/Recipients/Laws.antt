-- ===== src/Alerts/Recipients/Laws.antt =====
-- `_recipients`: the addresses of a recipient list.
use alfaedge_pulse.Common.{
  ℕ, String, ◌≡◌, refl, sym, ◌↔◌, inl, inr, Bool, true, false, ◌&&◌, ◌||◌, Option, List, [], ◌∷◌,
  map, arith, str_eq, eq_refl, Bool-cases, any, All,
}
use mathlib.Core.Path.{subst}
use alfaedge_pulse.Common.Text.{strip, is_blank, lower, split_commas, or_empty}
use alfaedge_pulse.Alerts.Recipients.{same_codes, is_seen, merge_recipients, recipients}

same_codes_iff : (a b : List ℕ) → (same_codes a b ≡ true) ↔ (a ≡ b)
unfolding same_codes
same_codes_iff [] [] = (λ _. refl, λ _. refl)
same_codes_iff [] (d ∷ ds) = (λ h. cc, λ h. cc)
same_codes_iff (c ∷ cs) [] = (λ h. cc, λ h. cc)
same_codes_iff (c ∷ cs) (d ∷ ds) =
    (λ h. ground (arith, same_codes_iff cs ds), λ h. ground (arith, same_codes_iff cs ds))

same_codes_self : (a : List ℕ) → same_codes a a ≡ true
same_codes_self a = (same_codes_iff a a).1 refl

-- No address of the list is in lower case one of `seen` or of those before it.
abbrev pub IsFresh : List (List ℕ) → List String → Type 0
IsFresh seen [] = Unit
IsFresh seen (v ∷ vs) = (is_seen (lower v) seen ≡ false) × IsFresh (lower v ∷ seen) vs

merge_recipients-IsFresh :
    (seen : List (List ℕ)) (pieces : List String) → IsFresh seen (merge_recipients seen pieces)
unfolding merge_recipients
merge_recipients-IsFresh seen [] = tt
merge_recipients-IsFresh seen (piece ∷ pieces) = ground (
  arith,
  merge_recipients-IsFresh seen pieces,
  merge_recipients-IsFresh (lower (strip piece) ∷ seen) pieces,
)

-- A code that the seen ones or the list holds.
abbrev is_covered : List ℕ → List (List ℕ) → List String → Bool
is_covered v seen out = is_seen v seen || is_seen v (map lower out)

merge_recipients-keeps :
    (v : List ℕ) (seen : List (List ℕ)) (x : List ℕ) (out : List String)
    → is_covered v (x ∷ seen) out ≡ (same_codes v x || is_covered v seen out)
unfolding is_seen
merge_recipients-keeps v seen x out = ground arith

-- Every piece that is not blank stands in the list, or was seen before.
abbrev pub Covers : List (List ℕ) → List String → List String → Type 0
Covers seen out pieces =
    All (λ piece. is_blank (strip piece) ≡ false → is_covered (lower (strip piece)) seen out ≡ true)
      pieces

Covers-weaken :
    (seen : List (List ℕ)) (x : String) (out pieces : List String)
    → Covers (lower x ∷ seen) out pieces
    → Covers seen (x ∷ out) pieces
unfolding is_seen
Covers-weaken seen x out [] h = tt
Covers-weaken seen x out (piece ∷ pieces) h =
    (λ b. ground (arith, h.0 b), Covers-weaken seen x out pieces h.1)

module _ (seen : List (List ℕ)) (piece : String) (pieces : List String) where
  merge_recipients-skip :
      (is_blank (strip piece) || is_seen (lower (strip piece)) seen) ≡ true
      → merge_recipients seen (piece ∷ pieces) ≡ merge_recipients seen pieces
  unfolding merge_recipients
  merge_recipients-skip h = rw h

  merge_recipients-add :
      (is_blank (strip piece) || is_seen (lower (strip piece)) seen) ≡ false
      → merge_recipients seen (piece ∷ pieces)
        ≡ strip piece ∷ merge_recipients (lower (strip piece) ∷ seen) pieces
  unfolding merge_recipients
  merge_recipients-add h = rw h

covered_before :
    (piece : String) (seen : List (List ℕ)) (out : List String)
    → (is_blank (strip piece) || is_seen (lower (strip piece)) seen) ≡ true
    → is_blank (strip piece) ≡ false
    → is_covered (lower (strip piece)) seen out ≡ true
covered_before piece seen out h b = ground arith

covered_now :
    (v : String) (seen : List (List ℕ)) (out : List String)
    → is_covered (lower v) seen (v ∷ out) ≡ true
unfolding is_seen
covered_now v seen out = ground (arith, same_codes_self (lower v))

merge_recipients-Covers :
    (seen : List (List ℕ)) (pieces : List String)
    → Covers seen (merge_recipients seen pieces) pieces
merge_recipients-Covers seen [] = tt
merge_recipients-Covers seen (piece ∷ pieces) =
    elim (Bool-cases (is_blank (strip piece) || is_seen (lower (strip piece)) seen)) [
      | inl skip ↦
          subst (λ out. Covers seen out (piece ∷ pieces))
            (sym (merge_recipients-skip seen piece pieces skip))
            (covered_before piece seen _ skip, merge_recipients-Covers seen pieces)
      | inr add ↦
          subst (λ out. Covers seen out (piece ∷ pieces))
            (sym (merge_recipients-add seen piece pieces add))
            (
              λ _. covered_now (strip piece) seen _,
              Covers-weaken seen (strip piece) _ pieces
                  (merge_recipients-Covers (lower (strip piece) ∷ seen) pieces),
            )
    ]

-- An entry of the list is a piece with the blanks around it removed, and is not empty.
abbrev pub IsEntry : List String → String → Type 0
IsEntry pieces r = (is_blank r ≡ false) × (any (λ piece. str_eq (strip piece) r) pieces ≡ true)

IsEntry-later :
    (piece : String) (pieces out : List String)
    → All (IsEntry pieces) out
    → All (IsEntry (piece ∷ pieces)) out
IsEntry-later piece pieces [] h = tt
IsEntry-later piece pieces (r ∷ out) h =
    ((h.0.0, ground (arith, h.0.1)), IsEntry-later piece pieces out h.1)

IsEntry-now :
    (piece : String) (pieces : List String)
    → is_blank (strip piece) ≡ false
    → IsEntry (piece ∷ pieces) (strip piece)
IsEntry-now piece pieces h = (h, ground (arith, eq_refl (strip piece)))

merge_recipients-IsEntry :
    (seen : List (List ℕ)) (pieces : List String)
    → All (IsEntry pieces) (merge_recipients seen pieces)
unfolding merge_recipients
merge_recipients-IsEntry seen [] = tt
merge_recipients-IsEntry seen (piece ∷ pieces) =
    elim (Bool-cases (is_blank (strip piece) || is_seen (lower (strip piece)) seen)) [
      | inl skip ↦ rw (skip) (IsEntry-later piece pieces _ (merge_recipients-IsEntry seen pieces))
      | inr add ↦ rw (add) (
        IsEntry-now piece pieces (ground arith),
        IsEntry-later piece pieces _ (merge_recipients-IsEntry (lower (strip piece) ∷ seen) pieces),
      )
    ]

-- The list that a channel's setting gives: no two of its addresses are equal in lower case, each is
-- one of the comma-separated pieces with the blanks around it removed and is not empty, and each
-- piece that is not blank is there in some case.
pub recipients-eq-set :
    (value : Option String)
    → let pieces = split_commas (or_empty value) in
      let out = recipients true value true in
      IsFresh [] out × All (IsEntry pieces) out × Covers [] out pieces
unfolding recipients
recipients-eq-set value =
    let pieces = split_commas (or_empty value) in
    (
      merge_recipients-IsFresh [] pieces,
      merge_recipients-IsEntry [] pieces,
      merge_recipients-Covers [] pieces,
    )

-- A channel that is off, or an alert that is not for the global list, has no recipients.
pub recipients_off :
    (enabled : Bool) (value : Option String) (include_global : Bool)
    → (enabled && include_global) ≡ false
    → recipients enabled value include_global ≡ []
unfolding recipients
recipients_off enabled value include_global h = ground arith
