-- ===== src/Alerts/Recipients/RoundTrip.antt =====
-- `_parse_recipient_list` on the text of a list of addresses.
use mathlib.Core.Path.{ap₂}
use Prim.Native.Char.{code}
use Prim.Native.String.{◌++◌ as str_append}
use Prim.Native.String.append
use alfaedge_pulse.Common.{
  String, ◌≡◌, refl, sym, ap, ◌∙◌, inl, inr, Bool, true, false, not, ◌&&◌, some, List, [], ◌∷◌, map,
  arith, str_eq, eq_iff, ◌==◌, Bool-cases, all, keep,
}
use alfaedge_pulse.Common.Text.{
  split_commas, has_code, push_front, strip, strip_left, is_blank, is_space, join_commas,
}
use alfaedge_pulse.Alerts.Recipients.{parse_recipient_list}

-- An address without a comma, without blanks around it, and not empty.
abbrev pub is_clean : String → Bool
is_clean x = not (has_code b',' x) && (str_eq (strip x) x && not (is_blank x))

split_commas-one : (x : String) → has_code b',' x ≡ false → split_commas x ≡ x ∷ []
unfolding has_code split_commas push_front
split_commas-one String.[] h = refl
split_commas-one (String.◌∷◌ c x) h = ground (arith, split_commas-one x, h)

split_commas-append :
    (x s : String)
    → has_code b',' x ≡ false
    → split_commas (str_append x (String.◌∷◌ "," s)) ≡ x ∷ split_commas s
unfolding has_code split_commas push_front
split_commas-append String.[] s h = rw append.nil refl
split_commas-append (String.◌∷◌ c x) s h =
    rw append.cons (ground (arith, split_commas-append x s, h))

-- A text has a first piece.
split_commas-first : (s : String) → (p : String) × (ps : List String) × (split_commas s ≡ p ∷ ps)
unfolding split_commas push_front
split_commas-first String.[] = (String.[], [], refl)
split_commas-first (String.◌∷◌ c s) =
    let (p, ps, e) = split_commas-first s in
    elim (Bool-cases (code c == b',')) [
      | inl comma ↦ rw comma (String.[], split_commas s, refl)
      | inr letter ↦ rw letter (String.◌∷◌ c p, ps, ap (push_front c) e)
    ]

-- The first piece of a text may be longer by a blank in front.
map-strip-blank :
    (s : String) → map strip (split_commas (String.◌∷◌ " " s)) ≡ map strip (split_commas s)
unfolding split_commas push_front strip strip_left is_space
map-strip-blank s =
    let (p, ps, e) = split_commas-first s in
    ap (λ l. map strip (push_front " " l)) e ∙ ap (map strip) (sym e)

comma_blank : (s : String) → str_append ", " s ≡ String.◌∷◌ "," (String.◌∷◌ " " s)
comma_blank s = rw (append.cons, append.cons, append.nil) refl

split_join :
    (x y : String) (xs : List String)
    → has_code b',' x ≡ false
    → map strip (split_commas (join_commas (x ∷ y ∷ xs)))
      ≡ strip x ∷ map strip (split_commas (join_commas (y ∷ xs)))
unfolding join_commas
split_join x y xs h =
    let rest = join_commas (y ∷ xs) in
    ap (λ s. map strip (split_commas (str_append x s))) (comma_blank rest)
    ∙ ap (map strip) (split_commas-append x (String.◌∷◌ " " rest) h)
    ∙ ap (λ l. strip x ∷ l) (map-strip-blank rest)

map-strip-join :
    (x : String) (xs : List String)
    → all is_clean (x ∷ xs) ≡ true
    → map strip (split_commas (join_commas (x ∷ xs))) ≡ x ∷ xs
unfolding join_commas
map-strip-join x [] h =
    ap (map strip) (split_commas-one x (ground (arith, h)))
    ∙ ap (λ y. y ∷ []) (ground (arith, h, eq_iff (strip x) x))
map-strip-join x (y ∷ xs) h =
    split_join x y xs (ground (arith, h))
    ∙ ap₂ (λ z l. z ∷ l) (ground (arith, h, eq_iff (strip x) x))
        (map-strip-join y xs (ground (arith, h)))

keep-clean : (xs : List String) → all is_clean xs ≡ true → keep (λ v. not (is_blank v)) xs ≡ xs
keep-clean [] h = refl
keep-clean (x ∷ xs) h = ground (arith, keep-clean xs, h)

-- A list of addresses, each without a comma, without blanks around it and not empty, is read back
-- from its text with commas by the digests and by the batch.
pub parse_recipient_list-join :
    (xs : List String) → all is_clean xs ≡ true → parse_recipient_list (some (join_commas xs)) ≡ xs
unfolding parse_recipient_list join_commas split_commas strip is_blank
parse_recipient_list-join [] h = refl
parse_recipient_list-join (x ∷ xs) h =
    ap (keep (λ v. not (is_blank v))) (map-strip-join x xs h) ∙ keep-clean (x ∷ xs) h
