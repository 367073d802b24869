-- ===== src/Alerts/Recipients.antt =====
-- alerts/dispatch.py: `_recipients`, and `_parse_recipient_list` of the two digests.
pub mod Laws
pub mod RoundTrip
use alfaedge_pulse.Common.{
  All-map, All-any, ℕ, zero, suc, ◌+◌, ◌-◌, ◌*◌, ◌/◌, ◌%◌, ◌≤◌, ◌<◌, max, String, ◌≡◌, refl, sym,
  ap, ◌∙◌, ◌≢◌, ◌↔◌, ◌⊎◌, inl, inr, Bool, true, false, not, ◌&&◌, ◌||◌, Option, none, some, List,
  [], ◌∷◌, ◌++◌, map, foldl, arith, str_eq, eq_iff, eq_refl, ltb, leb, ◌==◌, if◌then◌else◌,
  Bool-cases, Option-cases, ltb→lt, lt→ltb, leb→le, le→leb, tests, length, take, any, all, keep,
  count, length-append, any-append, count-append, count-le-length, All, length-map,
}
use alfaedge_pulse.Common.Text.{or_empty, split_commas, strip, is_blank, lower}

-- Equality of two texts in lower case, as lists of code points.
unfoldable pub same_codes : List ℕ → List ℕ → Bool
same_codes [] [] = true
same_codes (c ∷ cs) (d ∷ ds) = c == d && same_codes cs ds
same_codes _ _ = false

-- `v.lower() in seen`
unfoldable pub is_seen : List ℕ → List (List ℕ) → Bool
is_seen v seen = any (same_codes v) seen

-- The loop over the pieces: blank ones and those seen before in any case are skipped.
unfoldable pub merge_recipients : List (List ℕ) → List String → List String
merge_recipients seen [] = []
merge_recipients seen (piece ∷ pieces) =
    let v = strip piece in
    let skipped = merge_recipients seen pieces in
    let merged = v ∷ merge_recipients (lower v ∷ seen) pieces in
    if is_blank v || is_seen (lower v) seen then skipped else merged

-- dispatch.py: `_recipients`
unfoldable pub recipients : Bool → Option String → Bool → List String
recipients enabled value include_global =
    if not enabled || not include_global
    then []
    else merge_recipients [] (split_commas (or_empty value))

-- digest.py and resource_batch.py: `_parse_recipient_list`
unfoldable pub parse_recipient_list : Option String → List String
parse_recipient_list value =
    keep (λ v. not (is_blank v)) (map strip (split_commas (or_empty value)))
