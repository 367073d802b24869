-- ===== src/Common/Names.antt =====
-- Names of hosts and sites: `str.lower` as a text, `str.join`, and the host of a URL.
use alfaedge_pulse.Common.{
  ℕ, String, Bool, true, false, ◌&&◌, ◌||◌, Option, List, [], ◌∷◌, str_eq, ltb, leb, ◌==◌,
  if◌then◌else◌, any,
}
use Prim.Native.Char.{Char, code}
use alfaedge_pulse.Common.Text.{concat, strip, split_on, or_empty}

-- The letter of `lower` at the place at which `upper` has the character.
unfoldable pub lower_in : Char → String → String → Char
lower_in c String.[] lower = c
lower_in c (String.◌∷◌ u upper) String.[] = c
lower_in c (String.◌∷◌ u upper) (String.◌∷◌ l lower) =
    if code c == code u then l else lower_in c upper lower

-- `s.lower()`, on ASCII letters.
unfoldable pub lower_text : String → String
unfolding lower_in
lower_text String.[] = String.[]
lower_text (String.◌∷◌ c s) =
    String.◌∷◌ (lower_in c "ABCDEFGHIJKLMNOPQRSTUVWXYZ" "abcdefghijklmnopqrstuvwxyz") (lower_text s)

-- `separator.join(parts)`
unfoldable pub join_with : String → List String → String
join_with sep [] = ""
join_with sep (p ∷ []) = p
join_with sep (p ∷ q ∷ ps) = concat (p ∷ sep ∷ join_with sep (q ∷ ps) ∷ [])

-- `s.replace(old, new)`, for one character of the given code.
unfoldable pub replace_code : ℕ → String → String → String
unfolding join_with
replace_code old new s = join_with new (split_on old s)

-- `s < t`, by code points.
unfoldable pub text_before : String → String → Bool
text_before s String.[] = false
text_before String.[] (String.◌∷◌ d t) = true
text_before (String.◌∷◌ c s) (String.◌∷◌ d t) =
    ltb (code c) (code d) || code c == code d && text_before s t

unfoldable pub insert_text : String → List String → List String
insert_text x [] = x ∷ []
insert_text x (y ∷ ys) = if text_before y x then y ∷ insert_text x ys else x ∷ y ∷ ys

-- `sorted(xs)`
unfoldable pub sort_texts : List String → List String
sort_texts [] = []
sort_texts (x ∷ xs) = insert_text x (sort_texts xs)

unfoldable pub is_scheme_code : ℕ → Bool
is_scheme_code c =
    leb b'a' c && leb c b'z' || leb b'0' c && leb c b'9' || c == b'+' || c == b'.' || c == b'-'

-- What follows `://` after the characters of a scheme, or the text `whole`.
unfoldable pub after_scheme : String → String → String
unfolding is_scheme_code
after_scheme whole String.[] = whole
after_scheme whole (String.◌∷◌ c s) =
    let rest = after_scheme whole s in
    if is_scheme_code (code c) then rest else elim (String.◌∷◌ c s) [
      | String.◌∷◌ a (String.◌∷◌ b (String.◌∷◌ d tail)) ↦
          if code a == b':' && code b == b'/' && code d == b'/' then tail else whole
      | other ↦ whole
    ]

-- `re.sub(r"^[a-z][a-z0-9+.-]*://", "", value)`
unfoldable pub drop_scheme : String → String
unfolding after_scheme
drop_scheme String.[] = String.[]
drop_scheme (String.◌∷◌ c s) =
    if leb b'a' (code c) && leb (code c) b'z'
    then after_scheme (String.◌∷◌ c s) s
    else String.◌∷◌ c s

-- `re.split(r"[/:?#]", value, maxsplit=1)[0]`
unfoldable pub before_path : String → String
before_path String.[] = String.[]
before_path (String.◌∷◌ c s) =
    let rest = before_path s in
    if code c == b'/' || code c == b':' || code c == b'?' || code c == b'#'
    then String.[]
    else String.◌∷◌ c rest

-- log_monitor/connection.py: `normalize_site`
unfoldable pub normalize_site : Option String → String
unfolding drop_scheme before_path lower_text
normalize_site value = before_path (drop_scheme (lower_text (strip (or_empty value))))

-- `x in xs`, for texts.
unfoldable pub has_text : String → List String → Bool
has_text x xs = any (str_eq x) xs

-- `not xs`
unfoldable pub is_empty {ℓ} : {A : Type ℓ} → List A → Bool
is_empty [] = true
is_empty (x ∷ xs) = false
