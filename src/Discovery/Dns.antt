-- ===== src/Discovery/Dns.antt =====
-- site_discovery/sync.py: `cf_lookup` and `_wildcard_records`.
pub mod Chains
use alfaedge_pulse.Common.{
  All-map, All-any, ℕ, zero, suc, ◌+◌, ◌-◌, ◌*◌, ◌/◌, ◌%◌, ◌≤◌, ◌<◌, max, String, ◌≡◌, refl, sym,
  ap, ◌∙◌, ◌≢◌, ◌↔◌, ◌⊎◌, inl, inr, Bool, true, false, not, ◌&&◌, ◌||◌, Option, none, some, List,
  [], ◌∷◌, ◌++◌, map, foldl, arith, str_eq, eq_iff, eq_refl, ltb, leb, ◌==◌, if◌then◌else◌,
  Bool-cases, Option-cases, ltb→lt, lt→ltb, leb→le, le→leb, tests, length, take, any, all, keep,
  count, length-append, any-append, count-append, count-le-length, All, length-map,
}
use alfaedge_pulse.Discovery.{CfRecord}
use alfaedge_pulse.Common.Groups.{group_of}
use alfaedge_pulse.Common.Text.{split_on, concat}
use alfaedge_pulse.Common.Tables.{first_that}
use alfaedge_pulse.Common.Names.{join_with, is_empty}

-- `r["type"] in ("A", "AAAA")`
unfoldable pub is_address : CfRecord → Bool
is_address r = str_eq r.rtype "A" || str_eq r.rtype "AAAA"

-- The loop from the labels `labels[i:]` on: a suffix has two labels or more.
unfoldable pub wildcard_below : List (String × List CfRecord) → List String → List CfRecord
wildcard_below records [] = []
wildcard_below records (l ∷ []) = []
wildcard_below records (l ∷ m ∷ ls) =
    let recs = group_of str_eq (concat ("*." ∷ join_with "." (l ∷ m ∷ ls) ∷ [])) records in
    let rest = wildcard_below records (m ∷ ls) in if is_empty recs then rest else recs

unfoldable pub after_first : List String → List String
after_first [] = []
after_first (l ∷ ls) = ls

-- `_wildcard_records`; the empty list stands for none.
unfoldable pub wildcard_records : List (String × List CfRecord) → String → List CfRecord
wildcard_records records name = wildcard_below records (after_first (split_on b'.' name))

-- `records.get(name) or _wildcard_records(records, name)`
unfoldable pub records_of : List (String × List CfRecord) → String → List CfRecord
records_of records name =
    let exact = group_of str_eq name records in
    if is_empty exact then wildcard_records records name else exact

-- What `cf_lookup` returns.
pub record Lookup : Type 0 where
  pub target : Option String
  pub proxied : Bool
  pub found : Bool

-- The hops that are left; `first` on the first of them.
unfoldable pub follow_hops :
    List (String × List CfRecord) → ℕ → Bool → String → Bool → Bool → Lookup
follow_hops records zero first name proxied found = record {
  target = some name;
  proxied = proxied;
  found = found;
}
follow_hops records (suc hops) first name proxied found = elim (records_of records name) [
  | [] ↦ record { target = if found then some name else none; proxied = proxied; found = found }
  | r ∷ recs ↦
      let is_proxied = if first then any (λ r. r.proxied) (r ∷ recs) else proxied in
      let onwards = follow_hops records hops false r.content is_proxied true in
      elim (first_that is_address (r ∷ recs)) [
        | none ↦ onwards
        | some a ↦ record { target = some a.content; proxied = is_proxied; found = true }
      ]
]

abbrev pub max_cname_hops : ℕ
max_cname_hops = 5

-- sync.py: `cf_lookup`
unfoldable pub cf_lookup : List (String × List CfRecord) → String → Lookup
cf_lookup records domain = follow_hops records (max_cname_hops + 1) true domain false false

-- The lookup where Cloudflare was not checked.
unfoldable pub nothing_found : Lookup
nothing_found = record { target = none; proxied = false; found = false }
