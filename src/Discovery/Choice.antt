-- ===== src/Discovery/Choice.antt =====
-- site_discovery/sync.py: which candidate the row of a domain takes, with its status and note, in
-- `resolve`; and `_who`.
use alfaedge_pulse.Common.{
  String, Bool, not, ◌&&◌, Option, none, some, List, [], ◌∷◌, map, if◌then◌else◌, keep,
}
use alfaedge_pulse.Discovery.{
  active, ambiguous, NpmResult, not_in_cloudflare, SiteStatus, is_target_in, is_given_in,
  dns_mismatch,
}
use alfaedge_pulse.Common.Tables.{first_that}
use alfaedge_pulse.Discovery.Candidates.{Candidate}
use alfaedge_pulse.Discovery.Dns.{Lookup}
use alfaedge_pulse.Common.Names.{
  join_with, sort_texts, is_empty, is_empty, is_empty, is_empty, is_empty, is_empty, is_empty,
  is_empty, is_empty, is_empty, is_empty, is_empty, is_empty, is_empty, is_empty, is_empty,
  is_empty, is_empty, is_empty, is_empty, is_empty, is_empty, is_empty, is_empty, is_empty,
  is_empty, is_empty, is_empty, is_empty, is_empty, is_empty, is_empty, is_empty, is_empty,
  is_empty, is_empty, is_empty, is_empty, is_empty, is_empty,
}
use alfaedge_pulse.Common.Text.{concat}
use alfaedge_pulse.Common.Dicts.{dict_get, dict_set}

-- `{n.name: n.public_ips for n in npms}`
unfoldable pub npm_ips_of :
    List NpmResult → List (String × List String) → List (String × List String)
npm_ips_of [] d = d
npm_ips_of (n ∷ ns) d = npm_ips_of ns (dict_set n.name n.public_ips d)

-- `str(target)`
unfoldable pub target_text : Option String → String
target_text none = "None"
target_text (some t) = t

-- `_who`
unfoldable pub who : Option String → List (String × List String) → String
who target npm_ips = elim (first_that (λ e. is_target_in target e.1) npm_ips) [
  | none ↦ target_text target
  | some e ↦ concat (target_text target ∷ " (" ∷ e.0 ∷ " NPM, which has no proxy host for it)" ∷ [])
]

-- The candidate that a domain's row takes, with the status and the note of the first tests.
pub record Choice : Type 0 where
  pub chosen : Option Candidate
  pub status : SiteStatus
  pub note : String

-- `if len(matches) == 1`
unfoldable pub if_single : Choice → (String → Choice) → List String → Choice
if_single undecided decided (m ∷ []) = decided m
if_single undecided decided _ = undecided

module _ (cf_checked : Bool) (found : Lookup) (npm_ips : List (String × List String)) where
  unfoldable pub ips_of : String → List String
  ips_of name = elim (dict_get name npm_ips) [ none ↦ [] | some ips ↦ ips ]

  -- The domain stands in one NPM.
  unfoldable pub choose_only : String → Candidate → Choice
  choose_only name c =
      let ips = ips_of name in
      if cf_checked && not found.found
      then record {
        chosen = some c;
        status = not_in_cloudflare;
        note = "No Cloudflare DNS record for this domain.";
      }
      else if cf_checked && not (is_empty ips) && not (is_given_in found.target ips)
      then record {
        chosen = some c;
        status = dns_mismatch;
        note = concat (
            "Not live on "
            ∷ name
            ∷ ": Cloudflare sends it to "
            ∷ who found.target npm_ips
            ∷ "."
            ∷ []);
      }
      else if cf_checked && is_empty ips
      then record {
        chosen = some c;
        status = active;
        note = concat (
            "Set "
            ∷ name
            ∷ "'s public IP to verify DNS (Cloudflare → "
            ∷ target_text found.target
            ∷ ")."
            ∷ []);
      }
      else record { chosen = some c; status = active; note = "" }

  unfoldable pub why_ambiguous : String
  why_ambiguous =
      if not cf_checked
      then "Cloudflare not checked"
      else if not found.found
      then "no Cloudflare record"
      else concat
          ("Cloudflare sends it to " ∷ who found.target npm_ips ∷ ", not to any of them" ∷ [])

  -- It stands in several.
  unfoldable pub choose_among : List String → List (String × Candidate) → Choice
  choose_among names by_npm =
      let listing = join_with " + " names in
      let undecided : Choice = record {
        chosen = none;
        status = ambiguous;
        note = concat ("In " ∷ listing ∷ "; " ∷ why_ambiguous ∷ "." ∷ []);
      } in
      let decided : String → Choice = λ m. record {
        chosen = dict_get m by_npm;
        status = active;
        note =
            concat (
              "In "
              ∷ listing
              ∷ "; Cloudflare → "
              ∷ target_text found.target
              ∷ " = "
              ∷ m
              ∷ "."
              ∷ []);
      } in
      if_single undecided decided (keep (λ nm. is_target_in found.target (ips_of nm)) names)

  unfoldable pub choose : List (String × Candidate) → Choice
  choose [] = record { chosen = none; status = active; note = "" }
  choose ((name, c) ∷ []) = choose_only name c
  choose (e ∷ f ∷ es) = choose_among (sort_texts (map (λ e. e.0) (e ∷ f ∷ es))) (e ∷ f ∷ es)
