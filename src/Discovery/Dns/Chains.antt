-- ===== src/Discovery/Dns/Chains.antt =====
-- Chains of CNAME records, and what `cf_lookup` says of a domain.
use alfaedge_pulse.Common.{
  ℕ, zero, suc, ◌≤◌, String, ◌≡◌, refl, Bool, true, false, none, some, List, [], ◌∷◌, arith, any,
}
use alfaedge_pulse.Discovery.{CfRecord}
use alfaedge_pulse.Discovery.Dns.{
  records_of, is_address, follow_hops, cf_lookup, Lookup, max_cname_hops,
}
use alfaedge_pulse.Common.Tables.{first_that}

module _ (records : List (String × List CfRecord)) where
  -- From a name, the records lead to the target over so many names that have records.
  pub data EndsAt : String → ℕ → String → Type 0 where
    outside : {name : String} → records_of records name ≡ [] → EndsAt name 0 name
    address :
        {name : String} {r a : CfRecord} {rs : List CfRecord}
        → records_of records name ≡ r ∷ rs
        → first_that is_address (r ∷ rs) ≡ some a
        → EndsAt name 1 a.content
    alias :
        {name target : String} {r : CfRecord} {rs : List CfRecord} {n : ℕ}
        → records_of records name ≡ r ∷ rs
        → first_that is_address (r ∷ rs) ≡ none
        → EndsAt r.content n target
        → EndsAt name (suc n) target

  answer : String → Bool → Lookup
  answer target proxied = record { target = some target; proxied = proxied; found = true }

  follow_hops-EndsAt :
      {name target : String} {n : ℕ} (hops : ℕ) (proxied : Bool)
      → EndsAt name n target
      → n ≤ hops
      → follow_hops records hops false name proxied true ≡ answer target proxied
  unfolding follow_hops answer
  follow_hops-EndsAt zero proxied (outside none_left) enough = refl
  follow_hops-EndsAt (suc hops) proxied (outside none_left) enough =
      rw (follow_hops, none_left) refl
  follow_hops-EndsAt zero proxied (address here is_first) enough = ground arith
  follow_hops-EndsAt (suc hops) proxied (address here is_first) enough =
      rw (follow_hops, here, is_first) refl
  follow_hops-EndsAt zero proxied (alias here no_address rest) enough = ground arith
  follow_hops-EndsAt (suc hops) proxied (alias here no_address rest) enough =
      rw (follow_hops, here, no_address)
        (follow_hops-EndsAt hops proxied rest (omega (arith, enough)))

  -- Where the records lead from a domain to a target over one to six names that have records, the
  -- lookup finds that target, and says whether one of the domain's own records is proxied.
  pub cf_lookup-EndsAt :
      (domain target : String) (n : ℕ)
      → EndsAt domain (suc n) target
      → n ≤ max_cname_hops
      → cf_lookup records domain ≡ record {
        target = some target;
        proxied = any (λ r. r.proxied) (records_of records domain);
        found = true;
      }
  unfolding follow_hops answer cf_lookup
  cf_lookup-EndsAt domain target n (address here is_first) enough =
      rw (follow_hops, here, is_first) refl
  cf_lookup-EndsAt domain target n (alias here no_address rest) enough =
      rw (follow_hops, here, no_address) (follow_hops-EndsAt 5 _ rest enough)
