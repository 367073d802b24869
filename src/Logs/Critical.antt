-- ===== src/Logs/Critical.antt =====
-- The critical flags of the recurring errors after a check.
use alfaedge_pulse.Common.{
  String, ◌≡◌, ap, ◌∙◌, inl, inr, Bool, true, false, ◌&&◌, List, arith, str_eq, eq_iff, Bool-cases,
}
use alfaedge_pulse.Logs.{RecurringError, has_signature, ErrorGroup}
use alfaedge_pulse.Common.Dicts.{has_key}
use alfaedge_pulse.Logs.Check.{is_recovered}

-- The row is critical, and its signature is the given one.
pub is_critical_for : String → RecurringError → Bool
is_critical_for sig e = has_signature sig e && e.is_critical

-- A recovered row is of no breaching signature.
pub recovered_signature :
    (breaching : List (String × ErrorGroup)) (sig : String) (e : RecurringError)
    → has_key sig breaching ≡ true
    → is_recovered breaching e ≡ true
    → str_eq e.signature sig ≡ false
unfolding is_recovered
recovered_signature breaching sig e h b = elim (Bool-cases (str_eq e.signature sig)) [
  | inr s ↦ s
  | inl s ↦
      let named : e.signature ≡ sig = (eq_iff e.signature sig).0 s in
      let held : has_key e.signature breaching ≡ true = ap (λ t. has_key t breaching) named ∙ h in
      ground (arith, b, held)
]
