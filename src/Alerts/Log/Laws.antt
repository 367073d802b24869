-- ===== src/Alerts/Log/Laws.antt =====
-- Lemmas on `resolve_alert` and `has_open_alert` over the rows of the alert log.
use alfaedge_pulse.Common.{
  ℕ, ◌+◌, ◌≤◌, ◌≡◌, refl, ◌↔◌, true, List, [], ◌∷◌, ◌++◌, arith, eq_iff, if◌then◌else◌, length,
  count, count-append, length-map,
}
use alfaedge_pulse.Alerts.Log.{
  AlertKey, AlertRow, same_key, is_open_row, has_open_alert, resolve_row, resolve_alert,
}

-- The number of open rows of an incident.
abbrev pub open_rows : AlertKey → List AlertRow → ℕ
open_rows k log = count (is_open_row k) log

pub same_key_iff : (a b : AlertKey) → (same_key a b ≡ true) ↔ (a ≡ b)
unfolding same_key
same_key_iff a b = (
  λ h. ground (
    arith,
    eq_iff a.reference_doctype b.reference_doctype,
    eq_iff a.reference_name b.reference_name,
    eq_iff a.alert_type b.alert_type,
  ),
  λ h. ground (
    arith,
    h,
    eq_iff a.reference_doctype b.reference_doctype,
    eq_iff a.reference_name b.reference_name,
    eq_iff a.alert_type b.alert_type,
  ),
)

pub same_key_self : (a : AlertKey) → same_key a a ≡ true
same_key_self a = (same_key_iff a a).1 refl

-- Resolving an incident leaves the open rows of every other incident and clears its own.
pub open_rows-resolve :
    (k j : AlertKey) (log : List AlertRow)
    → open_rows j (resolve_alert k log) ≡ (if same_key k j then 0 else open_rows j log)
unfolding resolve_alert resolve_row is_open_row
open_rows-resolve k j [] = ground arith
open_rows-resolve k j (row ∷ log) = ground (
  arith,
  open_rows-resolve k j log,
  same_key_iff k j,
  same_key_iff k row.key,
  same_key_iff j row.key,
)

-- An incident is open exactly when it has an open row.
pub has_open_alert-eq :
    (k : AlertKey) (log : List AlertRow) → (has_open_alert k log ≡ true) ↔ (1 ≤ open_rows k log)
unfolding has_open_alert
has_open_alert-eq k [] = (λ h. cc, λ h. ground arith)
has_open_alert-eq k (row ∷ log) = ground (arith, has_open_alert-eq k log)

pub open_rows-append :
    (k : AlertKey) (log : List AlertRow) (row : AlertRow)
    → open_rows k (log ++ row ∷ []) ≡ open_rows k log + (if is_open_row k row then 1 else 0)
open_rows-append k log row = ground (arith, count-append (is_open_row k) log (row ∷ []))

pub length-resolve :
    (k : AlertKey) (log : List AlertRow) → length (resolve_alert k log) ≡ length log
unfolding resolve_alert
length-resolve k log = length-map (resolve_row k) log

-- The number of rows of an incident, open or not.
abbrev pub key_rows : AlertKey → List AlertRow → ℕ
key_rows k log = count (λ row. same_key k row.key) log

pub key_rows-resolve :
    (k j : AlertKey) (log : List AlertRow) → key_rows j (resolve_alert k log) ≡ key_rows j log
unfolding resolve_alert resolve_row
key_rows-resolve k j [] = refl
key_rows-resolve k j (row ∷ log) = ground (arith, key_rows-resolve k j log)
