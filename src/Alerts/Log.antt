-- ===== src/Alerts/Log.antt =====
-- The rows of `Proxmox Alert Log` and the two operations on them of alerts/dispatch.py.
-- Rows stand in the order of their insertion; a row is its position.
pub mod Laws
use alfaedge_pulse.Common.{
  ℕ, String, Bool, true, false, not, ◌&&◌, Option, List, [], ◌∷◌, ◌++◌, any, map, str_eq,
  if◌then◌else◌,
}

-- The three filters by which an incident is looked up.
pub record AlertKey : Type 0 where
  pub reference_doctype : String
  pub reference_name : String
  pub alert_type : String

pub record AlertRow : Type 0 where
  pub key : AlertKey
  pub message : String
  pub channels_sent : String
  pub sent_at : ℕ
  pub resolved : Bool

unfoldable pub same_key : AlertKey → AlertKey → Bool
same_key a b =
    str_eq a.reference_doctype b.reference_doctype
    && str_eq a.reference_name b.reference_name
    && str_eq a.alert_type b.alert_type

-- An unresolved row of this incident.
unfoldable pub is_open_row : AlertKey → AlertRow → Bool
is_open_row k row = same_key k row.key && not row.resolved

-- dispatch.py: `has_open_alert`
pub has_open_alert : AlertKey → List AlertRow → Bool
has_open_alert k log = any (is_open_row k) log

unfoldable pub resolve_row : AlertKey → AlertRow → AlertRow
resolve_row k row = if is_open_row k row then record row { resolved = true } else row

-- dispatch.py: `resolve_alert`, over every open row that the query finds.
unfoldable pub resolve_alert : AlertKey → List AlertRow → List AlertRow
resolve_alert k log = map (resolve_row k) log
