-- ===== src/Alerts/Summaries.antt =====
-- What alerts/digest.py and alerts/resource_batch.py share: the rows of a window, their groups, and
-- the one mail of a summary. Times are in microseconds.
pub mod Digest
pub mod Batch
pub mod Rows
pub mod Windows
pub mod Issues
pub mod Marks
pub mod History
mod Tests
use alfaedge_pulse.Common.{
  All-map, All-any, ℕ, zero, suc, ◌+◌, ◌-◌, ◌*◌, ◌/◌, ◌%◌, ◌≤◌, ◌<◌, max, String, ◌≡◌, refl, sym,
  ap, ◌∙◌, ◌≢◌, ◌↔◌, ◌⊎◌, inl, inr, Bool, true, false, not, ◌&&◌, ◌||◌, Option, none, some, List,
  [], ◌∷◌, ◌++◌, map, foldl, arith, str_eq, eq_iff, eq_refl, ltb, leb, ◌==◌, if◌then◌else◌,
  Bool-cases, Option-cases, ltb→lt, lt→ltb, leb→le, le→leb, tests, length, take, any, all, keep,
  count, length-append, any-append, count-append, count-le-length, All, length-map,
}
use alfaedge_pulse.Alerts.Log.{AlertRow, AlertKey, has_open_alert, same_key}
use alfaedge_pulse.Alerts.Recipients.{parse_recipient_list}
use alfaedge_pulse.Alerts.Channels.{Gateway, Mail, Outbox}
use alfaedge_pulse.Alerts.Dispatch.{is_member}
use alfaedge_pulse.Common.Groups.{group_by}

-- The filters of `frappe.get_all`: "between" takes both of its ends.
unfoldable pub is_in_window : List String → ℕ → ℕ → AlertRow → Bool
is_in_window types start stop row =
    is_member row.key.alert_type types && (leb start row.sent_at && leb row.sent_at stop)

unfoldable pub insert_by_time : AlertRow → List AlertRow → List AlertRow
insert_by_time row [] = row ∷ []
insert_by_time row (r ∷ rs) =
    let later = insert_by_time row rs in
    if ltb r.sent_at row.sent_at then r ∷ later else row ∷ r ∷ rs

-- `order_by="sent_at asc"`, where rows of one time keep the order of their insertion.
unfoldable pub order_by_time : List AlertRow → List AlertRow
order_by_time [] = []
order_by_time (row ∷ rows) = insert_by_time row (order_by_time rows)

unfoldable pub rows_between : List String → ℕ → ℕ → List AlertRow → List AlertRow
rows_between types start stop log = order_by_time (keep (is_in_window types start stop) log)

-- `groups`, by type, doctype and name, in the order in which the keys are first seen.
unfoldable pub alert_groups : List AlertRow → List (AlertKey × List AlertRow)
alert_groups rows = group_by same_key (λ row. row.key) rows

-- `occurrences[-1].message`
unfoldable pub last_message : List AlertRow → String
last_message [] = ""
last_message (row ∷ []) = row.message
last_message (row ∷ r ∷ rs) = last_message (r ∷ rs)

-- "still open" by the log as it is now, whatever the newest message of the window says.
unfoldable pub open_label : AlertKey → List AlertRow → String
open_label k log = if has_open_alert k log then "still open" else "resolved"

-- `_parse_recipient_list(...) if ... else []`
unfoldable pub global_list : Bool → Option String → List String
global_list enabled value = if enabled then parse_recipient_list value else []

-- `frappe.sendmail`, with the title under which a failure is logged.
unfoldable pub send_summary : Gateway → Mail → String → Outbox → Bool × Outbox
send_summary g mail title out =
    if g.sendmail mail
    then (true, record out { mails = out.mails ++ mail ∷ [] })
    else (false, record out { errors = out.errors ++ title ∷ [] })
