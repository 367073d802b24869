-- ===== src/Logs.antt =====
-- tasks/log_monitor.py: the alerting over recurring errors. What the query of ClickHouse returns is
-- a parameter: its groups of at least `threshold` errors, at most `max_groups` of them.
pub mod Check
pub mod Critical
pub mod Open
mod Tests
use alfaedge_pulse.Common.{
  All-map, All-any, ℕ, zero, suc, ◌+◌, ◌-◌, ◌*◌, ◌/◌, ◌%◌, ◌≤◌, ◌<◌, max, String, ◌≡◌, refl, sym,
  ap, ◌∙◌, ◌≢◌, ◌↔◌, ◌⊎◌, inl, inr, Bool, true, false, not, ◌&&◌, ◌||◌, Option, none, some, List,
  [], ◌∷◌, ◌++◌, map, foldl, arith, str_eq, eq_iff, eq_refl, ltb, leb, ◌==◌, if◌then◌else◌,
  Bool-cases, Option-cases, ltb→lt, lt→ltb, leb→le, le→leb, tests, length, take, any, all, keep,
  count, length-append, any-append, count-append, count-le-length, All, length-map,
}
use alfaedge_pulse.Alerts.Dispatch.{AlertContext, Alerting, dispatch_alert}
use alfaedge_pulse.Common.Text.{or_empty, is_blank, concat, decimal}
use alfaedge_pulse.Common.Dicts.{has_key, dict_set, dict_get}
use alfaedge_pulse.Alerts.Log.{AlertKey, has_open_alert}
use alfaedge_pulse.Common.Names.{normalize_site}
use alfaedge_pulse.Common.Tables.{first_that, upsert}

-- A group of the query's answer.
pub record ErrorGroup : Type 0 where
  pub signature : String
  pub site_url : String
  pub title : String
  pub occurrences : ℕ
  pub first_seen : ℕ
  pub last_seen : ℕ
  pub latest_log_id : String

-- A `Recurring Error`.
pub record RecurringError : Type 0 where
  pub name : String
  pub signature : String
  pub title : String
  pub site_url : String
  pub monitored_host : Option String
  pub window_count : ℕ
  pub peak_window_count : ℕ
  pub first_seen : Option ℕ
  pub last_seen : ℕ
  pub latest_log_id : String
  pub is_critical : Bool
  pub ignored : Bool
  pub alert_count : ℕ
  pub last_alerted : Option ℕ
  pub last_recovered : Option ℕ

-- A row of `Monitored Host Site`.
pub record ReportedSite : Type 0 where
  pub parent : String
  pub site_url : Option String
  pub site_name : Option String

-- `d.setdefault(k, v)`
set_default : String → String → List (String × String) → List (String × String)
set_default k v d = if has_key k d then d else d ++ (k, v) ∷ []

map_value : Option String → String → List (String × String) → List (String × String)
map_value value parent d =
    if is_blank (or_empty value) then d else set_default (normalize_site value) parent d

map_sites : List ReportedSite → List (String × String) → List (String × String)
map_sites [] d = d
map_sites (row ∷ rows) d =
    map_sites rows (map_value row.site_name row.parent (map_value row.site_url row.parent d))

-- `mapping.get(source) or mapping.get(normalize_site(target))`
host_of_alias : String → String → List (String × String) → String
host_of_alias source target d =
    let direct = or_empty (dict_get source d) in
    if is_blank direct then or_empty (dict_get (normalize_site (some target)) d) else direct

map_aliases : List (String × String) → List (String × String) → List (String × String)
map_aliases [] d = d
map_aliases ((source, target) ∷ aliases) d =
    let host = host_of_alias source target d in
    map_aliases aliases
      (if is_blank host then d else set_default (normalize_site (some target)) host d)

-- log_monitor.py: `_monitored_hosts_by_site`
pub monitored_hosts_by_site : List ReportedSite → List (String × String) → List (String × String)
monitored_hosts_by_site rows aliases = map_aliases aliases (map_sites rows [])

-- `{r["signature"]: r for r in rows}`
pub breaching_of : List ErrorGroup → List (String × ErrorGroup) → List (String × ErrorGroup)
breaching_of [] d = d
breaching_of (r ∷ rs) d = breaching_of rs (dict_set r.signature r d)

pub record LogState : Type 0 where
  pub errors : List RecurringError
  pub alerting : Alerting

pub recurring_key : String → AlertKey
recurring_key name = record {
  reference_doctype = "Recurring Error";
  reference_name = name;
  alert_type = "Recurring Error";
}

-- `frappe.new_doc`, which gets its name when it is saved.
pub new_error : String → String → RecurringError
new_error name sig = record {
  name = name;
  signature = sig;
  title = "";
  site_url = "";
  monitored_host = none;
  window_count = 0;
  peak_window_count = 0;
  first_seen = none;
  last_seen = 0;
  latest_log_id = "";
  is_critical = false;
  ignored = false;
  alert_count = 0;
  last_alerted = none;
  last_recovered = none;
}

-- `doc.update(…)`, with `first_seen` where it is missing.
unfoldable pub update_error :
    List (String × String) → String → ErrorGroup → RecurringError → RecurringError
update_error host_by_site sig row doc = record doc {
  signature = sig;
  title = if is_blank row.title then "(no message)" else row.title;
  site_url = row.site_url;
  monitored_host = dict_get (normalize_site (some row.site_url)) host_by_site;
  window_count = row.occurrences;
  peak_window_count = max doc.peak_window_count row.occurrences;
  last_seen = row.last_seen;
  latest_log_id = row.latest_log_id;
  is_critical = true;
  first_seen = elim doc.first_seen [ none ↦ some row.first_seen | some t ↦ some t ];
}

unfoldable pub has_signature : String → RecurringError → Bool
has_signature sig e = str_eq e.signature sig

-- `not was_critical or not has_open_alert(…)`: a new error is not critical.
unfoldable pub needs_alert : Alerting → RecurringError → Bool
needs_alert a doc = not doc.is_critical || not (has_open_alert (recurring_key doc.name) a.log)

unfoldable pub count_alert : ℕ → Bool → RecurringError → RecurringError
count_alert now needed doc =
    if needed
    then record doc { alert_count = doc.alert_count + 1; last_alerted = some now }
    else doc

-- The document's name: `autoname` is `RE-{signature}`.
unfoldable pub name_of_error : String → String
name_of_error sig = concat ("RE-" ∷ sig ∷ [])

-- The document of a signature, or a new one.
unfoldable pub doc_or_new : String → Option RecurringError → RecurringError
doc_or_new sig none = new_error (name_of_error sig) sig
doc_or_new sig (some doc) = doc

module _ (c : AlertContext) (time_text : ℕ → String) (window : ℕ)
    (host_by_site : List (String × String)) where
  pub alert_text : RecurringError → ErrorGroup → String
  alert_text doc row = concat (
      doc.title
      ∷ " — "
      ∷ decimal row.occurrences
      ∷ "x in the last "
      ∷ decimal window
      ∷ " min on "
      ∷ doc.site_url
      ∷ " (last at "
      ∷ time_text row.last_seen
      ∷ ")"
      ∷ [])

  -- One turn of the loop over the breaching signatures.
  unfoldable pub store_breach : String → ErrorGroup → LogState → LogState
  store_breach sig row s =
      let write : Option RecurringError → RecurringError = λ found.
        let doc = doc_or_new sig found in
        count_alert c.now (needs_alert s.alerting doc) (update_error host_by_site sig row doc) in
      let doc = doc_or_new sig (first_that (has_signature sig) s.errors) in
      let saved = write (first_that (has_signature sig) s.errors) in
      record {
        errors = upsert (has_signature sig) write s.errors;
        alerting =
            if needs_alert s.alerting doc
            then dispatch_alert c (recurring_key doc.name) (alert_text saved row) true s.alerting
            else s.alerting;
      }

  unfoldable pub store_breaches : List (String × ErrorGroup) → LogState → LogState
  store_breaches [] s = s
  store_breaches ((sig, row) ∷ rest) s = store_breaches rest (store_breach sig row s)
