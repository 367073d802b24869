-- ===== src/Hosts/Sites.antt =====
-- host_health/ingest.py: the sites of a report, and how a warning shows a row.
use alfaedge_pulse.Common.{String, not, Option, none, List, [], ◌∷◌, map, if◌then◌else◌, keep}
use alfaedge_pulse.Hosts.Services.{ServiceReport}
use alfaedge_pulse.Common.Text.{concat, or_empty}
use alfaedge_pulse.Alerts.Channels.{is_set}
use alfaedge_pulse.Hosts.Workers.{BenchReport}

-- A hosted site, as the host's document lists it.
pub record HostedSite : Type 0 where
  pub bench_name : Option String
  pub site_name : String
  pub site_url : Option String

-- A site of a report.
pub record SiteReport : Type 0 where
  pub bench_name : Option String
  pub site_name : Option String
  pub site_url : Option String

-- How `{row!r}` shows a row in a warning.
pub record Shown : Type 0 where
  pub service : ServiceReport → String
  pub bench : BenchReport → String
  pub site : SiteReport → String

unfoldable pub valid_sites : List SiteReport → List HostedSite
valid_sites [] = []
valid_sites (row ∷ rows) =
    let rest = valid_sites rows in
    let site : HostedSite = record {
      bench_name = row.bench_name;
      site_name = or_empty row.site_name;
      site_url = if is_set row.site_url then row.site_url else none;
    } in
    if is_set row.site_name then site ∷ rest else rest

unfoldable pub site_warnings : Shown → List SiteReport → List String
site_warnings shown rows =
    map (λ row. concat ("skipped site row missing site_name: " ∷ shown.site row ∷ []))
      (keep (λ row. not (is_set row.site_name)) rows)
