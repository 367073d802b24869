-- ===== src/Deletion/Jobs.antt =====
-- server_deletion.py: `request_server_deletion` and `run_server_deletion`.
-- The role check, the name of a new archive and the attachment of its file are parameters.
use alfaedge_pulse.Deletion.{Plan}
use alfaedge_pulse.Common.{
  ℕ, String, ◌⊎◌, inl, inr, Bool, true, false, not, ◌&&◌, Option, none, some, List, [], ◌∷◌, ◌++◌,
  str_eq, if◌then◌else◌, any,
}
use alfaedge_pulse.Deletion.{DbRow, field_is, collect}
use alfaedge_pulse.Deletion.Delete.{Database, is_named_row, delete_planned}
use alfaedge_pulse.Common.Tables.{first_that}
use alfaedge_pulse.Deletion.Archive.{Payload, build_archive}
use alfaedge_pulse.Common.Text.{or_empty, strip}
use alfaedge_pulse.Common.Dicts.{dict_get, dict_change}

pub data ArchiveStatus : Type 0 where
  queued : ArchiveStatus
  running : ArchiveStatus
  completed : ArchiveStatus
  failed : ArchiveStatus

-- A `Proxmox Server Archive`.
pub record ServerArchive : Type 0 where
  pub server_name : String
  pub server_doc : String
  pub requested_at : ℕ
  pub status : ArchiveStatus
  pub completed_at : Option ℕ
  pub summary : List (String × ℕ)
  pub archive_file : Option String
  pub error : Option String

pub record Deletions : Type 0 where
  pub db : Database
  pub archives : List (String × ServerArchive)

-- What `request_server_deletion` raises.
pub data Refusal : Type 0 where
  not_permitted : Refusal
  does_not_exist : Refusal
  still_enabled : Refusal
  name_differs : Refusal
  already_queued : Refusal

-- `status in ("Queued", "Running")`
unfoldable pub is_pending : ArchiveStatus → Bool
is_pending queued = true
is_pending running = true
is_pending completed = false
is_pending failed = false

-- `{"server_doc": server, "status": ["in", ("Queued", "Running")]}`
unfoldable pub is_pending_for : String → String × ServerArchive → Bool
is_pending_for server (name, a) = str_eq a.server_doc server && is_pending a.status

unfoldable pub new_archive : ℕ → String → DbRow → ServerArchive
new_archive now server_name doc = record {
  server_name = server_name;
  server_doc = doc.name;
  requested_at = now;
  status = queued;
  completed_at = none;
  summary = [];
  archive_file = none;
  error = none;
}

unfoldable pub server_name_of : DbRow → String
server_name_of doc = or_empty (dict_get "server_name" doc.fields)

-- server_deletion.py: `request_server_deletion`, up to the `enqueue` of the job; `new_name` is the
-- name of the inserted archive.
unfoldable pub request_server_deletion :
    Bool → ℕ → String → String → Option String → Deletions → Refusal ⊎ Deletions
request_server_deletion is_manager now new_name server confirm_name s =
    if not is_manager
    then inl not_permitted
    else elim (first_that (is_named_row "Proxmox Server" (server ∷ [])) s.db.rows) [
      | none ↦ inl does_not_exist
      | some doc ↦
          let name = server_name_of doc in
          if field_is "enabled" "1" doc
          then inl still_enabled
          else if not (str_eq (strip (or_empty confirm_name)) name)
          then inl name_differs
          else if any (is_pending_for server) s.archives
          then inl already_queued
          else inr (record s { archives = s.archives ++ (new_name, new_archive now name doc) ∷ [] })
    ]

unfoldable pub set_running : ServerArchive → ServerArchive
set_running a = record a { status = running }

unfoldable pub set_completed : ℕ → List (String × ℕ) → String → ServerArchive → ServerArchive
set_completed now summary file a = record a {
  status = completed;
  completed_at = some now;
  summary = summary;
  archive_file = some file;
  error = none;
}

unfoldable pub set_failed : ℕ → String → ServerArchive → ServerArchive
set_failed now error a = record a { status = failed; completed_at = some now; error = some error }

-- The end of a run: an error of the attachment rolls the deletion back.
unfoldable pub conclude : Plan → Payload → ℕ → String → String ⊎ String → Deletions → Deletions
conclude plan payload now archive_name (inl error) s = record s {
  archives = dict_change archive_name (set_failed now error) s.archives;
}
conclude plan payload now archive_name (inr file) s = record {
  db = delete_planned plan s.db;
  archives = dict_change archive_name (set_completed now payload.summary file) s.archives;
}

-- server_deletion.py: `run_server_deletion`; `attach` gives the file's URL, or the error that it
-- raises on the left, as the shown end of its traceback.
unfoldable pub run_server_deletion :
    (Payload → String ⊎ String) → ℕ → String → Deletions → Deletions
run_server_deletion attach now archive_name s = elim (dict_get archive_name s.archives) [
  | none ↦ s
  | some archive ↦
      let plan = collect archive.server_doc s.db.rows in
      let payload = build_archive plan s.db.rows in
      let started = record s { archives = dict_change archive_name set_running s.archives } in
      conclude plan payload now archive_name (attach payload) started
]
