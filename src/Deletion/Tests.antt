-- ===== src/Deletion/Tests.antt =====
-- A disabled server with one guest, whose host reported a service.
use alfaedge_pulse.Common.{◌≡◌, refl, inr, true, false, some, List, [], ◌∷◌, map, any}
use alfaedge_pulse.Deletion.Delete.{
  Database, delete_planned, unlink, is_named_row, planned, drop_names, delete_chunks, bulk_delete,
  delete_tables, is_child_row, is_secret_of, delete_owners,
}
use alfaedge_pulse.Deletion.Linked.{links_to, delete_planned-links_to}
use alfaedge_pulse.Deletion.{
  field_in, DbRow, collect, field_is, names_of, distinct, union_of, in_filters, names_in,
}
use alfaedge_pulse.Deletion.Jobs.{
  ServerArchive, request_server_deletion, Deletions, server_name_of, new_archive, is_pending_for,
  is_pending,
}
use alfaedge_pulse.Deletion.Complete.{is_doomed, delete_planned_lem}
use alfaedge_pulse.Common.Dicts.{dict_get, dict_delete}
use alfaedge_pulse.Common.Tables.{delete_where}
use alfaedge_pulse.Common.Names.{has_text, is_empty, sort_texts, insert_text, text_before}
use alfaedge_pulse.Common.Text.{strip, strip_left, strip_right, is_space, is_blank}
use alfaedge_pulse.Common.Groups.{group_of}
use alfaedge_pulse.Deletion.Archived.{is_lost, build_archive-is_lost}

abbrev server_row : DbRow
server_row = record {
  doctype = "Proxmox Server";
  name = "pve1";
  creation = 1;
  fields = ("server_name", "PVE 1") ∷ [];
}

abbrev guest_row : DbRow
guest_row = record {
  doctype = "Proxmox Guest";
  name = "vm-101";
  creation = 2;
  fields = ("server", "pve1") ∷ [];
}

abbrev host_row : DbRow
host_row = record {
  doctype = "Monitored Host";
  name = "shop-host";
  creation = 3;
  fields = ("proxmox_guest", "vm-101") ∷ [];
}

abbrev memory_row : DbRow
memory_row = record {
  doctype = "Memory Metric Log";
  name = "m1";
  creation = 4;
  fields = ("monitored_host", "shop-host") ∷ [];
}

abbrev rows : List DbRow
rows = server_row ∷ guest_row ∷ host_row ∷ memory_row ∷ []

abbrev database : Database
database = record {
  rows = rows;
  secrets = record { of_doctype = "Proxmox Server"; of_name = "pve1" } ∷ [];
}

abbrev idle : Deletions
idle = record { db = database; archives = [] }

abbrev archive : ServerArchive
archive = new_archive 7 "PVE 1" server_row

abbrev requested : Deletions
requested = record { db = database; archives = ("A1", archive) ∷ [] }

request_test : request_server_deletion true 7 "A1" "pve1" (some " PVE 1 ") idle ≡ inr requested
unfolding request_server_deletion server_name_of field_is field_in is_pending_for is_pending
    is_named_row has_text dict_get strip strip_left strip_right is_space is_blank new_archive
request_test = refl

-- The samples of a deleted host stay, and still link to it.
left_test : (delete_planned (collect "pve1" rows) database).rows ≡ memory_row ∷ []
unfolding field_in field_is names_of distinct union_of in_filters names_in collect drop_names
    is_named_row delete_chunks bulk_delete planned delete_tables is_child_row unlink is_secret_of
    delete_owners delete_planned dict_get dict_delete group_of is_empty has_text sort_texts
    insert_text text_before delete_where
left_test = refl

delete_planned_lem_example :
    (delete_planned (collect "pve1" rows) database).rows
    ≡ delete_where
        (is_doomed (collect "pve1" rows))
        (map (unlink (planned (collect "pve1" rows) "Recurring Error (unlinked)")) rows)
delete_planned_lem_example = delete_planned_lem (collect "pve1" rows) database

delete_planned-links_to_example :
    any (links_to "pve1") (delete_planned (collect "pve1" rows) database).rows ≡ false
delete_planned-links_to_example = delete_planned-links_to "pve1" database

-- The server with a service that is expected on its host, a child row of the host.
abbrev expected_row : DbRow
expected_row = record {
  doctype = "Expected Service";
  name = "e1";
  creation = 5;
  fields = ("parent", "shop-host") ∷ ("parenttype", "Monitored Host") ∷ [];
}

abbrev all_rows : List DbRow
all_rows = expected_row ∷ rows

build_archive-is_lost_example : any (is_lost (collect "pve1" all_rows) all_rows) all_rows ≡ false
build_archive-is_lost_example = build_archive-is_lost (collect "pve1" all_rows) all_rows
