-- ===== src/Deletion/Pending.antt =====
-- The deletions of one server that wait or run.
use mathlib.Core.Path.{subst}
use alfaedge_pulse.Common.Text.{strip, or_empty}
use alfaedge_pulse.Deletion.Jobs.{
  still_enabled, name_differs, already_queued, run_server_deletion, set_running, conclude,
  set_failed, set_completed,
}
use alfaedge_pulse.Common.{
  ℕ, ◌≤◌, String, ◌≡◌, refl, sym, ◌⊎◌, inl, inr, Bool, true, false, not, Option, none, some, List,
  [], ◌∷◌, ◌++◌, arith, str_eq, eq_iff, eq_refl, if◌then◌else◌, Bool-cases, Option-cases, any,
  count, count-append,
}
use alfaedge_pulse.Deletion.Jobs.{
  request_server_deletion, ServerArchive, is_pending_for, Deletions, Refusal, new_archive,
  is_pending, server_name_of,
}
use alfaedge_pulse.Common.Dicts.{dict_change, dict_get, dict_get-change}
use alfaedge_pulse.Deletion.{DbRow, field_is, collect, Plan}
use alfaedge_pulse.Common.Tables.{first_that}
use alfaedge_pulse.Deletion.Delete.{is_named_row}
use alfaedge_pulse.Common.Names.{has_text}
use alfaedge_pulse.Deletion.Archive.{Payload, build_archive}

-- The pending archives of the server.
pub pending : String → List (String × ServerArchive) → ℕ
pending server archives = count (is_pending_for server) archives

Passes : (DbRow → Bool) → Option DbRow → Type 0
Passes p none = Unit
Passes p (some r) = p r ≡ true

first_that-Passes : (p : DbRow → Bool) (db : List DbRow) → Passes p (first_that p db)
unfolding Passes
first_that-Passes p [] = tt
first_that-Passes p (r ∷ db) = elim (Bool-cases (p r)) [
  | inl e ↦ rw e e
  | inr e ↦ rw e (first_that-Passes p db)
]

count-none :
    (p : String × ServerArchive → Bool) (xs : List (String × ServerArchive))
    → any p xs ≡ false
    → count p xs ≡ 0
count-none p [] h = refl
count-none p (x ∷ xs) h = ground (arith, h, count-none p xs)

queued-pending :
    (now : ℕ) (new_name server other : String) (doc : DbRow)
    (archives : List (String × ServerArchive))
    → is_named_row "Proxmox Server" (server ∷ []) doc ≡ true
    → any (is_pending_for server) archives ≡ false
    → pending other (archives ++ (new_name, new_archive now (server_name_of doc) doc) ∷ [])
      ≡ (if str_eq server other then 1 else pending other archives)
unfolding pending is_pending_for new_archive is_pending is_named_row has_text
queued-pending now new_name server other doc archives named none_yet =
    let one : String × ServerArchive = (new_name, new_archive now (server_name_of doc) doc) in
    let same : doc.name ≡ server = (eq_iff doc.name server).0 (ground (arith, named)) in
    let counted = count-append (is_pending_for other) archives (one ∷ []) in
    elim (Bool-cases (str_eq server other)) [
      | inl e ↦
          let here : server ≡ other = (eq_iff server other).0 e in
          let free = count-none (is_pending_for other) archives (rw (sym here) none_yet) in
          let named_here : str_eq doc.name other ≡ true = rw same e in
          ground (arith, e, counted, free, named_here)
      | inr e ↦
          let named_other : str_eq doc.name other ≡ false = rw same e in
          ground (arith, e, counted, named_other)
    ]

-- What holds of the state that a request leaves, if it does not refuse.
Queues : String → String → Deletions → Refusal ⊎ Deletions → Type 0
Queues server other s (inl refusal) = Unit
Queues server other s (inr after) =
    pending other after.archives ≡ (if str_eq server other then 1 else pending other s.archives)

accepted-Queues :
    (now : ℕ) (new_name server : String) (confirm_name : Option String) (s : Deletions)
    (other : String) (doc : DbRow)
    → is_named_row "Proxmox Server" (server ∷ []) doc ≡ true
    → Queues server other s (
        if field_is "enabled" "1" doc
        then inl still_enabled
        else if not (str_eq (strip (or_empty confirm_name)) (server_name_of doc))
        then inl name_differs
        else if any (is_pending_for server) s.archives
        then inl already_queued
        else inr (record s {
          archives = s.archives ++ (new_name, new_archive now (server_name_of doc) doc) ∷ [];
        }))
unfolding Queues
accepted-Queues now new_name server confirm_name s other doc named =
    elim (Bool-cases (field_is "enabled" "1" doc)) [
      | inl b ↦ rw b tt
      | inr b ↦
          elim (Bool-cases (not (str_eq (strip (or_empty confirm_name)) (server_name_of doc)))) [
            | inl c ↦ rw (b, c) tt
            | inr c ↦ elim (Bool-cases (any (is_pending_for server) s.archives)) [
              | inl d ↦ rw (b, c, d) tt
              | inr d ↦
                  rw (b, c, d) (queued-pending now new_name server other doc s.archives named d)
            ]
          ]
    ]

request-Queues :
    (is_manager : Bool) (now : ℕ) (new_name server : String) (confirm_name : Option String)
    (s : Deletions) (other : String)
    → Queues server other s (request_server_deletion is_manager now new_name server confirm_name s)
unfolding Queues request_server_deletion Passes
request-Queues is_manager now new_name server confirm_name s other = elim (Bool-cases is_manager) [
  | inr m ↦ rw (request_server_deletion, m) tt
  | inl m ↦
      elim (Option-cases (first_that (is_named_row "Proxmox Server" (server ∷ [])) s.db.rows)) [
        | inl e ↦ rw (request_server_deletion, m, e) tt
        | inr (doc, e) ↦
            rw (request_server_deletion, m, e)
              (accepted-Queues now new_name server confirm_name s other doc (
                subst (Passes (is_named_row "Proxmox Server" (server ∷ []))) e
                  (first_that-Passes (is_named_row "Proxmox Server" (server ∷ [])) s.db.rows)))
      ]
]

-- A request that does not refuse leaves its server with one pending archive, its own, and the
-- other servers with as many as before.
pub request_server_deletion-pending :
    (is_manager : Bool) (now : ℕ) (new_name server : String) (confirm_name : Option String)
    (s after : Deletions) (other : String)
    → request_server_deletion is_manager now new_name server confirm_name s ≡ inr after
    → pending other after.archives ≡ (if str_eq server other then 1 else pending other s.archives)
unfolding Queues
request_server_deletion-pending is_manager now new_name server confirm_name s after other h =
    subst (Queues server other s) h
      (request-Queues is_manager now new_name server confirm_name s other)

change-pending :
    (archive_name : String) (f : ServerArchive → ServerArchive) (server : String)
    (archives : List (String × ServerArchive))
    → ((a : ServerArchive) → is_pending_for server (archive_name, f a) ≡ false)
    → pending server (dict_change archive_name f archives) ≤ pending server archives
unfolding pending dict_change is_pending_for
change-pending name f server [] h = omega arith
change-pending name f server ((k, a) ∷ archives) h =
    ground (arith, h a, change-pending name f server archives h)

change_running-pending :
    (archive_name server : String) (archives : List (String × ServerArchive))
    (f : ServerArchive → ServerArchive)
    → ((a : ServerArchive) → is_pending (f a).status ≡ false)
    → pending server (dict_change archive_name f (dict_change archive_name set_running archives))
      ≤ pending server archives
unfolding pending dict_change is_pending_for is_pending set_running
change_running-pending name server [] f h = omega arith
change_running-pending name server ((k, a) ∷ archives) f h =
    ground (arith, h (set_running a), change_running-pending name server archives f h)

conclude-pending :
    (plan : Plan) (payload : Payload) (now : ℕ) (archive_name server : String)
    (outcome : String ⊎ String) (s : Deletions) (archives : List (String × ServerArchive))
    → s.archives ≡ dict_change archive_name set_running archives
    → pending server (conclude plan payload now archive_name outcome s).archives
      ≤ pending server archives
unfolding conclude set_failed set_completed is_pending
conclude-pending plan payload now name server (inl error) s archives e =
    rw e (change_running-pending name server archives (set_failed now error) (λ a. refl))
conclude-pending plan payload now name server (inr file) s archives e = rw e (
    change_running-pending name server archives (set_completed now payload.summary file)
      (λ a. refl))

-- A run of a deletion makes no archive of any server pending.
pub run_server_deletion-pending :
    (attach : Payload → String ⊎ String) (now : ℕ) (archive_name server : String) (s : Deletions)
    → pending server (run_server_deletion attach now archive_name s).archives
      ≤ pending server s.archives
unfolding run_server_deletion
run_server_deletion-pending attach now archive_name server s =
    elim (Option-cases (dict_get archive_name s.archives)) [
      | inl e ↦ rw (run_server_deletion, e) (omega arith)
      | inr (a, e) ↦
          rw (run_server_deletion, e)
            (conclude-pending _ _ now archive_name server _ _ s.archives refl)
    ]

-- Where the archive cannot be attached, a run deletes nothing, and its archive says that it failed,
-- with the error.
pub run_server_deletion-failed :
    (attach : Payload → String ⊎ String) (now : ℕ) (archive_name error : String) (a : ServerArchive)
    (s : Deletions)
    → dict_get archive_name s.archives ≡ some a
    → attach (build_archive (collect a.server_doc s.db.rows) s.db.rows) ≡ inl error
    → ((run_server_deletion attach now archive_name s).db ≡ s.db)
      × (dict_get archive_name (run_server_deletion attach now archive_name s).archives
          ≡ some (set_failed now error (set_running a)))
unfolding run_server_deletion conclude
run_server_deletion-failed attach now archive_name error a s found failed =
    rw (run_server_deletion, found, failed)
      (refl, rw (dict_get-change, dict_get-change, eq_refl archive_name, found) refl)
