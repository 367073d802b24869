-- ===== src/Retention/Backfill/Rerun.antt =====
-- `backfill_server` of backfill.py, run a second time, later or at the same time.
use alfaedge_pulse.Retention.Backfill.{fetch_failed}
use mathlib.Core.Path.{subst}
use alfaedge_pulse.Common.{
  ℕ, ◌-◌, ◌*◌, ◌≤◌, String, ◌≡◌, refl, sym, ap, ◌∙◌, Bool, true, false, List, [], ◌∷◌, arith,
}
use alfaedge_pulse.Retention.Backfill.Loops.{
  WhereFetched, AllDone, import_guests-again, IsWhole, import_guests-IsWhole, AllDone-more,
}
use alfaedge_pulse.Retention.Backfill.Repeated.{
  import_one, IsGuestDone, import_one-done, import_one-grows, IsGuestDone-more,
  import_guest_rrd-again, import_host_rrd-again,
}
use alfaedge_pulse.Common.Text.{concat, decimal}
use alfaedge_pulse.Poller.Severity.{or_default}
use alfaedge_pulse.Retention.{day}
use alfaedge_pulse.Retention.Backfill.{
  RrdClient, bind_fetched, import_server, Fetched, backfill_server, HistoryTables, backfill_answer,
  fetched, import_guests, import_host_rrd,
}
use alfaedge_pulse.Retention.History.{GuestRow, HostPoint, GuestPoint}

WhereFetched-bind {ℓ κ} :
    {A : Type ℓ} {B : Type κ} (Q : B → Type 0) (f : Fetched A) (k : A → Fetched B)
    → ((a : A) → f ≡ fetched a → WhereFetched Q (k a))
    → WhereFetched Q (bind_fetched f k)
unfolding bind_fetched
WhereFetched-bind Q (fetched a) k h = h a refl
WhereFetched-bind Q (fetch_failed e) k h = tt

bind_fetched-fetched {ℓ κ} :
    {A : Type ℓ} {B : Type κ} (f : Fetched A) (k : A → Fetched B) (a : A)
    → f ≡ fetched a
    → bind_fetched f k ≡ k a
unfolding bind_fetched
bind_fetched-fetched f k a e = rw e refl

module _ (client : RrdClient) (known : List String) (server : String) (cutoff later : ℕ)
    (le : cutoff ≤ later) where
  -- The import of the guests of one kind, run twice.
  guests-again :
      (guest_type : String) (get : ℕ → Fetched (List GuestPoint)) (vmids : List ℕ) (total : ℕ)
      (rows : List GuestRow)
      → AllDone get (IsGuestDone known server guest_type cutoff) vmids rows
      → import_guests get (import_one known server guest_type later) vmids total rows
        ≡ fetched (total, rows)
  guests-again guest_type get vmids total rows h =
      import_guests-again get (import_one known server guest_type cutoff)
        (import_one known server guest_type later) (IsGuestDone known server guest_type cutoff)
        (import_one-done known server guest_type cutoff)
        (import_one-grows known server guest_type cutoff)
        (IsGuestDone-more known server guest_type cutoff)
        (import_guest_rrd-again known server guest_type cutoff later le) vmids total rows h

  -- The laws of the loop at this cutoff and the later one.
  whole :
      (guest_type : String) (get : ℕ → Fetched (List GuestPoint)) (vmids : List ℕ) (total : ℕ)
      (rows : List GuestRow) (r : ℕ × List GuestRow)
      → import_guests get (import_one known server guest_type cutoff) vmids total rows ≡ fetched r
      → IsWhole get (IsGuestDone known server guest_type cutoff) vmids rows r
  whole guest_type get vmids total rows r e =
      subst (WhereFetched (IsWhole get (IsGuestDone known server guest_type cutoff) vmids rows)) e (
        import_guests-IsWhole get (import_one known server guest_type cutoff)
          (import_one known server guest_type later) (IsGuestDone known server guest_type cutoff)
          (import_one-done known server guest_type cutoff)
          (import_one-grows known server guest_type cutoff)
          (IsGuestDone-more known server guest_type cutoff)
          (import_guest_rrd-again known server guest_type cutoff later le) vmids total rows)

  -- The second loop leaves the guests of the first done.
  AllDone-kept :
      (node : String) (vms cts : List ℕ) (rows : List GuestRow) (qemu lxc : ℕ × List GuestRow)
      → IsWhole
          (client.get_qemu_rrddata node)
          (IsGuestDone known server "QEMU (VM)" cutoff)
          vms
          rows
          qemu
      → IsWhole
          (client.get_lxc_rrddata node)
          (IsGuestDone known server "LXC (CT)" cutoff)
          cts
          qemu.1
          lxc
      → AllDone
          (client.get_qemu_rrddata node)
          (IsGuestDone known server "QEMU (VM)" cutoff)
          vms
          lxc.1
  AllDone-kept node vms cts rows qemu lxc first second =
      let guest_type : String = "QEMU (VM)" in
      subst
        (AllDone (client.get_qemu_rrddata node) (IsGuestDone known server guest_type cutoff) vms)
        (sym second.0.1)
        (AllDone-more (client.get_qemu_rrddata node) (import_one known server guest_type cutoff)
          (import_one known server guest_type later) (IsGuestDone known server guest_type cutoff)
          (import_one-done known server guest_type cutoff)
          (import_one-grows known server guest_type cutoff)
          (IsGuestDone-more known server guest_type cutoff)
          (import_guest_rrd-again known server guest_type cutoff later le) vms qemu.1 second.0.0
          first.1)

  abbrev IsSettled : Bool → ℕ × ℕ × HistoryTables → Type 0
  IsSettled is_pbs (n, m, t') =
      import_server client known is_pbs server later t' ≡ fetched (0, 0, t')

  -- A server of the backup system, which has no guests.
  import_server-pbs :
      (t : HistoryTables)
      → WhereFetched (IsSettled true) (import_server client known true server cutoff t)
  unfolding import_server
  import_server-pbs t = WhereFetched-bind (IsSettled true) client.discover_node_name _ (λ node e1.
      WhereFetched-bind (IsSettled true) (client.get_node_rrddata node) _ (λ points e2.
        let t' = record t { hosts = (import_host_rrd server cutoff points t.hosts).1 } in
        bind_fetched-fetched client.discover_node_name _ node e1
        ∙ bind_fetched-fetched (client.get_node_rrddata node) _ points e2
        ∙ ap (λ r. fetched (r.0, 0, record t' { hosts = r.1 }))
            (import_host_rrd-again server cutoff later points t.hosts le)))

  -- A second import of the hosts and guests that are there, whose calls return the same.
  import_server-same :
      (t' : HistoryTables) (node : String) (points : List HostPoint) (vms cts : List ℕ)
      → client.discover_node_name ≡ fetched node
      → client.get_node_rrddata node ≡ fetched points
      → client.list_qemu node ≡ fetched vms
      → client.list_lxc node ≡ fetched cts
      → import_host_rrd server later points t'.hosts ≡ (0, t'.hosts)
      → import_guests
          (client.get_qemu_rrddata node)
          (import_one known server "QEMU (VM)" later)
          vms
          0
          t'.guests
        ≡ fetched (0, t'.guests)
      → import_guests
          (client.get_lxc_rrddata node)
          (import_one known server "LXC (CT)" later)
          cts
          0
          t'.guests
        ≡ fetched (0, t'.guests)
      → import_server client known false server later t' ≡ fetched (0, 0, t')
  unfolding import_server
  import_server-same t' node points vms cts e1 e2 e3 e5 same_hosts same_vms same_cts =
      bind_fetched-fetched client.discover_node_name _ node e1
      ∙ bind_fetched-fetched (client.get_node_rrddata node) _ points e2
      ∙ bind_fetched-fetched (client.list_qemu node) _ vms e3
      ∙ bind_fetched-fetched
          (import_guests (client.get_qemu_rrddata node) (import_one known server "QEMU (VM)" later)
            vms 0 t'.guests)
          _ (0, t'.guests) same_vms
      ∙ bind_fetched-fetched (client.list_lxc node) _ cts e5
      ∙ bind_fetched-fetched
          (import_guests (client.get_lxc_rrddata node) (import_one known server "LXC (CT)" later)
            cts 0 t'.guests)
          _ (0, t'.guests) same_cts
      ∙ ap (λ r. fetched (r.0, 0, record t' { hosts = r.1 })) same_hosts

  -- Where every call of the second import returns what it returned in the first.
  import_server-pve :
      (t : HistoryTables)
      → WhereFetched (IsSettled false) (import_server client known false server cutoff t)
  unfolding import_server
  import_server-pve t = WhereFetched-bind (IsSettled false) client.discover_node_name _ (λ node e1.
      WhereFetched-bind (IsSettled false) (client.get_node_rrddata node) _ (λ points e2.
        WhereFetched-bind (IsSettled false) (client.list_qemu node) _ (λ vms e3.
          WhereFetched-bind (IsSettled false)
            (import_guests (client.get_qemu_rrddata node)
              (import_one known server "QEMU (VM)" cutoff) vms 0 t.guests)
            _
            (λ qemu e4. WhereFetched-bind (IsSettled false) (client.list_lxc node) _ (λ cts e5.
              WhereFetched-bind (IsSettled false)
                (import_guests (client.get_lxc_rrddata node)
                  (import_one known server "LXC (CT)" cutoff) cts qemu.0 qemu.1)
                _
                (λ lxc e6.
                  let first =
                    whole "QEMU (VM)" (client.get_qemu_rrddata node) vms 0 t.guests qemu e4 in
                  let second =
                    whole "LXC (CT)" (client.get_lxc_rrddata node) cts qemu.0 qemu.1 lxc e6 in
                  import_server-same _ node points vms cts e1 e2 e3 e5
                    (import_host_rrd-again server cutoff later points t.hosts le)
                    (guests-again "QEMU (VM)" (client.get_qemu_rrddata node) vms 0 lxc.1
                      (AllDone-kept node vms cts t.guests qemu lxc first second))
                    (guests-again "LXC (CT)" (client.get_lxc_rrddata node) cts 0 lxc.1
                      second.1)))))))

import_server-again :
    (client : RrdClient) (known : List String) (is_pbs : Bool) (server : String) (cutoff later : ℕ)
    (le : cutoff ≤ later) (t : HistoryTables)
    → WhereFetched
        (IsSettled client known server cutoff later le is_pbs)
        (import_server client known is_pbs server cutoff t)
import_server-again client known true server cutoff later le t =
    import_server-pbs client known server cutoff later le t
import_server-again client known false server cutoff later le t =
    import_server-pve client known server cutoff later le t

-- The answer of a backfill that found nothing new.
abbrev pub nothing_new : String → Bool × String
nothing_new server = (
  true,
  concat (
      "Backfilled "
      ∷ decimal 0
      ∷ " host sample(s) and "
      ∷ decimal 0
      ∷ " guest sample(s) for "
      ∷ server
      ∷ "."
      ∷ []),
)

module _ (client : RrdClient) (known : List String) (is_pbs : Bool) (server : String)
    (setting : ℕ) where
  -- A backfill that went well answers with what it imported.
  backfill_answer-went_well :
      (t : HistoryTables) (f : Fetched (ℕ × ℕ × HistoryTables))
      → (backfill_answer server t f).0.0 ≡ true
      → (r : ℕ × ℕ × HistoryTables) × (f ≡ fetched r) × ((backfill_answer server t f).1 ≡ r.2)
  unfolding backfill_answer
  backfill_answer-went_well t (fetched (n, m, t')) ok = ((n, m, t'), refl, refl)
  backfill_answer-went_well t (fetch_failed e) ok = cc

  -- A backfill that went well can be repeated, at once or later, while Proxmox returns the same: the
  -- second one reports no sample of the host and none of a guest, and leaves every table as it is.
  pub backfill_server-again :
      (now later : ℕ) (t : HistoryTables)
      → now ≤ later
      → (backfill_server client known is_pbs server setting now t).0.0 ≡ true
      → let t' = (backfill_server client known is_pbs server setting now t).1 in
        backfill_server client known is_pbs server setting later t' ≡ (nothing_new server, t')
  unfolding backfill_server backfill_answer
  backfill_server-again now later t le ok =
      let cutoff = now - or_default setting 30 * day in
      let first = import_server client known is_pbs server cutoff t in
      let next = later - or_default setting 30 * day in
      let sooner : cutoff ≤ next = omega (arith, le) in
      let (r, went, same) = backfill_answer-went_well t first ok in
      let settled =
        subst (WhereFetched (IsSettled client known server cutoff next sooner is_pbs)) went
          (import_server-again client known is_pbs server cutoff next sooner t) in
      ap (λ u. backfill_answer server u (import_server client known is_pbs server next u)) same
      ∙ ap (backfill_answer server r.2) settled
      ∙ ap (λ u. (nothing_new server, u)) (sym same)
