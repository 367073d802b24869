-- ===== src/Retention/Backfill/Repeated.antt =====
-- `_import_host_rrd` and `_import_guest_rrd`, once and a second time.
use mathlib.Core.Path.{subst}
use mathlib.Core.List.{append-nil}
use alfaedge_pulse.Retention.{◌>>=◌}
use alfaedge_pulse.Common.{
  All-map, ℕ, ◌+◌, ◌≤◌, String, ◌≡◌, refl, sym, inl, inr, Bool, true, ◌&&◌, Option, none, some,
  List, [], ◌∷◌, ◌++◌, arith, str_eq, eq_refl, leb, ◌==◌, if◌then◌else◌, Bool-cases, Option-cases,
  length, any, all, count, length-append,
}
use alfaedge_pulse.Retention.Backfill.Imported.{
  IsImported-more, IsImported, import_rrd-again, import_rrd-IsImported, count-import_rrd,
  is_owned_at,
}
use alfaedge_pulse.Common.Text.{concat, decimal}
use alfaedge_pulse.Retention.History.{
  host_row_of, GuestPoint, HostRow, guest_row_of, HostPoint, new_guest_row, new_host_row, GuestRow,
  present,
}
use alfaedge_pulse.Retention.Backfill.{import_guest_rrd, import_host_rrd, rows_read, import_rrd}

-- A row that there is belongs to the owner.
abbrev pub IsOwned {ℓ} : {R : Type ℓ} → (R → Bool) → Option R → Type 0
IsOwned is_owned none = Unit
IsOwned is_owned (some r) = is_owned r ≡ true

IsOwned-present :
    {R : Type 0} (is_owned : R → Bool) (o : Option ℕ) (f : ℕ → Option R)
    → ((n : ℕ) → IsOwned is_owned (f n))
    → IsOwned is_owned (o >>= f)
IsOwned-present is_owned none f h = tt
IsOwned-present is_owned (some n) f h = h n

module _ {ℓ κ} {P : Type ℓ} {R : Type κ} (row_of : P → Option R) (is_owned : R → Bool)
    (owned : (p : P) → IsOwned is_owned (row_of p)) where
  all-rows_read : (points : List P) → all is_owned (rows_read row_of points) ≡ true
  unfolding rows_read
  all-rows_read [] = refl
  all-rows_read (p ∷ points) = elim (Option-cases (row_of p)) [
    | inl missing ↦ rw (rows_read, missing) (all-rows_read points)
    | inr (row, found) ↦
        rw (rows_read, found)
          (ground (arith, all-rows_read points, subst (IsOwned is_owned) found (owned p)))
  ]

host_row_of-IsOwned :
    (server : String) (p : HostPoint) → IsOwned (λ r. str_eq r.server server) (host_row_of server p)
unfolding host_row_of new_host_row
host_row_of-IsOwned server p =
    let ours : HostRow → Bool = λ r. str_eq r.server server in
    IsOwned-present ours (present p.time) _ (λ ts. IsOwned-present ours p.cpu _ (λ cpu.
      IsOwned-present ours (present p.memtotal) _
        (λ memtotal. IsOwned-present ours p.memused _ (λ memused. eq_refl server))))

guest_row_of-IsOwned :
    (server guest : String) (vmid : ℕ) (guest_type : String) (p : GuestPoint)
    → IsOwned (λ r. str_eq r.guest guest) (guest_row_of server guest vmid guest_type p)
unfolding guest_row_of new_guest_row
guest_row_of-IsOwned server guest vmid guest_type p =
    let ours : GuestRow → Bool = λ r. str_eq r.guest guest in
    IsOwned-present ours (present p.time) _ (λ ts. IsOwned-present ours p.cpu _ (λ cpu.
      IsOwned-present ours (present p.maxmem) _
        (λ maxmem. IsOwned-present ours p.mem _ (λ mem. eq_refl guest))))

-- What is imported up to one time is imported up to a later one's cutoff.
IsImported-later :
    {R : Type 0} (at : R → ℕ) (is_owned : R → Bool) (cutoff later : ℕ) (found rows : List R)
    → cutoff ≤ later
    → IsImported at is_owned cutoff found rows
    → IsImported at is_owned later found rows
IsImported-later at is_owned cutoff later found rows le h =
    All-map found (λ r old after. old (omega arith)) h

pub import_host_rrd-again :
    (server : String) (cutoff later : ℕ) (points : List HostPoint) (rows : List HostRow)
    → cutoff ≤ later
    → let rows' = (import_host_rrd server cutoff points rows).1 in
      import_host_rrd server later points rows' ≡ (0, rows')
unfolding import_host_rrd
import_host_rrd-again server cutoff later points rows le =
    let at : HostRow → ℕ = λ r. r.collected_at in
    let ours : HostRow → Bool = λ r. str_eq r.server server in
    let found = rows_read (host_row_of server) points in
    let owned = all-rows_read (host_row_of server) ours (host_row_of-IsOwned server) points in
    import_rrd-again at ours later found _ (
      IsImported-later at ours cutoff later found _ le
        (import_rrd-IsImported at ours cutoff found rows owned))

module _ (known : List String) (server guest_type : String) (cutoff : ℕ) where
  abbrev pub import_one : ℕ → List GuestPoint → List GuestRow → ℕ × List GuestRow
  import_one vmid points rows = import_guest_rrd known server cutoff vmid guest_type points rows

  abbrev guest_of : ℕ → String
  guest_of vmid = concat (server ∷ "-" ∷ decimal vmid ∷ [])

  -- A guest that is known has all its points.
  abbrev pub IsGuestDone : ℕ → List GuestPoint → List GuestRow → Type 0
  IsGuestDone vmid points rows =
      any (str_eq (guest_of vmid)) known ≡ true
      → IsImported (λ r. r.collected_at) (λ r. str_eq r.guest (guest_of vmid)) cutoff
          (rows_read (guest_row_of server (guest_of vmid) vmid guest_type) points) rows

  pub import_one-done :
      (vmid : ℕ) (points : List GuestPoint) (rows : List GuestRow)
      → IsGuestDone vmid points (import_one vmid points rows).1
  unfolding import_guest_rrd
  import_one-done vmid points rows is_known =
      let ours : GuestRow → Bool = λ r. str_eq r.guest (guest_of vmid) in
      let row_of = guest_row_of server (guest_of vmid) vmid guest_type in
      rw is_known (
        import_rrd-IsImported (λ r. r.collected_at) ours cutoff (rows_read row_of points) rows
          (all-rows_read row_of ours (guest_row_of-IsOwned server (guest_of vmid) vmid guest_type)
            points))

  pub import_one-grows :
      (vmid : ℕ) (points : List GuestPoint) (rows : List GuestRow)
      → (more : List GuestRow) × ((import_one vmid points rows).1 ≡ rows ++ more)
  unfolding import_guest_rrd import_rrd
  import_one-grows vmid points rows = elim (Bool-cases (any (str_eq (guest_of vmid)) known)) [
    | inl is_known ↦ rw is_known (_, refl)
    | inr unknown ↦ rw unknown ([], sym (append-nil rows))
  ]

  pub IsGuestDone-more :
      (vmid : ℕ) (points : List GuestPoint) (rows more : List GuestRow)
      → IsGuestDone vmid points rows
      → IsGuestDone vmid points (rows ++ more)
  IsGuestDone-more vmid points rows more h is_known =
      IsImported-more (λ r. r.collected_at) (λ r. str_eq r.guest (guest_of vmid)) cutoff
        (rows_read (guest_row_of server (guest_of vmid) vmid guest_type) points) rows more
        (h is_known)

pub import_guest_rrd-again :
    (known : List String) (server guest_type : String) (cutoff later : ℕ)
    → cutoff ≤ later
    → (vmid : ℕ) (points : List GuestPoint) (rows : List GuestRow)
    → IsGuestDone known server guest_type cutoff vmid points rows
    → import_guest_rrd known server later vmid guest_type points rows ≡ (0, rows)
unfolding import_guest_rrd
import_guest_rrd-again known server guest_type cutoff later le vmid points rows h =
    let guest = guest_of known server guest_type cutoff vmid in
    elim (Bool-cases (any (str_eq guest) known)) [
      | inl is_known ↦ rw is_known (
          import_rrd-again (λ r. r.collected_at) (λ r. str_eq r.guest guest) later
            (rows_read (guest_row_of server guest vmid guest_type) points) rows
            (IsImported-later (λ r. r.collected_at) (λ r. str_eq r.guest guest) cutoff later
              (rows_read (guest_row_of server guest vmid guest_type) points) rows le (h is_known)))
      | inr unknown ↦ rw unknown refl
    ]

-- A row of the server, of this time.
abbrev pub is_host_row_at : String → ℕ → HostRow → Bool
is_host_row_at server t = is_owned_at (λ r. r.collected_at) (λ r. str_eq r.server server) t

-- After the import of a host's points the server has, for each time from the cutoff on of which it
-- had no row and a complete point was returned, one row; of every other time it has as many as
-- before. The table has grown by as many rows as the import returns.
pub import_host_rrd_lem :
    (server : String) (cutoff : ℕ) (points : List HostPoint) (rows : List HostRow) (t : ℕ)
    → let (n, rows') = import_host_rrd server cutoff points rows in
      (count (is_host_row_at server t) rows' ≡ (
        if leb cutoff t
          && (count (is_host_row_at server t) rows == 0
              && any (λ r. r.collected_at == t) (rows_read (host_row_of server) points))
        then 1
        else count (is_host_row_at server t) rows))
      × (length rows' ≡ length rows + n)
unfolding import_host_rrd import_rrd
import_host_rrd_lem server cutoff points rows t =
    let ours : HostRow → Bool = λ r. str_eq r.server server in
    let found = rows_read (host_row_of server) points in
    (
      count-import_rrd (λ r. r.collected_at) ours cutoff found rows t
          (all-rows_read (host_row_of server) ours (host_row_of-IsOwned server) points),
      length-append rows _,
    )
