-- ===== src/Discovery/Run/Stores.antt =====
-- The two loops of `run_sync` over the table of sites, on one domain's row.
use alfaedge_pulse.Common.{
  ℕ, ◌+◌, String, ◌≡◌, refl, sym, ◌∙◌, inl, inr, Bool, false, ◌||◌, Option, none, some, List, [],
  ◌∷◌, arith, str_eq, eq_iff, eq_refl, if◌then◌else◌, Bool-cases, Option-cases,
}
use alfaedge_pulse.Discovery.{SiteRow}
use alfaedge_pulse.Discovery.Run.{
  InstanceSite, store_row, is_kept, store_rows, delete_gone, is_owned_by, touch,
}
use alfaedge_pulse.Common.Dicts.{
  has_key, dict_get, dict_delete, HasDistinctKeys, dict_get-set, dict_get-change, dict_get-delete,
}

-- The row of a domain that the sources list, from the row of before.
unfoldable pub next_row : ℕ → Bool → List String → SiteRow → Option InstanceSite → InstanceSite
next_row now cf_failed failed row none = record { fields = row; last_seen = now }
next_row now cf_failed failed row (some old) =
    if cf_failed || is_owned_by failed old
    then touch now old
    else record { fields = row; last_seen = now }

module _ (now : ℕ) (cf_failed : Bool) (failed : List String)
    (existing : List (String × InstanceSite)) where
  unfoldable pub after_rows : Option SiteRow → Option InstanceSite → Option InstanceSite
  after_rows none before = before
  after_rows (some row) before = some (next_row now cf_failed failed row before)

  store_row_other :
      (k j : String) (row : SiteRow) (sites : List (String × InstanceSite))
      → str_eq k j ≡ false
      → dict_get j (store_row now cf_failed failed existing k row sites) ≡ dict_get j sites
  unfolding store_row
  store_row_other k j row sites apart = elim (Option-cases (dict_get k existing)) [
    | inl e ↦ rw (store_row, e, dict_get-set, apart)
    | inr (old, e) ↦ elim (Bool-cases (cf_failed || is_owned_by failed old)) [
      | inl b ↦ rw (store_row, e, b, dict_get-change, apart)
      | inr b ↦ rw (store_row, e, b, dict_get-set, apart)
    ]
  ]

  store_row_same :
      (k : String) (row : SiteRow) (sites : List (String × InstanceSite))
      → dict_get k sites ≡ dict_get k existing
      → dict_get k (store_row now cf_failed failed existing k row sites)
        ≡ some (next_row now cf_failed failed row (dict_get k existing))
  unfolding store_row next_row
  store_row_same k row sites same = elim (Option-cases (dict_get k existing)) [
    | inl e ↦ rw (store_row, e, dict_get-set, eq_refl k)
    | inr (old, e) ↦ elim (Bool-cases (cf_failed || is_owned_by failed old)) [
      | inl b ↦ rw (store_row, e, b, dict_get-change, eq_refl k, same, e)
      | inr b ↦ rw (store_row, e, b, dict_get-set, eq_refl k)
    ]
  ]

  store_rows_other :
      (j : String) (rows : List (String × SiteRow)) (sites : List (String × InstanceSite))
      → has_key j rows ≡ false
      → dict_get j (store_rows now cf_failed failed existing rows sites) ≡ dict_get j sites
  unfolding store_rows has_key
  store_rows_other j [] sites h = refl
  store_rows_other j ((k, row) ∷ rows) sites h = ground (
    arith,
    h,
    store_rows_other j rows (store_row now cf_failed failed existing k row sites),
    store_row_other k j row sites,
  )

  pub store_rows_lem :
      (j : String) (rows : List (String × SiteRow)) (sites : List (String × InstanceSite))
      → HasDistinctKeys rows
      → dict_get j sites ≡ dict_get j existing
      → dict_get j (store_rows now cf_failed failed existing rows sites)
        ≡ after_rows (dict_get j rows) (dict_get j existing)
  unfolding store_rows dict_get after_rows
  store_rows_lem j [] sites h same = same
  store_rows_lem j ((k, row) ∷ rows) sites (fresh, h) same =
      let next = store_row now cf_failed failed existing k row sites in
      elim (Bool-cases (str_eq k j)) [
        | inl e ↦
            let named : k ≡ j = (eq_iff k j).0 e in
            rw (e, sym named)
              (store_rows_other k rows next fresh ∙ store_row_same k row sites (rw named same))
        | inr e ↦ rw (e, store_rows_lem j rows next h (store_row_other k j row sites e ∙ same))
      ]

module _ (rows : List (String × SiteRow)) (failed : List String) where
  -- What the deletions leave of a row, for the one of before.
  unfoldable pub unless_gone :
      String → Option InstanceSite → Option InstanceSite → Option InstanceSite
  unless_gone j none now_there = now_there
  unless_gone j (some old) now_there = if is_kept rows failed (j, old) then now_there else none

  delete_gone_other :
      (j : String) (existing sites : List (String × InstanceSite)) (n : ℕ)
      → has_key j existing ≡ false
      → dict_get j (delete_gone rows failed existing (sites, n)).0 ≡ dict_get j sites
  unfolding delete_gone has_key
  delete_gone_other j [] sites n h = refl
  delete_gone_other j ((k, s) ∷ existing) sites n h =
      elim (Bool-cases (is_kept rows failed (k, s))) [
        | inl b ↦ rw (delete_gone, b) (ground (arith, h, delete_gone_other j existing sites n))
        | inr b ↦
            rw (delete_gone, b)
              (ground (
                arith,
                h,
                delete_gone_other j existing (dict_delete k sites) (n + 1),
                dict_get-delete k j sites,
              ))
      ]

  pub delete_gone_lem :
      (j : String) (existing sites : List (String × InstanceSite)) (n : ℕ)
      → HasDistinctKeys existing
      → dict_get j (delete_gone rows failed existing (sites, n)).0
        ≡ unless_gone j (dict_get j existing) (dict_get j sites)
  unfolding delete_gone dict_get unless_gone
  delete_gone_lem j [] sites n h = refl
  delete_gone_lem j ((k, s) ∷ existing) sites n (fresh, h) = elim (Bool-cases (str_eq k j)) [
    | inl e ↦
        let named : k ≡ j = (eq_iff k j).0 e in
        elim (Bool-cases (is_kept rows failed (k, s))) [
          | inl b ↦ rw (e, delete_gone, sym named, b) (delete_gone_other k existing sites n fresh)
          | inr b ↦
              rw (e, delete_gone, sym named, b)
                (delete_gone_other k existing (dict_delete k sites) (n + 1) fresh
                  ∙ rw (dict_get-delete, eq_refl k) refl)
        ]
    | inr e ↦ elim (Bool-cases (is_kept rows failed (k, s))) [
      | inl b ↦ rw (e, delete_gone, b) (delete_gone_lem j existing sites n h)
      | inr b ↦
          rw (e, delete_gone, b)
            (delete_gone_lem j existing (dict_delete k sites) (n + 1) h
              ∙ rw (dict_get-delete, e) refl)
    ]
  ]
