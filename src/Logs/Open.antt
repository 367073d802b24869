-- ===== src/Logs/Open.antt =====
-- The incidents of the breaching signatures after a check.
use mathlib.Core.Path.{subst}
use text.Mathlib.TextLemmas.{append-nil, append_cancel_left}
use alfaedge_pulse.Common.{
  ℕ, ◌≤◌, String, ◌≡◌, refl, sym, ap, ◌∙◌, ◌≢◌, ◌⊎◌, inl, inr, Bool, true, false, Option, none,
  some, List, [], ◌∷◌, arith, str_eq, eq_iff, Bool-cases, All,
}
use alfaedge_pulse.Logs.{
  doc_or_new, RecurringError, store_breach, new_error, name_of_error, has_signature, recurring_key,
  needs_alert, ErrorGroup, LogState, store_breaches, count_alert, update_error, breaching_of,
}
use alfaedge_pulse.Common.Tables.{upsert, first_that}
use alfaedge_pulse.Alerts.Dispatch.{AlertContext, Alerting, dispatch_alert}
use alfaedge_pulse.Alerts.Log.Laws.{open_rows, has_open_alert-eq, same_key_self, open_rows-resolve}
use alfaedge_pulse.Common.Text.{concat}
use alfaedge_pulse.Common.Dicts.{has_key}
use alfaedge_pulse.Alerts.Dispatch.Laws.{open_rows-dispatch_alert, open_rows-dispatch_recovery}
use alfaedge_pulse.Alerts.Log.{same_key, resolve_alert}
use alfaedge_pulse.Logs.Check.{recover_errors, close_alert, run_check, is_recovered, recovery_text}
use alfaedge_pulse.Logs.Critical.{recovered_signature}

abbrev pub AllNamed : List RecurringError → Type 0
AllNamed es = All (λ e. e.name ≡ name_of_error e.signature) es

-- The open rows of the alert of a signature.
pub open_for : String → Alerting → ℕ
open_for sig a = open_rows (recurring_key (name_of_error sig)) a.log

-- The document of a signature has its name.
doc_name :
    (sig : String) (es : List RecurringError)
    → AllNamed es
    → (doc_or_new sig (first_that (has_signature sig) es)).name ≡ name_of_error sig
unfolding doc_or_new new_error has_signature
doc_name sig [] h = refl
doc_name sig (e ∷ es) (named, h) = elim (Bool-cases (str_eq e.signature sig)) [
  | inl s ↦ rw s (named ∙ ap name_of_error ((eq_iff e.signature sig).0 s))
  | inr s ↦ rw s (doc_name sig es h)
]

upsert-AllNamed :
    (p : RecurringError → Bool) (f : Option RecurringError → RecurringError)
    (es : List RecurringError)
    → (f none).name ≡ name_of_error (f none).signature
    → ((e : RecurringError)
        → p e ≡ true
        → e.name ≡ name_of_error e.signature
        → (f (some e)).name ≡ name_of_error (f (some e)).signature)
    → AllNamed es
    → AllNamed (upsert p f es)
unfolding upsert
upsert-AllNamed p f [] new old h = (new, tt)
upsert-AllNamed p f (e ∷ es) new old (named, h) = elim (Bool-cases (p e)) [
  | inl b ↦ rw (upsert, b) (old e b named, h)
  | inr b ↦ rw (upsert, b) (named, upsert-AllNamed p f es new old h)
]

-- The name of an error tells its signature.
names_apart : (a b : String) → str_eq a b ≡ false → name_of_error a ≢ name_of_error b
unfolding name_of_error concat
names_apart a b differs same =
    let equal : a ≡ b = sym (append-nil a) ∙ append_cancel_left "RE-" _ _ same ∙ append-nil b in
    ground (arith, differs, (eq_iff a b).1 equal)

module _ (c : AlertContext) where
  dispatched :
      (sig other name message : String) (a : Alerting)
      → name ≡ name_of_error sig
      → (open_for other a ≤ open_for other (dispatch_alert c (recurring_key name) message true a))
        × (1 ≤ open_for sig (dispatch_alert c (recurring_key name) message true a))
  unfolding open_for
  dispatched sig other name message a same =
      let rows = open_rows-dispatch_alert c (recurring_key name) message true a in
      let own : same_key (recurring_key (name_of_error sig)) (recurring_key name) ≡ true =
        ap (λ n. same_key (recurring_key (name_of_error sig)) (recurring_key n)) same
        ∙ same_key_self _ in
      (
        ground (arith, rows (recurring_key (name_of_error other))),
        ground (arith, own, rows (recurring_key (name_of_error sig))),
      )

  written_name :
      (needed : Bool) (host_by_site : List (String × String)) (sig : String) (row : ErrorGroup)
      (doc : RecurringError)
      → doc.name ≡ name_of_error sig
      → (count_alert c.now needed (update_error host_by_site sig row doc)).name
        ≡ name_of_error (count_alert c.now needed (update_error host_by_site sig row doc)).signature
  unfolding count_alert update_error
  written_name true host_by_site sig row doc h = h
  written_name false host_by_site sig row doc h = h

module _ (c : AlertContext) (time_text : ℕ → String) (window : ℕ)
    (host_by_site : List (String × String)) where
  store_breach-opens :
      (sig other : String) (row : ErrorGroup) (s : LogState)
      → AllNamed s.errors
      → (open_for other s.alerting
          ≤ open_for other (store_breach c time_text window host_by_site sig row s).alerting)
        × (1 ≤ open_for sig (store_breach c time_text window host_by_site sig row s).alerting)
  unfolding store_breach open_for needs_alert
  store_breach-opens sig other row s named =
      let doc = doc_or_new sig (first_that (has_signature sig) s.errors) in
      let same : doc.name ≡ name_of_error sig = doc_name sig s.errors named in
      elim (Bool-cases (needs_alert s.alerting doc)) [
        | inl b ↦ rw (store_breach, b) (dispatched c sig other doc.name _ s.alerting same)
        | inr b ↦
            rw (store_breach, b)
              (
                omega arith,
                subst (λ n. 1 ≤ open_rows (recurring_key n) s.alerting.log) same
                    ((has_open_alert-eq (recurring_key doc.name) s.alerting.log).0
                      (ground (arith, b))),
              )
      ]

  store_breach-AllNamed :
      (sig : String) (row : ErrorGroup) (s : LogState)
      → AllNamed s.errors
      → AllNamed (store_breach c time_text window host_by_site sig row s).errors
  unfolding store_breach doc_or_new new_error has_signature
  store_breach-AllNamed sig row s named =
      upsert-AllNamed (has_signature sig) _ s.errors
        (written_name c _ host_by_site sig row (doc_or_new sig none) refl)
        (λ e fits h.
          written_name c _ host_by_site sig row e
            (h ∙ ap name_of_error ((eq_iff e.signature sig).0 fits)))
        named

  store_breaches-opens :
      (sig : String) (breaching : List (String × ErrorGroup)) (s : LogState)
      → AllNamed s.errors
      → (has_key sig breaching ≡ true) ⊎ (1 ≤ open_for sig s.alerting)
      → (1 ≤ open_for sig (store_breaches c time_text window host_by_site breaching s).alerting)
        × AllNamed (store_breaches c time_text window host_by_site breaching s).errors
  unfolding store_breaches has_key
  store_breaches-opens sig [] s named (inl h) = ground (arith, h)
  store_breaches-opens sig [] s named (inr h) = (h, named)
  store_breaches-opens sig ((k, row) ∷ rest) s named h =
      let turn = store_breach c time_text window host_by_site k row s in
      let opens = store_breach-opens k sig row s named in
      store_breaches-opens sig rest turn (store_breach-AllNamed k row s named)
        (elim (Bool-cases (str_eq k sig)) [
          | inl e ↦ inr (subst (λ t. 1 ≤ open_for t turn.alerting) ((eq_iff k sig).0 e) opens.1)
          | inr e ↦ elim h [
            | inl held ↦ inl (ground (arith, held, e))
            | inr still ↦ inr (omega (arith, still, opens.0))
          ]
        ])

module _ (c : AlertContext) (threshold window : ℕ) (breaching : List (String × ErrorGroup)) where
  other_key :
      (sig : String) (e : RecurringError)
      → e.name ≡ name_of_error e.signature
      → str_eq e.signature sig ≡ false
      → same_key (recurring_key e.name) (recurring_key (name_of_error sig)) ≡ false
  unfolding recurring_key same_key
  other_key sig e named differs = elim (Bool-cases (str_eq e.name (name_of_error sig))) [
    | inl s ↦
        elim (names_apart e.signature sig differs
          (sym named ∙ (eq_iff e.name (name_of_error sig)).0 s)) [ ]
    | inr s ↦ ground (arith, s)
  ]

  -- Closing another error's alert leaves that of the signature.
  close_alert-opens :
      (sig : String) (e : RecurringError) (a : Alerting)
      → e.name ≡ name_of_error e.signature
      → str_eq e.signature sig ≡ false
      → open_for sig (close_alert c threshold window breaching e a) ≡ open_for sig a
  unfolding close_alert open_for
  close_alert-opens sig e a named differs =
      let k = recurring_key e.name in
      let resolved : Alerting = record a { log = resolve_alert k a.log } in
      let apart = other_key sig e named differs in
      let announced =
        open_rows-dispatch_recovery c k (recovery_text threshold window e) true resolved
          (recurring_key (name_of_error sig)) in
      let left = open_rows-resolve k (recurring_key (name_of_error sig)) a.log in
      ground (arith, apart, announced, left)

  recover_errors-opens :
      (sig : String) (es : List RecurringError) (a : Alerting)
      → AllNamed es
      → has_key sig breaching ≡ true
      → open_for sig (recover_errors c threshold window breaching es a).1 ≡ open_for sig a
  unfolding recover_errors
  recover_errors-opens sig [] a named h = refl
  recover_errors-opens sig (e ∷ es) a (own, named) h =
      recover_errors-opens sig es _ named h ∙ elim (Bool-cases (is_recovered breaching e)) [
        | inr b ↦ rw b refl
        | inl b ↦ rw b (close_alert-opens sig e a own (recovered_signature breaching sig e h b))
      ]

-- After a check every signature that the query returned has an open alert, if each error was stored
-- under the name of its signature.
pub run_check-opens :
    (c : AlertContext) (time_text : ℕ → String) (threshold window : ℕ)
    (host_by_site : List (String × String)) (rows : List ErrorGroup) (s : LogState) (sig : String)
    → AllNamed s.errors
    → has_key sig (breaching_of rows []) ≡ true
    → 1 ≤ open_for sig (run_check c time_text threshold window host_by_site rows s).alerting
unfolding run_check
run_check-opens c time_text threshold window host_by_site rows s sig named h =
    let breaching = breaching_of rows [] in
    let stored = store_breaches c time_text window host_by_site breaching s in
    let opens =
      store_breaches-opens c time_text window host_by_site sig breaching s named (inl h) in
    let kept =
      recover_errors-opens c threshold window breaching sig stored.errors stored.alerting opens.1
        h in
    subst (λ n. 1 ≤ n) (sym kept) opens.0
