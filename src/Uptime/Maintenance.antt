-- ===== src/Uptime/Maintenance.antt =====
-- uptime_monitor/maintenance.py: scheduled downtime windows and their occurrences.
-- A time is a number of microseconds since 0001-01-01 00:00, a Monday; a time of day is one since
-- midnight. Day 0 has no day before it: `day - 1` stops there, where Python raises.
pub mod Days
pub mod Active
pub mod Ends
use alfaedge_pulse.Common.{
  ℕ, zero, suc, ◌+◌, ◌-◌, ◌*◌, ◌/◌, ◌%◌, max, String, Bool, true, not, ◌&&◌, ◌||◌, Option, none,
  some, List, [], ◌∷◌, ◌++◌, map, str_eq, ltb, leb, ◌==◌, if◌then◌else◌, any, keep,
}
use alfaedge_pulse.Common.Groups.{group_by, group_of}

abbrev pub day_length : ℕ
day_length = 86400000000

abbrev pub second : ℕ
second = 1000000

pub data WindowType : Type 0 where
  daily weekly one_time : WindowType

-- A row of `Uptime Maintenance Window`, with the fields of `WINDOW_FIELDS` but its note.
pub record Window : Type 0 where
  pub name : String
  pub site_name : String
  pub enabled : Bool
  pub window_type : WindowType
  pub all_day : Bool
  pub start_time : Option ℕ
  pub end_time : Option ℕ
  pub start_datetime : Option ℕ
  pub end_datetime : Option ℕ
  pub monday : Bool
  pub tuesday : Bool
  pub wednesday : Bool
  pub thursday : Bool
  pub friday : Bool
  pub saturday : Bool
  pub sunday : Bool

-- maintenance.py: `windows_by_site`, over all the rows of the table.
pub windows_by_site : List Window → List (String × List Window)
windows_by_site rows = group_by str_eq (λ w. w.site_name) (keep (λ w. w.enabled) rows)

-- `i in days`, for `days` the ticked weekdays counted from Monday.
unfoldable pub is_ticked : Window → ℕ → Bool
is_ticked w i =
    i == 0 && w.monday
    || i == 1 && w.tuesday
    || i == 2 && w.wednesday
    || i == 3 && w.thursday
    || i == 4 && w.friday
    || i == 5 && w.saturday
    || i == 6 && w.sunday

pub has_days : Window → Bool
has_days w =
    w.monday || w.tuesday || w.wednesday || w.thursday || w.friday || w.saturday || w.sunday

abbrev pub Span : Type 0
Span = ℕ × ℕ

-- `s < end and e > start`
overlaps : ℕ → ℕ → Span → Bool
overlaps start stop (s, e) = ltb s stop && ltb start e

-- The days on which a repeating window begins.
pub on_day : Window → ℕ → Bool
on_day w day = elim w.window_type [ WindowType.weekly ↦ is_ticked w (day % 7) | _ ↦ true ]

-- The occurrence that begins on a day. An end at or before the start runs past midnight.
pub span_of : ℕ → ℕ → ℕ → Span
span_of t_start t_end day =
    let midnight = day * day_length in
    (
      midnight + t_start,
      (if ltb t_start t_end then midnight + t_end else midnight + day_length + t_end),
    )

-- The `while` loop, over the number of days that are left.
scan : Window → ℕ → ℕ → ℕ → ℕ → ℕ → ℕ → List Span
scan w t_start t_end start stop day zero = []
scan w t_start t_end start stop day (suc n) =
    let rest = scan w t_start t_end start stop (day + 1) n in
    let span = span_of t_start t_end day in
    if on_day w day && overlaps start stop span then span ∷ rest else rest

-- From the day before `start` to the day of `stop`.
pub repeating : Window → ℕ → ℕ → ℕ → ℕ → List Span
repeating w t_start t_end start stop =
    let first = start / day_length - 1 in
    scan w t_start t_end start stop first (stop / day_length + 1 - first)

timed : Window → ℕ → ℕ → Option ℕ → Option ℕ → List Span
timed w start stop (some t_start) (some t_end) = repeating w t_start t_end start stop
timed w start stop none t_end = []
timed w start stop (some t_start) none = []

once : ℕ → ℕ → Option ℕ → Option ℕ → List Span
once start stop (some s) (some e) = if overlaps start stop (s, e) then (s, e) ∷ [] else []
once start stop none e = []
once start stop (some s) none = []

occurrences_of : WindowType → Window → ℕ → ℕ → List Span
occurrences_of WindowType.one_time w start stop = once start stop w.start_datetime w.end_datetime
occurrences_of WindowType.daily w start stop = timed w start stop w.start_time w.end_time
occurrences_of WindowType.weekly w start stop =
    if not (has_days w)
    then []
    else if w.all_day
    then repeating w 0 0 start stop
    else timed w start stop w.start_time w.end_time

-- maintenance.py: `occurrences`
unfoldable pub occurrences : Window → ℕ → ℕ → List Span
unfolding occurrences_of has_days timed once repeating scan overlaps on_day span_of is_ticked
occurrences w start stop = occurrences_of w.window_type w start stop

-- `s <= at < e`
abbrev pub covers : ℕ → Span → Bool
covers at (s, e) = leb s at && ltb at e

-- maintenance.py: `active_window`
unfoldable pub active_window : List Window → ℕ → Option Window
active_window [] at = none
active_window (w ∷ ws) at =
    let rest = active_window ws at in
    if any (covers at) (occurrences w at (at + second)) then some w else rest

pub all_occurrences : List Window → ℕ → ℕ → List Span
all_occurrences [] start stop = []
all_occurrences (w ∷ ws) start stop = occurrences w start stop ++ all_occurrences ws start stop

-- `max(ends) if ends else None`
latest : List ℕ → Option ℕ
latest [] = none
latest (e ∷ es) = elim (latest es) [ none ↦ some e | some m ↦ some (max e m) ]

abbrev pub search_days : ℕ
search_days = 8

-- maintenance.py: `last_window_end`
unfoldable pub last_window_end : List Window → ℕ → Option ℕ
unfolding latest all_occurrences
last_window_end windows at = latest (
    map (λ span. span.1)
      (keep (λ span. leb span.1 at) (all_occurrences windows (at - search_days * day_length) at)))

-- The order of pairs, by which `min` and `sorted` compare occurrences.
unfoldable pub span_leb : Span → Span → Bool
span_leb (s, e) (s', e') = ltb s s' || s == s' && leb e e'

-- `min(upcoming) if upcoming else None`
pub earliest : List Span → Option Span
earliest [] = none
earliest (p ∷ ps) = elim (earliest ps) [
  | none ↦ some p
  | some q ↦ some (if span_leb p q then p else q)
]

horizon_of : WindowType → Option ℕ → ℕ → ℕ
horizon_of WindowType.one_time (some start) at =
    max (at + search_days * day_length) (start + second)
horizon_of WindowType.one_time none at = at + search_days * day_length
horizon_of _ start at = at + search_days * day_length

pub upcoming : List Window → ℕ → List Span
upcoming [] at = []
upcoming (w ∷ ws) at =
    keep (λ span. ltb at span.0) (occurrences w at (horizon_of w.window_type w.start_datetime at))
    ++ upcoming ws at

-- maintenance.py: `next_window`
unfoldable pub next_window : List Window → ℕ → Option Span
unfolding earliest upcoming horizon_of span_leb
next_window windows at = earliest (upcoming windows at)

insert_span : Span → List Span → List Span
insert_span p [] = p ∷ []
insert_span p (q ∷ qs) = if span_leb p q then p ∷ q ∷ qs else q ∷ insert_span p qs

sort_spans : List Span → List Span
sort_spans [] = []
sort_spans (p ∷ ps) = insert_span p (sort_spans ps)

-- maintenance.py: `intervals`
pub intervals : List Window → ℕ → ℕ → List Span
unfolding sort_spans insert_span span_leb all_occurrences
intervals windows start stop = sort_spans (all_occurrences windows start stop)
