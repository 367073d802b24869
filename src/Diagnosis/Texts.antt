-- ===== src/Diagnosis/Texts.antt =====
-- host_health/diagnosis.py: how the findings print numbers and names.
use alfaedge_pulse.Common.{ℕ, zero, suc, ◌+◌, ◌*◌, ◌/◌, ◌%◌, String, [], ◌∷◌, ltb, if◌then◌else◌}
use alfaedge_pulse.Common.Numbers.{round_ratio}
use alfaedge_pulse.Common.Text.{decimal, concat}

-- A group of three digits.
pad_three : ℕ → String
pad_three n =
    if ltb n 10
    then concat ("00" ∷ decimal n ∷ [])
    else if ltb n 100
    then concat ("0" ∷ decimal n ∷ [])
    else decimal n

-- `{n:,}`, in at most `fuel` groups of digits.
groups : ℕ → ℕ → String
unfolding pad_three
groups zero n = ""
groups (suc fuel) n =
    let rest = groups fuel (n / 1000) in
    if ltb n 1000 then decimal n else concat (rest ∷ "," ∷ pad_three (n % 1000) ∷ [])

unfoldable pub grouped : ℕ → String
unfolding groups
grouped n = groups (n + 1) n

-- `{value:.1f}` of tenths, and `{value:.2f}` of hundredths.
unfoldable pub one_decimal : ℕ → String
one_decimal n = concat (decimal (n / 10) ∷ "." ∷ decimal (n % 10) ∷ [])

unfoldable pub two_decimals : ℕ → String
two_decimals n = concat (decimal (n / 100) ∷ "." ∷ decimal (n % 100 / 10) ∷ decimal (n % 10) ∷ [])

-- `_mb`, of hundredths of a MB.
unfoldable pub mb_text : ℕ → String
unfolding grouped
mb_text n =
    let tenths = round_ratio (n * 10) 102400 in
    if ltb n 1024000
    then concat (grouped (round_ratio n 100) ∷ " MB" ∷ [])
    else concat (grouped (tenths / 10) ∷ "." ∷ decimal (tenths % 10) ∷ " GB" ∷ [])
