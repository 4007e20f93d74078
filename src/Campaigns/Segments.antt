-- ===== src/Campaigns/Segments.antt =====
-- communications/campaigns.py: `sms_segment_count`.
use event_management.Base.{
  ℕ, ◌+◌, ◌-◌, ◌/◌, Bool, List, [], ◌∷◌, ◌==◌, leb, ltb, if◌then◌else◌, any, Text,
}

-- `GSM_BASIC`, by code points
unfoldable pub gsm_basic : List ℕ
gsm_basic =
    64 ∷ 163 ∷ 36 ∷ 165 ∷ 232 ∷ 233 ∷ 249 ∷ 236 ∷ 242 ∷ 199 ∷ 10 ∷ 216 ∷ 248 ∷ 13 ∷ 197 ∷ 229 ∷ 916
    ∷ 95 ∷ 934 ∷ 915 ∷ 923 ∷ 937 ∷ 928 ∷ 936 ∷ 931 ∷ 920 ∷ 926 ∷ 27 ∷ 198 ∷ 230 ∷ 223 ∷ 201 ∷ 32
    ∷ 33 ∷ 34 ∷ 35 ∷ 164 ∷ 37 ∷ 38 ∷ 39 ∷ 40 ∷ 41 ∷ 42 ∷ 43 ∷ 44 ∷ 45 ∷ 46 ∷ 47 ∷ 48 ∷ 49 ∷ 50 ∷ 51
    ∷ 52 ∷ 53 ∷ 54 ∷ 55 ∷ 56 ∷ 57 ∷ 58 ∷ 59 ∷ 60 ∷ 61 ∷ 62 ∷ 63 ∷ 161 ∷ 65 ∷ 66 ∷ 67 ∷ 68 ∷ 69 ∷ 70
    ∷ 71 ∷ 72 ∷ 73 ∷ 74 ∷ 75 ∷ 76 ∷ 77 ∷ 78 ∷ 79 ∷ 80 ∷ 81 ∷ 82 ∷ 83 ∷ 84 ∷ 85 ∷ 86 ∷ 87 ∷ 88 ∷ 89
    ∷ 90 ∷ 196 ∷ 214 ∷ 209 ∷ 220 ∷ 167 ∷ 191 ∷ 97 ∷ 98 ∷ 99 ∷ 100 ∷ 101 ∷ 102 ∷ 103 ∷ 104 ∷ 105
    ∷ 106 ∷ 107 ∷ 108 ∷ 109 ∷ 110 ∷ 111 ∷ 112 ∷ 113 ∷ 114 ∷ 115 ∷ 116 ∷ 117 ∷ 118 ∷ 119 ∷ 120 ∷ 121
    ∷ 122 ∷ 228 ∷ 246 ∷ 241 ∷ 252 ∷ 224 ∷ []

-- `GSM_EXTENDED`
unfoldable pub gsm_extended : List ℕ
gsm_extended = 94 ∷ 123 ∷ 125 ∷ 92 ∷ 91 ∷ 126 ∷ 93 ∷ 124 ∷ 8364 ∷ 12 ∷ []

-- `character in …`
abbrev pub contains : List ℕ → ℕ → Bool
contains set c = any (λ x. x == c) set

-- `_ucs2_length`: a character past the 65536th takes a surrogate pair.
unfoldable pub ucs2_length : Text → ℕ
ucs2_length [] = 0
ucs2_length (c ∷ s) = (if ltb 65535 c then 2 else 1) + ucs2_length s

-- `1 if n <= single else math.ceil(n / part)`
unfoldable pub segments_for : ℕ → ℕ → ℕ → ℕ
segments_for single part n = if leb n single then 1 else (n + part - 1) / part

-- The loop at the rest of the body, with the units so far.
unfoldable pub count_gsm : Text → ℕ → Text → ℕ
unfolding gsm_basic gsm_extended ucs2_length segments_for
count_gsm body gsm_units [] = segments_for 160 153 gsm_units
count_gsm body gsm_units (c ∷ s) =
    let after_basic = count_gsm body (gsm_units + 1) s in
    let after_extended = count_gsm body (gsm_units + 2) s in
    if contains gsm_basic c
    then after_basic
    else if contains gsm_extended c
    then after_extended
    else segments_for 70 67 (ucs2_length body)

unfoldable pub sms_segment_count : Text → ℕ
unfolding count_gsm
sms_segment_count body = count_gsm body 0 body
