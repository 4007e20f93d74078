-- ===== src/Campaigns/Counting.antt =====
-- communications/campaigns.py: the segments of a text message, by its encoding.
use event_management.Base.{
  ℕ, ◌+◌, ◌*◌, ◌≤◌, ◌<◌, ◌≡◌, refl, ap, Bool, true, ◌||◌, ◌&&◌, [], ◌∷◌, ◌⊎◌, inl, inr, Bool-cases,
  leb, if◌then◌else◌, Text, arith, subst,
}
use event_management.Campaigns.Segments.{
  gsm_basic, gsm_extended, contains, ucs2_length, segments_for, count_gsm, sms_segment_count,
}

-- Every character is one of the two GSM sets.
unfoldable pub is_gsm : Text → Bool
is_gsm [] = true
is_gsm (c ∷ s) = (contains gsm_basic c || contains gsm_extended c) && is_gsm s

-- The units of a text in the GSM encoding, where an extended character takes two.
unfoldable pub gsm_units : Text → ℕ
gsm_units [] = 0
gsm_units (c ∷ s) = (if contains gsm_basic c then 1 else 2) + gsm_units s

count_gsm-eq :
    (body s : Text) (n : ℕ)
    → count_gsm body n s ≡ (
        if is_gsm s
        then segments_for 160 153 (n + gsm_units s)
        else segments_for 70 67 (ucs2_length body))
unfolding count_gsm is_gsm gsm_units
count_gsm-eq body [] n = let same : n ≡ n + 0 = omega arith in ap (segments_for 160 153) same
count_gsm-eq body (c ∷ s) n = elim (Bool-cases (contains gsm_basic c)) [
  | inl b ↦
      let same : n + 1 + gsm_units s ≡ n + (1 + gsm_units s) = omega arith in
      rw b (
        subst
          (λ k.
            count_gsm body (n + 1) s
            ≡ (if is_gsm s then segments_for 160 153 k else segments_for 70 67 (ucs2_length body)))
          same (count_gsm-eq body s (n + 1)))
  | inr b ↦ elim (Bool-cases (contains gsm_extended c)) [
    | inl e ↦
        let same : n + 2 + gsm_units s ≡ n + (2 + gsm_units s) = omega arith in
        rw (b, e)
          (subst
            (λ k. count_gsm body (n + 2) s ≡ (
              if is_gsm s then segments_for 160 153 k else segments_for 70 67 (ucs2_length body)))
            same (count_gsm-eq body s (n + 2)))
    | inr e ↦ rw (b, e) refl
  ]
]

-- A text of `units` units takes `n` segments: one if it fits into a single message, else the least
-- number of parts that holds it.
abbrev pub Fits : ℕ → ℕ → ℕ → ℕ → Type 0
Fits single part units n =
    ((units ≤ single) × (n ≡ 1))
    ⊎ ((single < units) × (units ≤ n * part) × (n * part < units + part))

gsm-Fits : (u : ℕ) → Fits 160 153 u (segments_for 160 153 u)
unfolding segments_for
gsm-Fits u = elim (Bool-cases (leb u 160)) [
  | inl t ↦ rw t (inl (ground arith, refl))
  | inr t ↦ rw t (inr (ground arith, omega arith, omega arith))
]

ucs2-Fits : (u : ℕ) → Fits 70 67 u (segments_for 70 67 u)
unfolding segments_for
ucs2-Fits u = elim (Bool-cases (leb u 70)) [
  | inl t ↦ rw t (inl (ground arith, refl))
  | inr t ↦ rw t (inr (ground arith, omega arith, omega arith))
]

zero_plus : (n : ℕ) → 0 + n ≡ n
zero_plus n = omega arith

-- The segments of a text message: if every character is a GSM one, those of its GSM units, of which
-- 160 fit into a single message and 153 into a part; else those of its UCS-2 units, of which 70 and
-- 67 do. The loop, which stops at the first other character, agrees with this.
pub sms_segment_count-Fits :
    (body : Text)
    → if is_gsm body
      then Fits 160 153 (gsm_units body) (sms_segment_count body)
      else Fits 70 67 (ucs2_length body) (sms_segment_count body)
unfolding sms_segment_count
sms_segment_count-Fits body = elim (Bool-cases (is_gsm body)) [
  | inl t ↦
      rw (t, count_gsm-eq body body 0, t, zero_plus (gsm_units body)) (gsm-Fits (gsm_units body))
  | inr t ↦ rw (t, count_gsm-eq body body 0, t) (ucs2-Fits (ucs2_length body))
]
