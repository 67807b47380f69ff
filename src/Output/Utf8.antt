-- ===== src/Output/Utf8.antt =====
-- runtime/output.py: texts and their UTF-8 encoding.
use pyscripts.Base.{
  ℕ, zero, suc, ◌+◌, ◌-◌, ◌≤◌, ◌<◌, ◌≡◌, refl, Bool, true, false, Option, none, some, List, [], ◌∷◌,
  ◌++◌, ltb, leb, length, arith, inl, inr, Bool-cases, Option-cases, append-nil, ◌==◌,
  if◌then◌else◌,
}

abbrev pub Text : Type 0
Text = List ℕ

-- bytes of a code point
abbrev pub width : ℕ → ℕ
width c = if ltb c 128 then 1 else if ltb c 2048 then 2 else if ltb c 65536 then 3 else 4

-- len(t.encode("utf-8"))
abbrev pub utf8_length : Text → ℕ
utf8_length [] = 0
utf8_length (c ∷ t) = width c + utf8_length t

-- t.encode("utf-8")[:n].decode("utf-8", errors="ignore"): a character that is cut is left out
unfoldable pub take_utf8 : ℕ → Text → Text
take_utf8 n [] = []
take_utf8 n (c ∷ t) =
    let rest = take_utf8 (n - width c) t in if leb (width c) n then c ∷ rest else []

-- t[n:]
unfoldable pub drop : ℕ → Text → Text
drop zero t = t
drop (suc n) [] = []
drop (suc n) (c ∷ t) = drop n t

abbrev pub is_empty : Text → Bool
is_empty [] = true
is_empty (c ∷ t) = false

-- the line with its newline and the remainder of `t.split("\n", 1)`, if there is a newline
abbrev pub in_front : ℕ → Option (Text × Text) → Option (Text × Text)
in_front c none = none
in_front c (some (line, rest)) = some (c ∷ line, rest)

unfoldable pub split_line : Text → Option (Text × Text)
split_line [] = none
split_line (c ∷ t) =
    let later = split_line t in if c == 10 then some (c ∷ [], t) else in_front c later

-- `_split_utf8` where the text is longer than the limit, by the part that fits
split_part : Text → Text → Text × Text
unfolding drop
split_part [] [] = ([], [])
split_part [] (c ∷ t) = (c ∷ [], t)
split_part (p ∷ ps) value = (p ∷ ps, drop (length (p ∷ ps)) value)

unfoldable pub split_utf8 : Text → ℕ → Text × Text
unfolding split_part take_utf8
split_utf8 value max_bytes =
    if max_bytes == 0
    then ([], value)
    else if leb (utf8_length value) max_bytes
    then (value, [])
    else split_part (take_utf8 max_bytes value) value

pub utf8_length-append : (t u : Text) → utf8_length (t ++ u) ≡ utf8_length t + utf8_length u
utf8_length-append [] u = omega arith
utf8_length-append (c ∷ t) u = ground (arith, utf8_length-append t u)

pub take_utf8-le : (n : ℕ) (t : Text) → utf8_length (take_utf8 n t) ≤ n
unfolding take_utf8
take_utf8-le n [] = omega arith
take_utf8-le n (c ∷ t) = ground (arith, take_utf8-le (n - width c) t)

pub take_utf8_all : (n : ℕ) (t : Text) → utf8_length t ≤ n → take_utf8 n t ≡ t
unfolding take_utf8
take_utf8_all n [] h = refl
take_utf8_all n (c ∷ t) h = ground (arith, take_utf8_all (n - width c) t)

-- A line and the remainder make up the text, and the remainder is shorter.
pub split_line-append :
    (t line rest : Text)
    → split_line t ≡ some (line, rest)
    → (line ++ rest ≡ t) × (length rest < length t) × (is_empty line ≡ false)
unfolding split_line
split_line-append [] line rest h = cc
split_line-append (c ∷ t) line rest h = elim (Bool-cases (c == 10)) [
  | inl e ↦ ground arith
  | inr e ↦ elim (Option-cases (split_line t)) [
    | inl n ↦ ground arith
    | inr ((l, r), s) ↦ ground (arith, split_line-append t l r s)
  ]
]

take_utf8_prefix : (n : ℕ) (t : Text) → take_utf8 n t ++ drop (length (take_utf8 n t)) t ≡ t
unfolding take_utf8 drop
take_utf8_prefix n [] = refl
take_utf8_prefix n (c ∷ t) = ground (arith, take_utf8_prefix (n - width c) t)

drop-le : (n : ℕ) (t : Text) → length (drop n t) ≤ length t
unfolding drop
drop-le zero t = omega arith
drop-le (suc n) [] = omega arith
drop-le (suc n) (c ∷ t) = ground (arith, drop-le n t)

split_part-append :
    (p value : Text)
    → p ++ drop (length p) value ≡ value
    → (split_part p value).0 ++ (split_part p value).1 ≡ value
unfolding split_part drop
split_part-append [] [] h = refl
split_part-append [] (c ∷ t) h = refl
split_part-append (p ∷ ps) value h = h

-- The two parts make up the text.
pub split_utf8-append :
    (value : Text) (n : ℕ) → (split_utf8 value n).0 ++ (split_utf8 value n).1 ≡ value
unfolding split_utf8
split_utf8-append value n = ground (
  arith,
  append-nil value,
  split_part-append (take_utf8 n value) value (take_utf8_prefix n value),
)

drop-suc-lt : (n : ℕ) (t : Text) → is_empty t ≡ false → length (drop (suc n) t) < length t
unfolding drop
drop-suc-lt n [] h = cc
drop-suc-lt n (c ∷ t) h = ground (arith, drop-le n t)

split_part-lt :
    (p value : Text) → is_empty value ≡ false → length (split_part p value).1 < length value
unfolding split_part drop
split_part-lt [] [] h = cc
split_part-lt [] (c ∷ t) h = omega arith
split_part-lt (p ∷ ps) value h = drop-suc-lt (length ps) value h

not_empty : (t : Text) → 1 ≤ utf8_length t → is_empty t ≡ false
not_empty [] h = absurd (omega arith)
not_empty (c ∷ t) h = refl

not_empty_length : (t : Text) → is_empty t ≡ false → 1 ≤ length t
not_empty_length [] h = cc
not_empty_length (c ∷ t) h = omega arith

-- With a positive limit that the text reaches, the second part is shorter than the text.
pub split_utf8-lt :
    (value : Text) (n : ℕ)
    → 1 ≤ n
    → n ≤ utf8_length value
    → length (split_utf8 value n).1 < length value
unfolding split_utf8
split_utf8-lt value n pos h =
    let e = not_empty value (omega arith) in
    ground (arith, not_empty_length value e, split_part-lt (take_utf8 n value) value e)
