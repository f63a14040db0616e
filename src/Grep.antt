-- ===== src/Grep.antt =====
-- grep.c: the matcher of regular expressions, on strings as lists of their bytes before the NUL, and the
-- loop over the lines of a file.
pub mod Matcher
pub mod Text
pub mod Lines
mod Tests
use os_lab2_team.Prelude.{
  ℕ, zero, suc, ◌+◌, ◌-◌, ◌*◌, ◌/◌, ◌%◌, ◌^◌, ◌≤◌, ◌<◌, ◌≡◌, refl, sym, ap, ◌∙◌, ◌≢◌, ◌↔◌, ◌⊎◌, inl,
  inr, ℤ, pos, negsuc, sub_ℕ, Bool, true, false, not, ◌&&◌, ◌||◌, Option, none, some, List, [], ◌∷◌,
  ◌++◌, map, arith, dec_lt, ℕ_discrete, leb, ltb, lt→ltb, ◌==◌, if◌then◌else◌, ==_iff, Bool-cases,
  Option-cases, get_or, replicate, length, length-append, get_or-append_last, get_or-append,
  append_nil, append_assoc, set, times, without, times-without,
}

-- The last test of matchhere: a character, and then what `rest` says.
unfoldable pub match_one : ℕ → (List ℕ → Bool) → List ℕ → Bool
match_one c rest [] = false
match_one c rest (t ∷ text) = if (c == b'.') || (c == t) then rest text else false

-- `rest` is matchhere of the expression behind the star.
unfoldable pub matchstar : (List ℕ → Bool) → ℕ → List ℕ → Bool
matchstar rest c [] = rest []
matchstar rest c (t ∷ text) =
    let later = matchstar rest c text in
    if rest (t ∷ text) then true else if (t == c) || (c == b'.') then later else false

abbrev pub is_end : List ℕ → Bool
is_end [] = true
is_end (t ∷ text) = false

unfoldable pub matchhere : List ℕ → List ℕ → Bool
matchhere [] text = true
matchhere (c ∷ []) text = if c == b'$' then is_end text else match_one c (matchhere []) text
matchhere (c ∷ d ∷ re) text =
    if d == b'*' then matchstar (matchhere re) c text else match_one c (matchhere (d ∷ re)) text

-- The loop of match.
unfoldable pub match_from : List ℕ → List ℕ → Bool
match_from re [] = matchhere re []
match_from re (t ∷ text) =
    let later = match_from re text in if matchhere re (t ∷ text) then true else later

unfoldable pub grep_match : List ℕ → List ℕ → Bool
grep_match [] text = match_from [] text
grep_match (c ∷ re) text = if c == b'^' then matchhere re text else match_from (c ∷ re) text

abbrev pub longer : ℕ → Option (List ℕ × List ℕ) → Option (List ℕ × List ℕ)
longer c none = none
longer c (some r) = some (c ∷ r.0, r.1)

-- What strchr(p, '\n') finds before a NUL: the line before it, and the text behind.
unfoldable pub split_line : List ℕ → Option (List ℕ × List ℕ)
split_line [] = none
split_line (c ∷ text) =
    let rest = longer c (split_line text) in
    if c == 0 then none else if c == 10 then some ([], text) else rest

abbrev pub printed : List ℕ → List ℕ → List ℕ
printed re l = if grep_match re l then l ++ (10 ∷ []) else []

-- The inner loop of grep: what it writes, and what is left from `p` on. It has fewer rounds than `buf` has
-- bytes.
unfoldable pub print_lines : ℕ → List ℕ → List ℕ → List ℕ × List ℕ
print_lines zero re buf = ([], buf)
print_lines (suc fuel) re buf = elim (split_line buf) [
  | none ↦ ([], buf)
  | some l ↦ let r = print_lines fuel re l.1 in (printed re l.0 ++ r.0, r.1)
]

abbrev pub kept : Option (List ℕ × List ℕ) → List ℕ → List ℕ
kept none rest = []
kept (some l) rest = rest

-- The loop of grep over what the calls of read return, an empty one at the end of the file; the first m
-- bytes of the buffer are `old`. A read never brings more than the buffer has room for.
unfoldable pub grep : List ℕ → List ℕ → List (List ℕ) → List ℕ
grep re old [] = []
grep re old ([] ∷ chunks) = []
grep re old ((c ∷ chunk) ∷ chunks) =
    let buf = old ++ (c ∷ chunk) in
    let r = print_lines (length buf) re buf in r.0 ++ grep re (kept (split_line buf) r.1) chunks
