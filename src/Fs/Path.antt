-- ===== src/Fs/Path.antt =====
-- skipelem of fs.c: the elements of a path name. A string is the list of its bytes before the NUL.
pub mod Elements
mod Examples
use os_lab2_team.Prelude.{
  ℕ, zero, suc, ◌+◌, ◌-◌, ◌*◌, ◌/◌, ◌%◌, ◌^◌, ◌≤◌, ◌<◌, ◌≡◌, refl, sym, ap, ◌∙◌, ◌≢◌, ◌↔◌, ◌⊎◌, inl,
  inr, ℤ, pos, negsuc, sub_ℕ, Bool, true, false, not, ◌&&◌, ◌||◌, Option, none, some, List, [], ◌∷◌,
  ◌++◌, map, arith, dec_lt, ℕ_discrete, leb, ltb, lt→ltb, ◌==◌, if◌then◌else◌, ==_iff, Bool-cases,
  Option-cases, get_or, replicate, length, length-append, get_or-append_last, get_or-append,
  append_nil, append_assoc, set, times, without, times-without,
}

unfoldable pub skip_slashes : List ℕ → List ℕ
skip_slashes [] = []
skip_slashes (c ∷ path) = if c == 47 then skip_slashes path else c ∷ path

-- The bytes up to the next slash, and what follows.
unfoldable pub element : List ℕ → List ℕ × List ℕ
element [] = ([], [])
element (c ∷ path) =
    let rest = element path in if c == 47 then ([], c ∷ path) else (c ∷ rest.0, rest.1)

abbrev pub dirsiz : ℕ
dirsiz = 14

-- `name` with the element s copied into it: a long element is cut and gets no NUL.
abbrev pub fill_name : List ℕ → (ℕ → ℕ) → ℕ → ℕ
fill_name s name i =
    if leb dirsiz (length s)
    then (if ltb i dirsiz then get_or s i 0 else name i)
    else if ltb i (length s)
    then get_or s i 0
    else if i == length s
    then 0
    else name i

unfoldable pub first_element : List ℕ → (ℕ → ℕ) → Option (List ℕ × (ℕ → ℕ))
first_element [] name = none
first_element (c ∷ path) name =
    let e = element (c ∷ path) in some (skip_slashes e.1, fill_name e.0 name)

-- The rest of the path with the slashes before it removed, and the new contents of `name`.
unfoldable pub skipelem : List ℕ → (ℕ → ℕ) → Option (List ℕ × (ℕ → ℕ))
skipelem path name = first_element (skip_slashes path) name
