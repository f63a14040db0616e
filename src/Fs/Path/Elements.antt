-- ===== src/Fs/Path/Elements.antt =====
-- What skipelem finds when it is called until the path is used up.
use os_lab2_team.Prelude.{
  ℕ, zero, suc, ◌+◌, ◌<◌, ◌≡◌, refl, sym, ap, ◌∙◌, ◌≢◌, inl, inr, false, Option, none, some, List,
  [], ◌∷◌, ◌++◌, map, arith, ◌==◌, if◌then◌else◌, Bool-cases, get_or, replicate, length,
}
use os_lab2_team.Fs.Path.{skip_slashes, element, dirsiz, fill_name, first_element, skipelem}

-- The string in a buffer of r bytes from place i on.
abbrev string_at : ℕ → ℕ → (ℕ → ℕ) → List ℕ
string_at zero i name = []
string_at (suc r) i name =
    let rest = string_at r (i + 1) name in if name i == 0 then [] else name i ∷ rest

-- The element that a call has found, and those that `rest` finds.
abbrev pub found : (List ℕ → (ℕ → ℕ) → List (List ℕ)) → Option (List ℕ × (ℕ → ℕ)) → List (List ℕ)
found rest none = []
found rest (some r) = string_at dirsiz 0 r.1 ∷ rest r.0 r.1

-- The elements of a path, as namex gets them from skipelem in at most `fuel` calls.
unfoldable pub walk : ℕ → List ℕ → (ℕ → ℕ) → List (List ℕ)
walk zero path name = []
walk (suc fuel) path name = found (walk fuel) (skipelem path name)

-- No NUL and no slash.
abbrev Clean : List ℕ → Type 0
Clean [] = Unit {0}
Clean (c ∷ l) = (c ≢ 0) × (c ≢ 47) × Clean l

-- An element with the number of the slashes before it, less one, by its first byte and the others.
abbrev pub Elem : Type 0
Elem = ℕ × ℕ × List ℕ

abbrev pub AllClean : List Elem → Type 0
AllClean [] = Unit {0}
AllClean ((k, c, l) ∷ es) = Clean (c ∷ l) × AllClean es

-- The elements, each behind its slashes, then t slashes.
abbrev pub path_of : List Elem → ℕ → List ℕ
path_of [] t = replicate t 47
path_of ((k, c, l) ∷ es) t = replicate (suc k) 47 ++ ((c ∷ l) ++ path_of es t)

abbrev pub cut : ℕ → List ℕ → List ℕ
cut zero l = []
cut (suc n) [] = []
cut (suc n) (x ∷ l) = x ∷ cut n l

abbrev pub cut_elem : Elem → List ℕ
cut_elem e = cut dirsiz (e.1 ∷ e.2)

Stops : List ℕ → Type 0
Stops [] = Unit {0}
Stops (c ∷ l) = c ≡ 47

path_of-Stops : (es : List Elem) (t : ℕ) → Stops (path_of es t)
unfolding Stops
path_of-Stops [] zero = tt
path_of-Stops [] (suc t) = refl
path_of-Stops (e ∷ es) t = refl

skip_slashes-replicate : (k : ℕ) (q : List ℕ) → skip_slashes (replicate k 47 ++ q) ≡ skip_slashes q
unfolding skip_slashes
skip_slashes-replicate zero q = refl
skip_slashes-replicate (suc k) q = skip_slashes-replicate k q

skip_slashes_only : (t : ℕ) → skip_slashes (replicate t 47) ≡ []
unfolding skip_slashes
skip_slashes_only zero = refl
skip_slashes_only (suc t) = skip_slashes_only t

not_slash : (c : ℕ) → c ≢ 47 → (c == 47) ≡ false
not_slash c ne = ground arith

skip_slashes_twice : (p : List ℕ) → skip_slashes (skip_slashes p) ≡ skip_slashes p
unfolding skip_slashes
skip_slashes_twice [] = refl
skip_slashes_twice (c ∷ p) = elim (Bool-cases (c == 47)) [
  | inl e ↦ rw e (skip_slashes_twice p)
  | inr e ↦ rw e (rw e refl)
]

element-append : (l q : List ℕ) → Clean l → Stops q → element (l ++ q) ≡ (l, q)
unfolding element Stops
element-append [] [] h s = refl
element-append [] (c ∷ q) h s = rw s refl
element-append (c ∷ l) q h s = rw (not_slash c h.1, element-append l q h.2 s) refl

starts_clean : (c : ℕ) (l : List ℕ) → c ≢ 47 → skip_slashes (c ∷ l) ≡ c ∷ l
unfolding skip_slashes
starts_clean c l ne = rw (not_slash c ne) refl

first_element-Clean :
    (c : ℕ) (l q : List ℕ) (name : ℕ → ℕ)
    → Clean (c ∷ l)
    → Stops q
    → first_element (c ∷ (l ++ q)) name ≡ some (skip_slashes q, fill_name (c ∷ l) name)
unfolding first_element
first_element-Clean c l q name h s = rw (element-append (c ∷ l) q h s) refl

-- One call.
skipelem_lem :
    (k c : ℕ) (l q : List ℕ) (name : ℕ → ℕ)
    → Clean (c ∷ l)
    → Stops q
    → skipelem (replicate k 47 ++ ((c ∷ l) ++ q)) name
      ≡ some (skip_slashes q, fill_name (c ∷ l) name)
unfolding skipelem
skipelem_lem k c l q name h s =
    rw (skip_slashes-replicate k (c ∷ (l ++ q)), starts_clean c (l ++ q) h.1)
      (first_element-Clean c l q name h s)

skipelem_end : (t : ℕ) (name : ℕ → ℕ) → skipelem (replicate t 47) name ≡ none
unfolding skipelem first_element
skipelem_end t name = rw (skip_slashes_only t) refl

skipelem-skip_slashes :
    (p : List ℕ) (name : ℕ → ℕ) → skipelem (skip_slashes p) name ≡ skipelem p name
unfolding skipelem
skipelem-skip_slashes p name = rw (skip_slashes_twice p) refl

walk-skip_slashes :
    (fuel : ℕ) (p : List ℕ) (name : ℕ → ℕ) → walk fuel (skip_slashes p) name ≡ walk fuel p name
unfolding walk
walk-skip_slashes zero p name = refl
walk-skip_slashes (suc fuel) p name = rw (skipelem-skip_slashes p name) refl

string_at_lem :
    (r i : ℕ) (name : ℕ → ℕ) (s : List ℕ)
    → Clean s
    → ((j : ℕ) → j < length s → j < r → name (i + j) ≡ get_or s j 0)
    → (length s < r → name (i + length s) ≡ 0)
    → string_at r i name ≡ cut r s
string_at_lem zero i name s h same ends = refl
string_at_lem (suc r) i name [] h same ends =
    let e : i + 0 ≡ i = omega arith in rw (← e, ends (omega arith)) refl
string_at_lem (suc r) i name (c ∷ s) h same ends =
    let e : i + 0 ≡ i = omega arith in
    let head : name i ≡ c = sym (ap name e) ∙ same 0 (omega arith) (omega arith) in
    let rest =
      string_at_lem r (i + 1) name s h.2
        (λ j lt lr. ap name (omega arith) ∙ same (suc j) (omega arith) (omega arith))
        (λ lt. ap name (omega arith) ∙ ends (omega arith)) in
    rw (head, nonzero c h.0, rest) refl
  where
    nonzero : (c : ℕ) → c ≢ 0 → (c == 0) ≡ false
    nonzero c ne = ground arith

string_at-fill_name :
    (s : List ℕ) (name : ℕ → ℕ) → Clean s → string_at dirsiz 0 (fill_name s name) ≡ cut dirsiz s
string_at-fill_name s name h =
    string_at_lem 14 0 (fill_name s name) s h (λ j lt lr. inner j (0 + j) (omega arith) lt lr)
      (λ lt. last (0 + length s) (omega arith) lt)
  where
    inner : (j i : ℕ) → i ≡ j → j < length s → j < 14 → fill_name s name i ≡ get_or s j 0
    inner j i e lt lr = rw e (ground arith)

    last : (i : ℕ) → i ≡ length s → length s < 14 → fill_name s name i ≡ 0
    last i e lt = ground arith

walk_call :
    (fuel k c : ℕ) (l q : List ℕ) (name : ℕ → ℕ)
    → Clean (c ∷ l)
    → Stops q
    → walk (suc fuel) (replicate k 47 ++ ((c ∷ l) ++ q)) name
      ≡ cut dirsiz (c ∷ l) ∷ walk fuel q (fill_name (c ∷ l) name)
unfolding walk
walk_call fuel k c l q name h s =
    ap (found (walk fuel)) (skipelem_lem k c l q name h s)
    ∙ ap (◌∷ walk fuel (skip_slashes q) (fill_name (c ∷ l) name))
        (string_at-fill_name (c ∷ l) name h)
    ∙ ap (cut dirsiz (c ∷ l) ∷◌) (walk-skip_slashes fuel q (fill_name (c ∷ l) name))

walk_absolute :
    (fuel : ℕ) (es : List Elem) (t : ℕ) (name : ℕ → ℕ)
    → AllClean es
    → length es < fuel
    → walk fuel (path_of es t) name ≡ map cut_elem es
unfolding walk
walk_absolute zero es t name h enough = absurd (omega arith)
walk_absolute (suc fuel) [] t name h enough = ap (found (walk fuel)) (skipelem_end t name)
walk_absolute (suc fuel) ((k, c, l) ∷ es) t name h enough =
    walk_call fuel (suc k) c l (path_of es t) name h.0 (path_of-Stops es t)
    ∙ ap (cut dirsiz (c ∷ l) ∷◌)
        (walk_absolute fuel es t (fill_name (c ∷ l) name) h.1 (omega arith))

-- From a path made of its elements, with any number of slashes between them and at the end, skipelem
-- gives these elements in order, each cut to 14 bytes, and then says that there are no more; the path
-- may start with an element or with slashes, and the elements have no slash and no NUL and are not empty.
pub walk-path_of :
    (fuel k c : ℕ) (l : List ℕ) (es : List Elem) (t : ℕ) (name : ℕ → ℕ)
    → AllClean ((k, c, l) ∷ es)
    → length es + 1 < fuel
    → (walk fuel (path_of ((k, c, l) ∷ es) t) name ≡ map cut_elem ((k, c, l) ∷ es))
      × (walk fuel ((c ∷ l) ++ path_of es t) name ≡ map cut_elem ((k, c, l) ∷ es))
walk-path_of zero k c l es t name h enough = absurd (omega arith)
walk-path_of (suc fuel) k c l es t name h enough = (
  walk_absolute (suc fuel) ((k, c, l) ∷ es) t name h (omega arith),
  walk_call fuel 0 c l (path_of es t) name h.0 (path_of-Stops es t)
      ∙ ap (cut dirsiz (c ∷ l) ∷◌)
          (walk_absolute fuel es t (fill_name (c ∷ l) name) h.1 (omega arith)),
)
