-- ===== src/Fs/Path/Examples.antt =====
-- The examples that the comment before skipelem gives, and a path with long elements.
use os_lab2_team.Prelude.{ℕ, ◌≡◌, refl, Option, none, some, List, [], ◌∷◌, map, arith}
use os_lab2_team.Fs.Path.{skip_slashes, element, first_element, skipelem}
use os_lab2_team.Fs.Path.Elements.{Elem, AllClean, path_of, cut_elem, walk, walk-path_of}

-- What skipelem leaves of the path, and the first bytes of the element with its NUL.
abbrev left : Option (List ℕ × (ℕ → ℕ)) → List ℕ × List ℕ
left none = ([], [])
left (some r) = (r.0, r.1 0 ∷ r.1 1 ∷ r.1 2 ∷ [])

nines : ℕ → ℕ
nines i = 9

-- skipelem("a/bb/c", name) = "bb/c", setting name = "a"
skip_a :
    left (skipelem (97 ∷ 47 ∷ 98 ∷ 98 ∷ 47 ∷ 99 ∷ []) nines)
    ≡ (98 ∷ 98 ∷ 47 ∷ 99 ∷ [], 97 ∷ 0 ∷ 9 ∷ [])
unfolding skipelem skip_slashes first_element element nines
skip_a = refl

-- skipelem("///a//bb", name) = "bb", setting name = "a"
skip_slashes_a :
    left (skipelem (47 ∷ 47 ∷ 47 ∷ 97 ∷ 47 ∷ 47 ∷ 98 ∷ 98 ∷ []) nines)
    ≡ (98 ∷ 98 ∷ [], 97 ∷ 0 ∷ 9 ∷ [])
unfolding skipelem skip_slashes first_element element nines
skip_slashes_a = refl

-- skipelem("////", name) = 0
skip_all : skipelem (47 ∷ 47 ∷ 47 ∷ 47 ∷ []) nines ≡ none
unfolding skipelem skip_slashes first_element
skip_all = refl

-- //usr/abcdefghijklmnop/
abbrev elems : List Elem
elems =
    (1, 117, 115 ∷ 114 ∷ [])
    ∷ (
      0,
      97,
      98 ∷ 99 ∷ 100 ∷ 101 ∷ 102 ∷ 103 ∷ 104 ∷ 105 ∷ 106 ∷ 107 ∷ 108 ∷ 109 ∷ 110 ∷ 111 ∷ 112 ∷ [],
    )
    ∷ []

elems-AllClean : AllClean elems
elems-AllClean = ground arith

walk-path_of_example :
    (walk 4 (path_of elems 1) nines ≡ map cut_elem elems)
    × (walk 4
          (117 ∷ 115 ∷ 114 ∷ 47 ∷ 97 ∷ 98 ∷ 99 ∷ 100 ∷ 101 ∷ 102 ∷ 103 ∷ 104 ∷ 105 ∷ 106 ∷ 107 ∷ 108
            ∷ 109 ∷ 110 ∷ 111 ∷ 112 ∷ 47 ∷ [])
          nines
        ≡ map cut_elem elems)
walk-path_of_example =
    walk-path_of 4 1 117 (115 ∷ 114 ∷ [])
      ((
        0,
        97,
        98 ∷ 99 ∷ 100 ∷ 101 ∷ 102 ∷ 103 ∷ 104 ∷ 105 ∷ 106 ∷ 107 ∷ 108 ∷ 109 ∷ 110 ∷ 111 ∷ 112 ∷ [],
      )
        ∷ [])
      1 nines elems-AllClean (omega arith)
