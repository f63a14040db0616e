-- ===== src/File/Tests.antt =====
-- file.c with an empty table.
use os_lab2_team.Prelude.{refl, false, [], ◌∷◌}
use os_lab2_team.File.{fd_none, Ftable, put_file, free_slot, file_at, filealloc}
use os_lab2_team.File.Refs.{Open, alloc, Reach, here, later, Counted, Counted-Reach}

abbrev empty_table : Ftable
empty_table f = record { kind = fd_none; ref = 0; readable = false; writable = false; off = 0 }

abbrev empty : Open
empty = record { table = empty_table; held = [] }

empty-Counted : Counted empty
empty-Counted f = refl

abbrev one_file : Open
one_file = record {
  table = put_file empty_table 0 (record (empty_table 0) { ref = 1 });
  held = 0 ∷ [];
}

one_file-Reach : Reach empty one_file
unfolding filealloc free_slot file_at
one_file-Reach = later here (alloc 0 _ refl)

Counted-Reach_example : Counted one_file
Counted-Reach_example = Counted-Reach empty one_file empty-Counted one_file-Reach
