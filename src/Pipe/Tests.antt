-- ===== src/Pipe/Tests.antt =====
-- pipe.c at concrete pipes.
use os_lab2_team.Prelude.{
  ℕ, ◌<◌, ◌≡◌, refl, ◌≢◌, ◌⊎◌, true, false, List, [], ◌∷◌, arith, ℕ_discrete, ◌==◌, if◌then◌else◌,
  replicate, length,
}
use os_lab2_team.Pipe.{pipesize, Pipe, refused, pipewrite, got, waits, take_bytes, piperead}
use os_lab2_team.Pipe.Ring.{Holds}
use os_lab2_team.Pipe.Stream.{Written, pipewrite_lem, Idle, Copied, piperead_lem}
use os_lab2_team.Pipe.Sleepers.{Reasons, write, read, here, later, Reasons-Reach, killed_writer}

-- An empty pipe whose counters are about to wrap.
abbrev wrapping : Pipe
wrapping = record {
  data_of = λ i. 0;
  nread = 4294967295;
  nwrite = 4294967295;
  readopen = true;
  writeopen = true;
  reader_asleep = true;
  writer_asleep = false;
}

through : (piperead false (pipewrite false wrapping (7 ∷ 8 ∷ 9 ∷ [])).1 2).0 ≡ got (7 ∷ 8 ∷ [])
unfolding pipewrite piperead take_bytes
through = refl

empty_waits : (piperead false wrapping 2).0 ≡ waits
unfolding piperead
empty_waits = refl

wrapping-Holds : Holds wrapping []
wrapping-Holds = record {
  nread = omega arith;
  nwrite = refl;
  fits = omega arith;
  bytes = λ i lt. absurd (omega arith);
}

wrapping-Reasons : Reasons wrapping
wrapping-Reasons = record {
  queue = [];
  holds = wrapping-Holds;
  reader = λ e. (refl, refl, refl);
  writer = λ e. ground arith;
}

pipewrite_lem_example :
    Written false wrapping [] (7 ∷ 8 ∷ []) (pipewrite false wrapping (7 ∷ 8 ∷ []))
pipewrite_lem_example = pipewrite_lem false wrapping [] (7 ∷ 8 ∷ []) wrapping-Holds

abbrev two_bytes : Pipe
two_bytes = record wrapping {
  data_of = λ i. if i == 511 then 7 else if i == 0 then 8 else 0;
  nwrite = 1;
  reader_asleep = false;
}

two_bytes-Holds : Holds two_bytes (7 ∷ 8 ∷ [])
two_bytes-Holds = record {
  nread = omega arith;
  nwrite = refl;
  fits = omega arith;
  bytes = λ i lt. elim (ℕ_discrete i 0) [ yes e ↦ rw e refl | no ne ↦ rw (one i lt ne) refl ];
}
  where
    one : (i : ℕ) → i < 2 → i ≢ 0 → i ≡ 1
    one i lt ne = omega arith

piperead_lem_example :
    Idle false two_bytes (7 ∷ 8 ∷ []) (piperead false two_bytes 1)
    ⊎ Copied two_bytes 1 (7 ∷ 8 ∷ []) (piperead false two_bytes 1)
piperead_lem_example = piperead_lem false two_bytes 1 (7 ∷ 8 ∷ []) two_bytes-Holds

readable : (pipewrite false wrapping (7 ∷ [])).1.readopen ≡ true
unfolding pipewrite
readable = refl

Reasons-Reach_example : Reasons (piperead false (pipewrite false wrapping (7 ∷ [])).1 5).1
Reasons-Reach_example =
    Reasons-Reach wrapping _ wrapping-Reasons
      (later (later here (write (7 ∷ []))) (read false 5 readable))

abbrev many : List ℕ
many = replicate 513 1

killed_writer_example :
    let r = pipewrite true wrapping many in
    (r.0 ≡ refused)
    × (r.1.reader_asleep ≡ true)
    × ((full : List ℕ) × Holds r.1 full × (length full ≡ pipesize))
killed_writer_example = killed_writer wrapping [] many wrapping-Holds (omega arith) refl
