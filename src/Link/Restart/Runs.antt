-- ===== src/Link/Restart/Runs.antt =====
-- Runs of the restart watch of src/link/restart.rs.
use medius.Base.{ℕ, ◌≡◌, refl, arith, true, false, none, some, List, [], ◌∷◌}
use medius.Protocol.Opcode.{proto_ver}
use medius.Link.Slot.{TransportSlot}
use medius.Link.Restart.{Watch, version_proto, note_hello, finish}
use medius.Link.Restart.Hellos.{finish-note_hello}

-- A version reply of this build's protocol, and one of another.
abbrev hello : List ℕ
hello = 0 ∷ 9 ∷ 1 ∷ 2 ∷ 3 ∷ 10 ∷ 11 ∷ 12 ∷ 13 ∷ 14 ∷ 15 ∷ []

abbrev other_hello : List ℕ
other_hello = 0 ∷ 8 ∷ 1 ∷ 2 ∷ 3 ∷ 10 ∷ 11 ∷ 12 ∷ 13 ∷ 14 ∷ 15 ∷ []

-- Transports named by numbers.
abbrev slot : TransportSlot ℕ
slot = record { current = 1; generation = 0; refusal = 0 }

abbrev armed_watch : Watch
armed_watch = record {
  armed = true;
  recovering = false;
  owed = false;
  hellos = 0;
  booted = false;
  session = none;
  represent_until = none;
}

abbrev recovering_watch : Watch
recovering_watch = record armed_watch { recovering = true; hellos = 1 }

hello_version : version_proto hello ≡ some proto_ver
unfolding version_proto
hello_version = refl

other_version : version_proto other_hello ≡ some 8
unfolding version_proto
other_version = refl

finish-note_hello_example :
    (finish 1 (note_hello hello slot recovering_watch).1
      ≡ ((note_hello hello slot recovering_watch).1, false))
    × ((note_hello hello slot recovering_watch).1.booted ≡ true)
    × ((note_hello hello slot recovering_watch).1.recovering ≡ true)
finish-note_hello_example =
    finish-note_hello hello slot recovering_watch hello_version refl (omega arith)
