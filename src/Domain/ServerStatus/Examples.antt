-- ===== src/Domain/ServerStatus/Examples.antt =====
-- Packets with and without the data of the server.
use with_boost.Common.{
  ℕ, pos, ◌≡◌, ◌≤◌, ◌-◌, true, false, none, some, List, [], ◌∷◌, codes, text_eq, ◌==◌,
  if◌then◌else◌, length, drop,
}
use with_boost.Domain.Json.{Json}
use with_boost.Domain.ServerStatus.{max_statuses}
use with_boost.Domain.ServerStatus.History.{
  Command, packet, clears, run, since_clear, empty_store, run-last,
}

-- Values as numbers: 1 is a packet with the server 2, and 3 one without it.
abbrev sample : Json
sample = record {
  Value = ℕ;
  Real = ℕ;
  real_zero = 0;
  parse = λ t. if text_eq t (codes "admin") then 1 else if text_eq t (codes "user") then 3 else 0;
  is_array = λ v. false;
  is_object = λ v. if v == 0 then false else true;
  elements = λ v. [];
  member = λ v key. if v == 1 then if text_eq key (codes "server") then some 2 else none else none;
  value_text = λ v key. some [];
  value_bool = λ v key. some true;
  value_int = λ v key. some (pos 5);
  value_real = λ v key. some 9;
}

abbrev packets : List Command
packets =
    packet (pos 1) (codes "admin")
    ∷ clears
    ∷ packet (pos 2) (codes "user")
    ∷ packet (pos 3) (codes "admin")
    ∷ packet (pos 4) (codes "bad")
    ∷ []

run-last_example :
    let all = since_clear sample [] packets in
    ((run sample (empty_store sample) packets).history ≡ drop (length all - max_statuses) all)
    × (length (run sample (empty_store sample) packets).history ≤ max_statuses)
run-last_example = run-last sample packets
