-- ===== src/Network/UdpSession/Examples.antt =====
-- Images put together from datagrams, on small inputs.
use with_boost.Common.{
  ℕ, zero, suc, ◌≤◌, ◌≡◌, refl, true, none, some, List, [], ◌∷◌, codes, arith, if◌then◌else◌,
  is_empty, contains,
}
use with_boost.Network.UdpSession.Fragments.{
  UdpSession, sends_control, timer_armed, on_timer, find, handle_image_fragment, request_for,
}
use with_boost.Network.UdpSession.Reassembly.{
  deliver, deliver_lem, delivery, stray_fragment_completes,
}
use with_boost.Network.UdpSession.Missing.{absent, on_timer_lem, on_timer_endless}

abbrev idle : UdpSession ℕ
idle = record {
  dtls = 0;
  server_endpoint = record { address = 0; port = 0 };
  has_on_complete = true;
  has_send_control = true;
  expected_meta = codes "{}";
  current_frame = 255;
  expected_max_seq = 0;
  fragments = [];
}

-- The chunk of a fragment: its number, twice.
abbrev twice : ℕ → List ℕ
twice k = k ∷ k ∷ []

abbrev shuffled : List ℕ
shuffled = 2 ∷ 0 ∷ 1 ∷ []

shuffled_all : (i : ℕ) → i ≤ 2 → contains i shuffled ≡ true
shuffled_all zero h = refl
shuffled_all (suc zero) h = refl
shuffled_all (suc (suc zero)) h = refl
shuffled_all (suc (suc (suc i))) h = absurd (omega arith)

deliver_lem_example : deliver idle 7 2 twice shuffled ≡ (
  record idle { current_frame = 7; expected_max_seq = 2; fragments = [] },
  timer_armed 7 ∷ delivery idle 2 (0 ∷ 0 ∷ 1 ∷ 1 ∷ 2 ∷ 2 ∷ []),
)
deliver_lem_example =
    deliver_lem idle 7 2 twice shuffled (omega arith) refl (refl, (refl, (refl, tt))) shuffled_all

abbrev partial_frame : UdpSession ℕ
partial_frame = record idle {
  current_frame = 7;
  expected_max_seq = 2;
  fragments = (1, twice 1) ∷ [];
}

on_timer_lem_example : on_timer 256 partial_frame 7 ≡ (
    let lost = absent 3 0 partial_frame.fragments in
    if is_empty lost
    then some []
    else some (sends_control (request_for 7 lost) ∷ timer_armed 7 ∷ []))
on_timer_lem_example = on_timer_lem partial_frame 256 (omega arith) refl refl (omega arith)

absent_two : absent 3 0 partial_frame.fragments ≡ 0 ∷ 2 ∷ []
unfolding absent find
absent_two = refl

abbrev large_frame : UdpSession ℕ
large_frame = record partial_frame { expected_max_seq = 255 }

on_timer_endless_example : on_timer 100000 large_frame 7 ≡ none
on_timer_endless_example = on_timer_endless large_frame 100000 refl refl

stray_fragment_completes_example : handle_image_fragment idle 7 3 0 (1 ∷ 2 ∷ []) ≡ (
  record idle { current_frame = 7; expected_max_seq = 0; fragments = [] },
  timer_armed 7 ∷ delivery idle 0 [],
)
stray_fragment_completes_example =
    stray_fragment_completes idle 7 3 (1 ∷ 2 ∷ []) (omega arith) (omega arith)
