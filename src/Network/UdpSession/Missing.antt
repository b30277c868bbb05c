-- ===== src/Network/UdpSession/Missing.antt =====
-- The request for missing fragments, and the loop that builds it.
use with_boost.Common.{
  ℕ, zero, suc, ◌+◌, ◌%◌, ◌≤◌, ◌<◌, ◌≡◌, refl, sym, subst, true, false, none, some, List, [], ◌∷◌,
  arith, leb, if◌then◌else◌, Bool-cases, inl, inr, is_empty, ==-refl,
}
use with_boost.Network.UdpSession.Fragments.{
  UdpSession, sends_control, timer_armed, request_for, find, present, missing_from, request_missing,
  check_missing_fragments, on_timer,
}

-- The numbers `i`, `i + 1`, … of which `left` are left, that the table lacks.
unfoldable pub absent : ℕ → ℕ → List (ℕ × List ℕ) → List ℕ
absent zero i table = []
absent (suc left) i table =
    let rest = absent left (suc i) table in if present (find i table) then rest else i ∷ rest

missing_from-absent :
    (left i max_seq fuel : ℕ) (table : List (ℕ × List ℕ))
    → i + left ≡ suc max_seq
    → max_seq < 255
    → left < fuel
    → missing_from fuel i max_seq table ≡ some (absent left i table)
unfolding missing_from absent
missing_from-absent left i max_seq zero table e m f = absurd (omega arith)
missing_from-absent zero i max_seq (suc fuel) table e m f =
    let past : leb i max_seq ≡ false = ground arith in rw past
missing_from-absent (suc left) i max_seq (suc fuel) table e m f =
    let within : leb i max_seq ≡ true = ground arith in
    let step : (i + 1) % 256 ≡ suc i = omega arith in
    rw (
      within,
      step,
      missing_from-absent left (suc i) max_seq fuel table (omega arith) m (omega arith),
    )

-- Where the highest number is below 255, the loop is through within 256 rounds, and finds exactly
-- the numbers up to it whose fragments have not arrived, in order.
pub missing_from_lem :
    (max_seq fuel : ℕ) (table : List (ℕ × List ℕ))
    → max_seq < 255
    → 256 ≤ fuel
    → missing_from fuel 0 max_seq table ≡ some (absent (suc max_seq) 0 table)
missing_from_lem max_seq fuel table m f =
    missing_from-absent (suc max_seq) 0 max_seq fuel table (omega arith) m (omega arith)

endless : (fuel i : ℕ) (table : List (ℕ × List ℕ)) → i < 256 → missing_from fuel i 255 table ≡ none
unfolding missing_from
endless zero i table h = refl
endless (suc fuel) i table h =
    let within : leb i 255 ≡ true = ground arith in
    rw (within, endless fuel ((i + 1) % 256) table (omega arith))

module _ {D : Type 0} (s : UdpSession D) (fuel : ℕ) where
  check_none :
      missing_from fuel 0 s.expected_max_seq s.fragments ≡ none
      → check_missing_fragments fuel s ≡ none
  unfolding check_missing_fragments
  check_none e = rw (e, check_missing_fragments)

  check_some :
      (lost : List ℕ)
      → missing_from fuel 0 s.expected_max_seq s.fragments ≡ some lost
      → check_missing_fragments fuel s ≡ some (request_missing s lost)
  unfolding check_missing_fragments
  check_some lost e = rw (e, check_missing_fragments)

-- For a frame of 256 fragments, when the timer runs out on the current frame and at least one
-- fragment is stored, the check for missing fragments never ends: no fuel is enough.
pub on_timer_endless :
    {D : Type 0} (s : UdpSession D) (fuel : ℕ)
    → s.expected_max_seq ≡ 255
    → is_empty s.fragments ≡ false
    → on_timer fuel s s.current_frame ≡ none
unfolding on_timer
on_timer_endless s fuel e h =
    let never : missing_from fuel 0 s.expected_max_seq s.fragments ≡ none =
      subst (λ m. missing_from fuel 0 m s.fragments ≡ none) (sym e)
        (endless fuel 0 s.fragments (omega arith)) in
    rw (==-refl s.current_frame, h) (check_none s fuel never)

-- When the timer runs out on the current frame, with at least one fragment stored, a highest number
-- below 255 and a control channel: if a fragment is missing, one request is sent that names exactly the
-- missing numbers, and the timer is armed again; if none is missing, nothing is sent.
pub on_timer_lem :
    {D : Type 0} (s : UdpSession D) (fuel : ℕ)
    → s.expected_max_seq < 255
    → is_empty s.fragments ≡ false
    → s.has_send_control ≡ true
    → 256 ≤ fuel
    → on_timer fuel s s.current_frame ≡ (
        let lost = absent (suc s.expected_max_seq) 0 s.fragments in
        if is_empty lost
        then some []
        else some
            (sends_control (request_for s.current_frame lost) ∷ timer_armed s.current_frame ∷ []))
unfolding on_timer request_missing
on_timer_lem s fuel m h c f =
    let lost = absent (suc s.expected_max_seq) 0 s.fragments in
    let found = check_some s fuel lost (missing_from_lem s.expected_max_seq fuel s.fragments m f) in
    elim (Bool-cases (is_empty lost)) [
      | inl e ↦ rw (==-refl s.current_frame, h, found, e)
      | inr e ↦ rw (==-refl s.current_frame, h, found, e, c)
    ]
