-- ===== src/Network/UdpSession/Fragments.antt =====
-- The state of an UdpSession, `handleImageFragment` and `checkMissingFragments`.
use with_boost.Common.{
  ℕ, zero, suc, ◌+◌, ◌%◌, Bool, true, false, Option, none, some, List, [], ◌∷◌, ◌++◌, Text, codes,
  number, leb, ◌==◌, if◌then◌else◌, length, is_empty, not, ◌&&◌,
}

pub record Endpoint : Type 0 where
  pub address : ℕ
  pub port : ℕ

pub record UdpSession (D : Type 0) : Type 0 where
  pub dtls : D
  pub server_endpoint : Endpoint
  pub has_on_complete : Bool
  pub has_send_control : Bool
  pub expected_meta : Text
  pub current_frame : ℕ
  pub expected_max_seq : ℕ
  pub fragments : List (ℕ × List ℕ)

-- `timer_armed frame` starts the wait of 50 ms anew, with a handler that remembers the frame.
pub data Effect : Type 0 where
  completes : List ℕ → Text → Effect
  sends_control : Text → Effect
  sends_raw : List ℕ → Endpoint → Effect
  timer_armed : ℕ → Effect
  timer_cancelled : Effect

-- `std::map` from sequence numbers to bytes: `find` and the write of a new key.
unfoldable pub find : ℕ → List (ℕ × List ℕ) → Option (List ℕ)
find k [] = none
find k ((j, v) ∷ table) = if j == k then some v else find k table

abbrev pub present : Option (List ℕ) → Bool
present none = false
present (some v) = true

-- `fragments_[i]`: a key that is missing reads as no bytes.
abbrev pub or_nothing : Option (List ℕ) → List ℕ
or_nothing none = []
or_nothing (some v) = v

-- The bytes of the fragments `i`, `i + 1`, … of which `left` are left.
unfoldable pub gather : ℕ → ℕ → List (ℕ × List ℕ) → List ℕ
unfolding find
gather zero i table = []
gather (suc left) i table = or_nothing (find i table) ++ gather left (suc i) table

abbrev pub acknowledgement : Text
acknowledgement = codes "{\"receive\": true}"

abbrev pub outcome_of {ℓ} : {A : Type ℓ} → Bool → A → List A
outcome_of true e = e ∷ []
outcome_of false e = []

module _ {D : Type 0} where
  -- A frame number that is not the current one starts a new reassembly.
  unfoldable pub open_frame : UdpSession D → ℕ → ℕ → UdpSession D × List Effect
  open_frame s frame max_seq = if frame == s.current_frame then (s, []) else (
    record s { current_frame = frame; expected_max_seq = max_seq; fragments = [] },
    timer_armed frame ∷ [],
  )

  -- The fragment is stored, and a full set of them is delivered.
  unfoldable pub store_fragment : UdpSession D → ℕ → ℕ → List ℕ → UdpSession D × List Effect
  unfolding find gather
  store_fragment s seq max_seq bytes =
      let fragments = (seq, bytes) ∷ s.fragments in
      if present (find seq s.fragments)
      then (s, [])
      else if length fragments == max_seq + 1
      then (
        record s { fragments = [] },
        timer_cancelled
              ∷ outcome_of s.has_on_complete
                  (completes (gather (max_seq + 1) 0 fragments) s.expected_meta)
            ++ outcome_of s.has_send_control (sends_control acknowledgement),
      )
      else (record s { fragments = fragments }, [])

  unfoldable pub handle_image_fragment :
      UdpSession D → ℕ → ℕ → ℕ → List ℕ → UdpSession D × List Effect
  unfolding open_frame store_fragment
  handle_image_fragment s frame seq max_seq bytes =
      let (s', out) = open_frame s frame max_seq in
      let (s'', more) = store_fragment s' seq max_seq bytes in (s'', out ++ more)

-- `for (uint8_t i = 0; i <= expected_max_seq_; ++i)`: the counter wraps at 256. `none` means that the
-- fuel ran out.
unfoldable pub missing_from : ℕ → ℕ → ℕ → List (ℕ × List ℕ) → Option (List ℕ)
unfolding find
missing_from zero i max_seq table = none
missing_from (suc fuel) i max_seq table =
    let rest = missing_from fuel ((i + 1) % 256) max_seq table in
    let more = elim rest as (λ o. Option (List ℕ)) [
      | none ↦ none
      | some is ↦ some (if present (find i table) then is else i ∷ is)
    ] in
    if leb i max_seq then more else some []

unfoldable pub commas : List ℕ → Text
commas [] = []
commas (i ∷ []) = number i
commas (i ∷ j ∷ is) = number i ++ (codes "," ++ commas (j ∷ is))

unfoldable pub request_for : ℕ → List ℕ → Text
unfolding commas
request_for frame missing =
    codes "{\"frame_number\":"
    ++ (number frame ++ (codes ",\"missing_sequence\":[" ++ (commas missing ++ codes "]}")))

module _ {D : Type 0} where
  unfoldable pub request_missing : UdpSession D → List ℕ → List Effect
  unfolding request_for
  request_missing s missing =
      if not (is_empty missing) && s.has_send_control
      then sends_control (request_for s.current_frame missing) ∷ timer_armed s.current_frame ∷ []
      else []

  -- `none`: the loop is not through within the fuel.
  unfoldable pub check_missing_fragments : ℕ → UdpSession D → Option (List Effect)
  unfolding missing_from request_missing
  check_missing_fragments fuel s = elim (missing_from fuel 0 s.expected_max_seq s.fragments) [
    | none ↦ none
    | some missing ↦ some (request_missing s missing)
  ]

  -- The handler of the timer, without an error code, for the frame that it remembers.
  unfoldable pub on_timer : ℕ → UdpSession D → ℕ → Option (List Effect)
  unfolding check_missing_fragments
  on_timer fuel s frame =
      let checked = check_missing_fragments fuel s in
      if (s.current_frame == frame) && not (is_empty s.fragments) then checked else some []
