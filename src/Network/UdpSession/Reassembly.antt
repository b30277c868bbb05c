-- ===== src/Network/UdpSession/Reassembly.antt =====
-- An image is put together whatever the order of its fragments.
use mathlib.Core.List.{append-nil}
use with_boost.Common.{
  ℕ, zero, suc, ◌+◌, ◌≤◌, ◌<◌, ◌≡◌, ◌≢◌, refl, ap, true, false, ◌||◌, none, some, List, [], ◌∷◌,
  ◌++◌, arith, length, contains, IsDistinct, IsApart, IsApart-cons, IsApart-nil, ◌==◌,
  if◌then◌else◌, Bool-cases, inl, inr, ==-refl, ==-eq,
}
use with_boost.Network.UdpSession.Fragments.{
  UdpSession, Effect, completes, sends_control, timer_armed, timer_cancelled, find, gather,
  acknowledgement, outcome_of, handle_image_fragment,
}

module _ {D : Type 0} where
  -- The fragments of one frame, as they arrive.
  pub deliver : UdpSession D → ℕ → ℕ → (ℕ → List ℕ) → List ℕ → UdpSession D × List Effect
  deliver s frame max_seq chunk [] = (s, [])
  deliver s frame max_seq chunk (k ∷ ks) =
      let (s', out) = handle_image_fragment s frame k max_seq (chunk k) in
      let (s'', more) = deliver s' frame max_seq chunk ks in (s'', out ++ more)

-- The chunks `i`, `i + 1`, … of which `left` are left, in order.
abbrev pub joined : (ℕ → List ℕ) → ℕ → ℕ → List ℕ
joined chunk zero i = []
joined chunk (suc left) i = chunk i ++ joined chunk left (suc i)

-- The table holds the chunks of exactly these numbers.
abbrev Holds : (ℕ → List ℕ) → List ℕ → List (ℕ × List ℕ) → Type 0
Holds chunk ks table = (k : ℕ) → find k table ≡ (if contains k ks then some (chunk k) else none)

Holds-cons :
    (chunk : ℕ → List ℕ) (k : ℕ) (ks : List ℕ) (table : List (ℕ × List ℕ))
    → Holds chunk ks table
    → Holds chunk (k ∷ ks) ((k, chunk k) ∷ table)
unfolding find
Holds-cons chunk k ks table h i = elim (Bool-cases (k == i)) [
  | inl e ↦ rw (==-eq k i e, ==-refl i)
  | inr n ↦ let n' : i == k ≡ false = ground arith in rw (n, n') (h i)
]

gather-Holds :
    (chunk : ℕ → List ℕ) (ks : List ℕ) (table : List (ℕ × List ℕ)) (left i n : ℕ)
    → Holds chunk ks table
    → ((k : ℕ) → k < n → contains k ks ≡ true)
    → i + left ≤ n
    → gather left i table ≡ joined chunk left i
unfolding gather
gather-Holds chunk ks table zero i n h all le = refl
gather-Holds chunk ks table (suc left) i n h all le =
    rw (h i, all i (omega arith))
      (ap (◌++◌ (chunk i)) (gather-Holds chunk ks table left (suc i) n h all (omega arith)))

module _ {D : Type 0} where
  -- What the last fragment of a frame brings about.
  abbrev pub delivery : UdpSession D → ℕ → List ℕ → List Effect
  delivery s max_seq bytes =
      timer_cancelled ∷ outcome_of s.has_on_complete (completes bytes s.expected_meta)
      ++ outcome_of s.has_send_control (sends_control acknowledgement)

  store_more :
      (s : UdpSession D) (k max_seq : ℕ) (bytes : List ℕ)
      → find k s.fragments ≡ none
      → length s.fragments < max_seq
      → handle_image_fragment s s.current_frame k max_seq bytes
        ≡ (record s { fragments = (k, bytes) ∷ s.fragments }, [])
  unfolding handle_image_fragment
  store_more s k max_seq bytes f l = ground (arith, f)

  store_last :
      (s : UdpSession D) (k max_seq : ℕ) (bytes : List ℕ)
      → find k s.fragments ≡ none
      → length s.fragments ≡ max_seq
      → handle_image_fragment s s.current_frame k max_seq bytes ≡ (
        record s { fragments = [] },
        delivery s max_seq (gather (max_seq + 1) 0 ((k, bytes) ∷ s.fragments)),
      )
  unfolding handle_image_fragment
  store_last s k max_seq bytes f l = ground (arith, f)

  -- From a table that holds the fragments `ks`, the others complete the image.
  deliver_complete :
      (chunk : ℕ → List ℕ) (max_seq : ℕ) (ks todo : List ℕ) (k : ℕ) (s : UdpSession D)
      → Holds chunk ks s.fragments
      → length s.fragments + length todo ≡ max_seq
      → IsDistinct (k ∷ todo)
      → IsApart ks (k ∷ todo)
      → ((i : ℕ) → i < suc max_seq → (contains i ks || contains i (k ∷ todo)) ≡ true)
      → deliver s s.current_frame max_seq chunk (k ∷ todo)
        ≡ (record s { fragments = [] }, delivery s max_seq (joined chunk (max_seq + 1) 0))
  unfolding deliver
  deliver_complete chunk max_seq ks [] k s h l d a all =
      let absent : find k s.fragments ≡ none = rw (h k, a.0) refl in
      let whole : gather (max_seq + 1) 0 ((k, chunk k) ∷ s.fragments)
          ≡ joined chunk (max_seq + 1) 0 =
        gather-Holds chunk (k ∷ ks) ((k, chunk k) ∷ s.fragments) (max_seq + 1) 0 (suc max_seq)
          (Holds-cons chunk k ks s.fragments h) (λ i lt. ground (arith, all i lt)) (omega arith) in
      rw (store_last s k max_seq (chunk k) absent (omega arith), append-nil, whole)
  deliver_complete chunk max_seq ks (k' ∷ todo) k s h l d a all =
      let absent : find k s.fragments ≡ none = rw (h k, a.0) refl in
      rw (store_more s k max_seq (chunk k) absent (omega arith)) (
        deliver_complete chunk max_seq (k ∷ ks) todo k'
          (record s { fragments = (k, chunk k) ∷ s.fragments })
          (Holds-cons chunk k ks s.fragments h) (omega arith) d.1
          (IsApart-cons k ks (k' ∷ todo) d.0 a.1) (λ i lt. ground (arith, all i lt)))

  first_fragment :
      (s : UdpSession D) (frame k max_seq : ℕ) (bytes : List ℕ)
      → frame ≢ s.current_frame
      → let opened : UdpSession D = record s {
        current_frame = frame;
        expected_max_seq = max_seq;
        fragments = [];
      } in
        handle_image_fragment s frame k max_seq bytes ≡ (
          (handle_image_fragment opened frame k max_seq bytes).0,
          timer_armed frame ∷ (handle_image_fragment opened frame k max_seq bytes).1,
        )
  unfolding handle_image_fragment
  first_fragment s frame k max_seq bytes n = ground arith

  -- The fragments 0 to `max_seq` of a frame that is not the current one arrive in any order, each
  -- once. Then the image is delivered once, its chunks in the order of their numbers, with the
  -- metadata expected, if there is a callback; the acknowledgement is sent, if there is a channel;
  -- nothing else happens but that the timer is armed at the start and cancelled at the end; and the
  -- session holds no fragment.
  pub deliver_lem :
      (s : UdpSession D) (frame max_seq : ℕ) (chunk : ℕ → List ℕ) (order : List ℕ)
      → frame ≢ s.current_frame
      → length order ≡ suc max_seq
      → IsDistinct order
      → ((i : ℕ) → i ≤ max_seq → contains i order ≡ true)
      → deliver s frame max_seq chunk order ≡ (
        record s { current_frame = frame; expected_max_seq = max_seq; fragments = [] },
        timer_armed frame ∷ delivery s max_seq (joined chunk (max_seq + 1) 0),
      )
  unfolding deliver find
  deliver_lem s frame max_seq chunk [] n l d all = absurd (omega arith)
  deliver_lem s frame max_seq chunk (k ∷ ks) n l d all =
      let opened : UdpSession D = record s {
        current_frame = frame;
        expected_max_seq = max_seq;
        fragments = [];
      } in
      let rest =
        deliver_complete chunk max_seq [] ks k opened (λ i. refl) (omega arith) d
          (IsApart-nil (k ∷ ks)) (λ i lt. all i (omega arith)) in
      rw (first_fragment s frame k max_seq (chunk k) n)
        (ap (λ (r : UdpSession D × List Effect). (r.0, timer_armed frame ∷ r.1)) rest)

  -- A frame that is not the current one has one fragment by its header, and the fragment carries
  -- another number than 0. It counts as the whole frame: an image of no bytes is delivered, if there is
  -- a callback, and acknowledged, if there is a channel.
  pub stray_fragment_completes :
      (s : UdpSession D) (frame seq : ℕ) (bytes : List ℕ)
      → frame ≢ s.current_frame
      → 0 < seq
      → handle_image_fragment s frame seq 0 bytes ≡ (
        record s { current_frame = frame; expected_max_seq = 0; fragments = [] },
        timer_armed frame ∷ delivery s 0 [],
      )
  unfolding handle_image_fragment
  stray_fragment_completes s frame seq bytes n h = ground arith
