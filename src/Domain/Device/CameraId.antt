-- ===== src/Domain/Device/CameraId.antt =====
-- The identifier of a camera, read from the URL of its stream.
use mathlib.Core.List.{append_assoc}
use with_boost.Common.{
  ℕ, ◌+◌, ◌-◌, ◌≡◌, refl, sym, ap, ◌∙◌, true, false, some, [], ◌∷◌, ◌++◌, Text, codes, arith,
  length, length-append, drop-append, take-append, is_empty, contains, ltb, lt→ltb, index_of,
  find_from, find_from-char, substr, if◌then◌else◌,
}
use with_boost.Domain.Device.{stream_id, camera_id_of}

-- A URL as the server writes it.
abbrev pub stream_url : Text → Text → Text → Text → Text → Text
stream_url front ip port stream back = front ++ (ip ++ (port ++ b'/' ∷ (stream ++ b'/' ∷ back)))

nonempty : (n : ℕ) (url : Text) → ltb n (length url) ≡ true → is_empty url ≡ false
nonempty n [] h = ground arith
nonempty n (c ∷ url) h = refl

stream_id_steps :
    (ip url : Text) (at slash next : ℕ)
    → find_from ip 0 url ≡ some at
    → find_from (codes "/") (at + length ip) url ≡ some slash
    → ltb (slash + 1) (length url) ≡ true
    → find_from (codes "/") (slash + 1) url ≡ some next
    → stream_id ip url ≡ ip ++ codes "/" ++ substr url (slash + 1) (next - slash - 1)
unfolding stream_id
stream_id_steps ip url at slash next a s l n = rw (nonempty (slash + 1) url l, a, s, l, n) refl

find_start : (pat url : Text) (at : ℕ) → index_of pat url ≡ some at → find_from pat 0 url ≡ some at
unfolding find_from
find_start pat url at e = rw e (ground arith)

-- Behind a stretch `front` of the text, up to its first slash.
slash_behind :
    (url front s back : Text) (from : ℕ)
    → url ≡ front ++ (s ++ b'/' ∷ back)
    → from ≡ length front
    → contains b'/' s ≡ false
    → find_from (codes "/") from url ≡ some (from + length s)
slash_behind url front s back from e l c = rw e (find_from-char b'/' front s back from l c)

regroup :
    (front ip port rest : Text)
    → front ++ (ip ++ (port ++ b'/' ∷ rest)) ≡ ((front ++ ip) ++ (port ++ b'/' ∷ [])) ++ rest
regroup front ip port rest = sym (
    append_assoc (front ++ ip) (port ++ b'/' ∷ []) rest
    ∙ ap (λ t. (front ++ ip) ++ t) (append_assoc port (b'/' ∷ []) rest)
    ∙ append_assoc front ip (port ++ b'/' ∷ rest))

length-head :
    (front ip port : Text)
    → length ((front ++ ip) ++ (port ++ b'/' ∷ [])) ≡ length front + length ip + length port + 1
length-head front ip port = omega (
  arith,
  length-append (front ++ ip) (port ++ b'/' ∷ []),
  length-append front ip,
  length-append port (b'/' ∷ []),
)

substr-middle :
    (url front s back : Text) (from count : ℕ)
    → url ≡ front ++ (s ++ back)
    → from ≡ length front
    → count ≡ length s
    → substr url from count ≡ s
substr-middle url front s back from count e f c =
    rw (e, f, c, drop-append front (s ++ back)) (take-append s back)

-- The first place of the IP in a URL is right behind `front`; between it and the next slash, and from
-- there to the slash after it, stand texts without a slash, as in rtsp://IP:PORT/STREAM/…: the
-- identifier of the camera is the IP, a slash and the text between the two slashes.
pub camera_id_of_lem :
    (front ip port stream back : Text)
    → index_of ip (stream_url front ip port stream back) ≡ some (length front)
    → contains b'/' port ≡ false
    → contains b'/' stream ≡ false
    → camera_id_of ip (stream_url front ip port stream back) ≡ ip ++ codes "/" ++ stream
unfolding camera_id_of
camera_id_of_lem front ip port stream back h p s =
    let url = stream_url front ip port stream back in
    let head = (front ++ ip) ++ (port ++ b'/' ∷ []) in
    let slash = length front + length ip + length port in
    let whole = regroup front ip port (stream ++ b'/' ∷ back) in
    let long : length url ≡ length head + (length stream + length (b'/' ∷ back)) =
      ap length whole
      ∙ length-append head (stream ++ b'/' ∷ back)
      ∙ ap (λ n. length head + n) (length-append stream (b'/' ∷ back)) in
    let head_length = length-head front ip port in
    let from : slash + 1 ≡ length head = omega (arith, head_length) in
    let steps =
      stream_id_steps ip url (length front) slash (slash + 1 + length stream)
        (find_start ip url (length front) h)
        (slash_behind url (front ++ ip) port (stream ++ b'/' ∷ back) (length front + length ip)
          (sym (append_assoc front ip (port ++ b'/' ∷ (stream ++ b'/' ∷ back))))
          (sym (length-append front ip)) p)
        (lt→ltb (slash + 1) (length url) (omega (arith, long, head_length)))
        (slash_behind url head stream back (slash + 1) whole from s) in
    let cut =
      substr-middle url head stream (b'/' ∷ back) (slash + 1)
        (slash + 1 + length stream - slash - 1) whole from (omega arith) in
    rw (steps ∙ ap (λ t. ip ++ codes "/" ++ t) cut) (filled ip)
  where
    filled :
        (t : Text)
        → (if is_empty (t ++ codes "/" ++ stream)
            then ip ++ codes "/0"
            else ip ++ codes "/" ++ stream)
          ≡ ip ++ codes "/" ++ stream
    filled [] = refl
    filled (c ∷ t) = refl
