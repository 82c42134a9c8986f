-- ===== src/Images/Frames.antt =====
-- A JPEG file as the standard lays it out, up to its frame header, and the size that is read from it
-- (utils/imageDimensions.js).
use emlynk_wabot.Prelude.{
  ℕ, suc, zero-plus, suc-plus, ◌+◌, ◌-◌, ◌/◌, ◌%◌, ◌^◌, ◌≡◌, ◌≤◌, ◌<◌, true, false, some, List, [],
  ◌∷◌, ◌++◌, Text, text_eq, length, length-append, drop-past, All, ltb, ◌==◌, arith, refl, ◌∙◌, sym,
  ap,
}
use emlynk_wabot.Images.{
  ImageFormat, Dimensions, uint16, is_frame, is_standalone, Scan, scan_jpeg, read_jpeg,
  read_image_dimensions,
}
use emlynk_wabot.Images.Jpeg.{scan_jpeg-ends}

-- A segment before the frame header: its marker and what it holds.
pub record Segment : Type 0 where
  pub marker : ℕ
  pub payload : Text

-- A marker of a segment that has a length and is no frame header, fill byte or start of the image data.
pub record IsSkipped (s : Segment) : Type 0 where
  pub not_fill : (s.marker == 0xff) ≡ false
  pub has_length : is_standalone s.marker ≡ false
  pub not_frame : is_frame s.marker ≡ false
  pub not_data : (s.marker == 0xda) ≡ false

abbrev pub big_endian : ℕ → Text → Text
big_endian n s = n / 2 ^ 8 ∷ (n % 2 ^ 8 ∷ s)

-- The segments, with their lengths, before what follows.
unfoldable pub with_segments : List Segment → Text → Text
with_segments [] rest = rest
with_segments (s ∷ segments) rest =
    0xff ∷ (s.marker ∷ big_endian (2 + length s.payload) (s.payload ++ with_segments segments rest))

-- A frame header with its length and a size, and the rest of the file.
abbrev pub frame_header : ℕ → ℕ → ℕ → ℕ → ℕ → Text → Text
frame_header marker span precision height width rest =
    0xff ∷ (marker ∷ big_endian span (precision ∷ big_endian height (big_endian width rest)))

joined : (n : ℕ) → uint16 (n / 2 ^ 8) (n % 2 ^ 8) ≡ n
joined n = omega arith

scan_jpeg-frame :
    (fuel marker span precision height width : ℕ) (rest : Text)
    → is_frame marker ≡ true
    → 2 ≤ span
    → scan_jpeg (suc fuel) (frame_header marker span precision height width rest)
      ≡ Scan.frame (record { format = ImageFormat.jpeg; width = width; height = height })
unfolding scan_jpeg
scan_jpeg-frame fuel marker span precision height width rest h fits =
    let marked : (marker == 0xff) ≡ false = ground (arith, h) in
    let long : is_standalone marker ≡ false = ground (arith, h) in
    let enough : ltb span 2 ≡ false = ground (arith, fits) in
    rw marked
      (rw long (rw (joined span) (rw enough (rw h (rw (joined height) (rw (joined width) refl))))))

scan_jpeg-segment :
    (fuel : ℕ) (s : Segment) (rest : Text)
    → IsSkipped s
    → scan_jpeg
        (suc fuel)
        (0xff ∷ (s.marker ∷ big_endian (2 + length s.payload) (s.payload ++ rest)))
      ≡ scan_jpeg fuel rest
unfolding scan_jpeg
scan_jpeg-segment fuel s rest k =
    let n = length s.payload in
    let enough : ltb (2 + n) 2 ≡ false = ground arith in
    let behind : uint16 ((2 + n) / 2 ^ 8) ((2 + n) % 2 ^ 8) - 2 ≡ n + 0 = omega arith in
    rw k.not_fill (
      rw k.has_length (
        rw (joined (2 + n)) (
          rw enough (
            rw k.not_frame (
              rw k.not_data
                (rw behind (ap (λ t. scan_jpeg fuel t) (drop-past s.payload rest n 0 refl))))))))

scan_jpeg-segments :
    (fuel : ℕ) (segments : List Segment) (rest : Text)
    → All (λ (s : Segment). IsSkipped s) segments
    → scan_jpeg (length segments + fuel) (with_segments segments rest) ≡ scan_jpeg fuel rest
unfolding with_segments
scan_jpeg-segments fuel [] rest k = rw (zero-plus fuel) refl
scan_jpeg-segments fuel (s ∷ segments) rest (k, ks) = rw (suc-plus (length segments) fuel) (
    scan_jpeg-segment (length segments + fuel) s (with_segments segments rest) k
    ∙ scan_jpeg-segments fuel segments rest ks)

with_segments-long :
    (segments : List Segment) (rest : Text) → length rest ≤ length (with_segments segments rest)
unfolding with_segments
with_segments-long [] rest = omega arith
with_segments-long (s ∷ segments) rest =
    omega (
      arith,
      with_segments-long segments rest,
      length-append s.payload (with_segments segments rest),
    )

dimensions-read :
    (bytes : Text) (d : Dimensions)
    → 2 ≤ length bytes
    → scan_jpeg (suc (suc (suc (length bytes)))) bytes ≡ Scan.frame d
    → 0 < d.width
    → 0 < d.height
    → read_image_dimensions (0xff ∷ (0xd8 ∷ bytes)) ≡ some d
unfolding read_image_dimensions read_jpeg text_eq
dimensions-read bytes d long scanned w_positive h_positive = ground (arith, scanned)

-- The size of a JPEG file is read from its frame header, whatever segments stand before it and whatever
-- follows, if neither its width nor its height is zero.
pub read_image_dimensions-frame :
    (segments : List Segment) (marker span precision height width : ℕ) (rest : Text)
    → All (λ (s : Segment). IsSkipped s) segments
    → is_frame marker ≡ true
    → 2 ≤ span
    → 0 < width
    → 0 < height
    → read_image_dimensions (
        0xff
        ∷ (0xd8 ∷ with_segments segments (frame_header marker span precision height width rest)))
      ≡ some (record { format = ImageFormat.jpeg; width = width; height = height })
read_image_dimensions-frame segments marker span precision height width rest skipped h fits
      w_positive h_positive =
    let bytes = with_segments segments (frame_header marker span precision height width rest) in
    let fuel = suc (suc (suc (length bytes))) in
    let d : Dimensions = record { format = ImageFormat.jpeg; width = width; height = height } in
    let scanned : scan_jpeg (length segments + fuel) bytes ≡ Scan.frame d =
      scan_jpeg-segments fuel segments (frame_header marker span precision height width rest)
        skipped
      ∙ scan_jpeg-frame (suc (suc (length bytes))) marker span precision height width rest h fits in
    let same : fuel + length segments ≡ length segments + fuel = omega arith in
    let over = (scan_jpeg-ends fuel (length segments) bytes (omega arith)).1 in
    dimensions-read bytes d
      (omega
        (arith, with_segments-long segments (frame_header marker span precision height width rest)))
      (sym over ∙ (ap (λ k. scan_jpeg k bytes) same ∙ scanned)) w_positive h_positive
