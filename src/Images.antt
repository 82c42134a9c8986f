-- ===== src/Images.antt =====
-- The size of an image from its header, and the checks of a downloaded file: utils/imageDimensions.js
-- and utils/fileValidation.js. A buffer is the list of its bytes.
pub mod Jpeg
pub mod Frames
pub mod Files
use emlynk_wabot.Prelude.{
  ℕ, zero, suc, ◌+◌, ◌-◌, ◌*◌, ◌^◌, Bool, true, false, ◌&&◌, ◌||◌, not, Option, none, some, List,
  [], ◌∷◌, Text, text_eq, codes, any, length, take, drop, leb, ltb, ◌==◌, is_truthy, or_else,
  if◌then◌else◌,
}

pub data ImageFormat : Type 0 where
  png jpeg : ImageFormat

pub record Dimensions : Type 0 where
  pub format : ImageFormat
  pub width : ℕ
  pub height : ℕ

-- PNG_SIGNATURE
abbrev pub png_signature : Text
png_signature = 0x89 ∷ 0x50 ∷ 0x4e ∷ 0x47 ∷ 0x0d ∷ 0x0a ∷ 0x1a ∷ 0x0a ∷ []

abbrev pub jpeg_signature : Text
jpeg_signature = 0xff ∷ 0xd8 ∷ 0xff ∷ []

-- readUInt16BE and readUInt32BE
abbrev pub uint16 : ℕ → ℕ → ℕ
uint16 a b = a * 2 ^ 8 + b

abbrev pub uint32 : Text → ℕ
uint32 (a ∷ b ∷ c ∷ d ∷ s) = uint16 (uint16 (uint16 a b) c) d
uint32 _ = 0

-- readPng
unfoldable pub read_png : Text → Option Dimensions
read_png buffer =
    if ltb (length buffer) 24 || not (text_eq (take 4 (drop 12 buffer)) (codes "IHDR"))
    then none
    else some (record {
      format = ImageFormat.png;
      width = uint32 (drop 16 buffer);
      height = uint32 (drop 20 buffer);
    })

-- JPEG_SOF_MARKERS
abbrev pub is_frame : ℕ → Bool
is_frame marker =
    leb 0xc0 marker && leb marker 0xcf && not (marker == 0xc4 || marker == 0xc8 || marker == 0xcc)

-- JPEG_STANDALONE_MARKERS
abbrev pub is_standalone : ℕ → Bool
is_standalone marker = marker == 0x01 || (leb 0xd0 marker && leb marker 0xd9)

-- What the loop of readJpeg comes to; `out_of_fuel` stands for a loop that is not over.
pub data Scan : Type 0 where
  out_of_fuel nothing : Scan
  frame : Dimensions → Scan

-- The size that follows a frame marker: its length (two bytes), the precision, the height and the width.
abbrev pub frame_size : Text → Scan
frame_size (precision ∷ h1 ∷ h2 ∷ w1 ∷ w2 ∷ s) =
    Scan.frame (record { format = ImageFormat.jpeg; width = uint16 w1 w2; height = uint16 h1 h2 })
frame_size _ = Scan.nothing

-- The loop of readJpeg, over the bytes from `offset` on.
unfoldable pub scan_jpeg : ℕ → Text → Scan
scan_jpeg zero s = Scan.out_of_fuel
scan_jpeg (suc fuel) (start ∷ marker ∷ high ∷ low ∷ s) =
    if not (start == 0xff) then Scan.nothing else elim (marker == 0xff) [
      | true ↦ scan_jpeg fuel (marker ∷ high ∷ low ∷ s)
      | false ↦ elim (is_standalone marker) [
        | true ↦ scan_jpeg fuel (high ∷ low ∷ s)
        | false ↦
            if ltb (uint16 high low) 2
            then Scan.nothing
            else if is_frame marker
            then frame_size s
            else elim (marker == 0xda) [
              | true ↦ Scan.nothing
              | false ↦ scan_jpeg fuel (drop (uint16 high low - 2) s)
            ]
      ]
    ]
scan_jpeg (suc fuel) _ = Scan.nothing

abbrev pub dimensions_of : Scan → Option Dimensions
dimensions_of Scan.out_of_fuel = none
dimensions_of Scan.nothing = none
dimensions_of (Scan.frame d) = some d

-- readJpeg, with fuel for one turn of the loop per byte
unfoldable pub read_jpeg : Text → Option Dimensions
read_jpeg buffer = dimensions_of (scan_jpeg (suc (length buffer)) (drop 2 buffer))

-- Only a size above zero counts.
abbrev pub if_positive : Option Dimensions → Option Dimensions
if_positive none = none
if_positive (some d) = if ltb 0 d.width && ltb 0 d.height then some d else none

-- readImageDimensions
unfoldable pub read_image_dimensions : Text → Option Dimensions
read_image_dimensions buffer =
    if leb 8 (length buffer) && text_eq (take 8 buffer) png_signature
    then if_positive (read_png buffer)
    else if leb 4 (length buffer) && text_eq (take 2 buffer) (0xff ∷ 0xd8 ∷ [])
    then if_positive (read_jpeg buffer)
    else none
