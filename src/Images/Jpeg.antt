-- ===== src/Images/Jpeg.antt =====
-- The loop of readJpeg (utils/imageDimensions.js) ends.
use emlynk_wabot.Prelude.{
  ℕ, zero, suc, ◌+◌, ◌-◌, ◌≡◌, ◌≢◌, ◌≤◌, ◌<◌, inl, inr, [], ◌∷◌, Text, length, drop, ltb, ◌==◌,
  arith, refl, suc-plus, Bool-cases,
}
use emlynk_wabot.Images.{uint16, is_frame, is_standalone, Scan, frame_size, scan_jpeg}

length-drop : (n : ℕ) (s : Text) → length (drop n s) ≤ length s
length-drop zero s = omega arith
length-drop (suc n) [] = omega arith
length-drop (suc n) (c ∷ s) = omega (arith, length-drop n s)

frame_size-over : (s : Text) → frame_size s ≢ Scan.out_of_fuel
frame_size-over [] h = cc h
frame_size-over (a ∷ []) h = cc h
frame_size-over (a ∷ b ∷ []) h = cc h
frame_size-over (a ∷ b ∷ c ∷ []) h = cc h
frame_size-over (a ∷ b ∷ c ∷ d ∷ []) h = cc h
frame_size-over (a ∷ b ∷ c ∷ d ∷ e ∷ s) h = cc h

-- The loop of readJpeg makes at most one turn for each byte: with more fuel than bytes it comes to an
-- end, and any more fuel changes nothing.
pub scan_jpeg-ends :
    (fuel more : ℕ) (s : Text)
    → length s < fuel
    → (scan_jpeg fuel s ≢ Scan.out_of_fuel) × (scan_jpeg (fuel + more) s ≡ scan_jpeg fuel s)
unfolding scan_jpeg
scan_jpeg-ends zero more s h = absurd (omega (arith, h))
scan_jpeg-ends (suc fuel) more [] h = (λ e. cc e, rw (suc-plus fuel more) refl)
scan_jpeg-ends (suc fuel) more (a ∷ []) h = (λ e. cc e, rw (suc-plus fuel more) refl)
scan_jpeg-ends (suc fuel) more (a ∷ b ∷ []) h = (λ e. cc e, rw (suc-plus fuel more) refl)
scan_jpeg-ends (suc fuel) more (a ∷ b ∷ c ∷ []) h = (λ e. cc e, rw (suc-plus fuel more) refl)
scan_jpeg-ends (suc fuel) more (start ∷ marker ∷ high ∷ low ∷ s) h =
    rw (suc-plus fuel more) (elim (Bool-cases (start == 0xff)) [
      | inr other ↦ rw other (λ e. cc e, refl)
      | inl begun ↦ elim (Bool-cases (marker == 0xff)) [
        | inl fill ↦
            rw begun
              (rw fill (scan_jpeg-ends fuel more (marker ∷ high ∷ low ∷ s) (omega (arith, h))))
        | inr marked ↦ elim (Bool-cases (is_standalone marker)) [
          | inl alone ↦
              rw begun (
                rw marked (rw alone (scan_jpeg-ends fuel more (high ∷ low ∷ s) (omega (arith, h)))))
          | inr long ↦ elim (Bool-cases (ltb (uint16 high low) 2)) [
            | inl short ↦ rw begun (rw marked (rw long (rw short (λ e. cc e, refl))))
            | inr fits ↦ elim (Bool-cases (is_frame marker)) [
              | inl found ↦
                  rw begun (rw marked (rw long (rw fits (rw found (frame_size-over s, refl)))))
              | inr segment ↦ elim (Bool-cases (marker == 0xda)) [
                | inl scan ↦
                    rw begun
                      (rw marked (rw long (rw fits (rw segment (rw scan (λ e. cc e, refl))))))
                | inr skipped ↦
                    let rest = drop (uint16 high low - 2) s in
                    rw begun (
                      rw marked (
                        rw long (
                          rw fits (
                            rw segment (
                              rw skipped (
                                scan_jpeg-ends fuel more rest
                                  (omega (arith, h, length-drop (uint16 high low - 2) s))))))))
              ]
            ]
          ]
        ]
      ]
    ])
