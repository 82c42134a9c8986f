-- ===== src/Passport/Digits.antt =====
-- What a check digit of utils/mrz.js tells.
use emlynk_wabot.Prelude.{
  ℕ, suc, ◌+◌, ◌*◌, ◌%◌, ◌≡◌, ◌⊎◌, inl, inr, ◌↔◌, [], ◌∷◌, ◌++◌, Text, length, ◌==◌, arith, refl,
  Bool-cases,
}
use emlynk_wabot.Passport.Mrz.{char_value, weight, check_total, compute_check_digit}

check_total-shift : (i total : ℕ) (s : Text) → check_total i total s ≡ total + check_total i 0 s
unfolding check_total
check_total-shift i total [] = omega arith
check_total-shift i total (c ∷ s) = omega (
  arith,
  check_total-shift (suc i) (total + char_value c * weight i) s,
  check_total-shift (suc i) (0 + char_value c * weight i) s,
)

index-zero : (i : ℕ) → i + 0 ≡ i
index-zero i = omega arith

index-suc : (i n : ℕ) → i + suc n ≡ suc i + n
index-suc i n = omega arith

check_total-append :
    (i total : ℕ) (s t : Text)
    → check_total i total (s ++ t) ≡ check_total i total s + check_total (i + length s) 0 t
unfolding check_total
check_total-append i total [] t = rw (index-zero i) (check_total-shift i total t)
check_total-append i total (c ∷ s) t =
    rw (index-suc i (length s)) (check_total-append (suc i) (total + char_value c * weight i) s t)

weights : (i : ℕ) → (weight i ≡ 7) ⊎ ((weight i ≡ 3) ⊎ (weight i ≡ 1))
weights i = elim (Bool-cases (i % 3 == 0)) [
  | inl e ↦ rw e (inl refl)
  | inr e ↦ elim (Bool-cases (i % 3 == 1)) [
    | inl f ↦ rw e (rw f (inr (inl refl)))
    | inr f ↦ rw e (rw f (inr (inr refl)))
  ]
]

same-sum :
    (before after w x y : ℕ)
    → (w ≡ 7) ⊎ ((w ≡ 3) ⊎ (w ≡ 1))
    → ((before + (x * w + after)) % 10 ≡ (before + (y * w + after)) % 10) ↔ (x % 10 ≡ y % 10)
same-sum before after w x y (inl e) = rw e (λ h. omega (arith, h), λ h. omega (arith, h))
same-sum before after w x y (inr (inl e)) = rw e (λ h. omega (arith, h), λ h. omega (arith, h))
same-sum before after w x y (inr (inr e)) = rw e (λ h. omega (arith, h), λ h. omega (arith, h))

-- The check digits of two texts that differ in one character agree exactly if the values of the two
-- characters differ by a multiple of ten: any other misread character is noticed.
pub compute_check_digit_iff :
    (before after : Text) (c d : ℕ)
    → (compute_check_digit (before ++ (c ∷ after)) ≡ compute_check_digit (before ++ (d ∷ after)))
      ↔ (char_value c % 10 ≡ char_value d % 10)
unfolding compute_check_digit check_total
compute_check_digit_iff before after c d =
    let n = 0 + length before in
    let first = check_total 0 0 before in
    let last = check_total (suc n) 0 after in
    let split : (e : ℕ)
        → check_total 0 0 (before ++ (e ∷ after)) ≡ first + (char_value e * weight n + last) =
      λ e. omega (
        arith,
        check_total-append 0 0 before (e ∷ after),
        check_total-shift (suc n) (0 + char_value e * weight n) after,
      ) in
    rw (split c)
      (rw (split d) (same-sum first last (weight n) (char_value c) (char_value d) (weights n)))
