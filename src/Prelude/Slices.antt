-- ===== src/Prelude/Slices.antt =====
-- Parts of a list, by native numbers, under the library's names.
use Prim.Native.Nat.{ℕ, zero, suc, ◌+◌}
use mathlib.Core.Path.{◌≡◌, refl, sym, ap}
use mathlib.Core.List.{List, [], ◌∷◌, ◌++◌}
use native.Mathlib.Omega.{arith}
use emlynk_wabot.Prelude.Lists.{length}

pub zero-plus : (k : ℕ) → 0 + k ≡ k
zero-plus k = omega arith

pub suc-plus : (m k : ℕ) → suc m + k ≡ suc (m + k)
suc-plus m k = omega arith

module _ {ℓ} {A : Type ℓ} where
  abbrev pub take : ℕ → List A → List A
  take zero xs = []
  take (suc n) [] = []
  take (suc n) (x ∷ xs) = x ∷ take n xs

  abbrev pub drop : ℕ → List A → List A
  drop zero xs = xs
  drop (suc n) [] = []
  drop (suc n) (x ∷ xs) = drop n xs

  drop-length : (p rest : List A) (k : ℕ) → drop (length p + k) (p ++ rest) ≡ drop k rest
  drop-length [] rest k = rw (zero-plus k) refl
  drop-length (c ∷ p) rest k = rw (suc-plus (length p) k) (drop-length p rest k)

  pub drop-past :
      (p rest : List A) (n k : ℕ) → length p ≡ n → drop (n + k) (p ++ rest) ≡ drop k rest
  drop-past p rest n k h = rw (sym h) (drop-length p rest k)

  take-length : (p rest : List A) → take (length p) (p ++ rest) ≡ p
  take-length [] rest = refl
  take-length (c ∷ p) rest = ap (λ l. c ∷ l) (take-length p rest)

  pub take-front : (p rest : List A) (n : ℕ) → length p ≡ n → take n (p ++ rest) ≡ p
  take-front p rest n h = rw (sym h) (take-length p rest)

  take-all-of : (s : List A) → take (length s) s ≡ s
  take-all-of [] = refl
  take-all-of (c ∷ s) = ap (λ l. c ∷ l) (take-all-of s)

  pub take-all : (s : List A) (n : ℕ) → length s ≡ n → take n s ≡ s
  take-all s n h = rw (sym h) (take-all-of s)
