-- ===== src/Queue/Order.antt =====
-- The order of waiting submissions in services/submissionQueue.js: strict, and total but for equals.
use emlynk_wabot.Prelude.{◌≡◌, true, false, [], ◌∷◌, Text, arith, refl}
use emlynk_wabot.Queue.Table.{Row}
use emlynk_wabot.Queue.Claims.{text_ltb, is_before}

text_ltb-asym : (s t : Text) → text_ltb s t ≡ true → text_ltb t s ≡ false
unfolding text_ltb
text_ltb-asym [] [] h = refl
text_ltb-asym [] (b ∷ t) h = refl
text_ltb-asym (a ∷ s) [] h = absurd (cc h)
text_ltb-asym (a ∷ s) (b ∷ t) h = ground (arith, text_ltb-asym s t)

text_ltb-between :
    (s t u : Text) → text_ltb s t ≡ false → text_ltb t u ≡ false → text_ltb s u ≡ false
unfolding text_ltb
text_ltb-between [] [] [] h k = refl
text_ltb-between [] [] (c ∷ u) h k = absurd (cc k)
text_ltb-between [] (b ∷ t) u h k = absurd (cc h)
text_ltb-between (a ∷ s) t [] h k = refl
text_ltb-between (a ∷ s) [] (c ∷ u) h k = absurd (cc k)
text_ltb-between (a ∷ s) (b ∷ t) (c ∷ u) h k = ground (arith, text_ltb-between s t u)

pub is_before-asym : (r s : Row) → is_before r s ≡ true → is_before s r ≡ false
unfolding is_before
is_before-asym r s h = ground (arith, text_ltb-asym r.temporary_id s.temporary_id)

pub is_before-between :
    (r s t : Row) → is_before r s ≡ false → is_before s t ≡ false → is_before r t ≡ false
unfolding is_before
is_before-between r s t h k =
    ground (arith, text_ltb-between r.temporary_id s.temporary_id t.temporary_id)
