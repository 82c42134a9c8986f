-- ===== src/Storage/Copy/Preserves.antt =====
-- services/permanentStorageService.js: predicates that copyToFreeName carries along.
use emlynk_wabot.Prelude.{ℕ, zero, suc, inl, inr, Text, Bool-cases}
use emlynk_wabot.Storage.Copy.{Port, copy_tries, copy_to_free_name, path_of}
use emlynk_wabot.Storage.Copy.Keeps.{Exists-cases, Copied-cases}

module _ {ℓ κ} {S : Type ℓ} (port : Port S) (from folder : Text) (name_for_attempt : ℕ → Text)
    (P : S → Type κ) (copies : (to : Text) (s : S) → P s → P (port.copy from to s).0)
    (hooks : (to : Text) (s : S) → P s → P (port.before_copy to s).0) where
  tries-preserves :
      (tries attempt : ℕ) (s : S)
      → P s
      → P (copy_tries port from folder name_for_attempt tries attempt s).0
  unfolding copy_tries
  tries-preserves zero attempt s h = h
  tries-preserves (suc tries) attempt s h =
      let to = path_of port from folder name_for_attempt attempt in
      let t = (port.before_copy to s).0 in
      let u = (port.copy from to t).0 in
      let next = copies to t (hooks to s h) in
      elim (Exists-cases (port.exists to s)) [
        | inl failed ↦ rw (copy_tries, failed) h
        | inr (inl taken) ↦ elim (Bool-cases (port.reuse_existing to s)) [
          | inl own ↦ rw (copy_tries, taken) (rw own h)
          | inr other ↦ rw (copy_tries, taken) (rw other (tries-preserves tries (suc attempt) s h))
        ]
        | inr (inr free) ↦ elim (Bool-cases (port.before_copy to s).1) [
          | inr lost ↦ rw (copy_tries, free) (rw lost (hooks to s h))
          | inl owned ↦ elim (Copied-cases (port.copy from to t).1) [
            | inl copied ↦ rw (copy_tries, free) (rw owned (rw copied next))
            | inr (inr failed) ↦ rw (copy_tries, free) (rw owned (rw failed next))
            | inr (inl collision) ↦ elim (Bool-cases (port.reuse_existing to u)) [
              | inl own ↦ rw (copy_tries, free) (rw owned (rw collision (rw own next)))
              | inr other ↦
                  rw (copy_tries, free)
                    (rw owned
                      (rw collision (rw other (tries-preserves tries (suc attempt) u next))))
            ]
          ]
        ]
      ]

  pub copy-preserves :
      (first_attempt : ℕ) (s : S)
      → P s
      → P (copy_to_free_name port from folder name_for_attempt first_attempt s).0
  copy-preserves first_attempt s h =
      unfold copy_to_free_name in tries-preserves 20 first_attempt s h
