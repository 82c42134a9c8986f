-- ===== src/Queue/Attempts.antt =====
-- processClaimedSubmission of services/submissionQueue.js: when the pipeline runs, and when a
-- submission is tried again.
use emlynk_wabot.Prelude.{
  ℕ, ◌≤◌, ◌<◌, ◌≡◌, ◌≢◌, Bool, true, false, Option, none, some, List, Text, text_eq_iff, arith, leb,
  ltb, if◌then◌else◌, refl, sym, ◌∙◌, ◌⊎◌, inl, inr, Bool-cases, Option-cases,
}
use emlynk_wabot.Queue.Table.{Row}
use emlynk_wabot.Queue.Claims.{
  Settings, Claim, Result, create_claim, is_wrong_file, give_up, retry, process_claimed_submission,
}

give_up-result :
    (c : Claim) (rows : List Row)
    → ((give_up c rows).1 ≢ Result.processed) × ((give_up c rows).1 ≢ Result.retry_later)
unfolding give_up
give_up-result c rows = ((λ h. ground arith), λ h. ground arith)

retry-result :
    (s : Settings) (now : ℕ) (c : Claim) (rows : List Row)
    → (retry s now c rows).1 ≢ Result.processed
unfolding retry
retry-result s now c rows h = ground arith

module _ {ℓ} {Buffer : Type ℓ} (sha256_hex : Buffer → Text) (has_mime_type : Text → Bool)
    (download : Text → Option Buffer) (process : Claim → Row → Buffer → List Row → List Row × Bool)
    (s : Settings) (now : ℕ) (row : Row) (rows : List Row) where
  abbrev result : Result
  result = (process_claimed_submission sha256_hex has_mime_type download process s now row rows).1

  -- What reporting "processed" rests on.
  abbrev pub IsRightFile : Type ℓ
  IsRightFile =
      (buffer : Buffer) × (download row.temporary_storage_path ≡ some buffer)
      × (has_mime_type row.temporary_storage_path ≡ true)
      × ((expected : Text) → row.file_sha256 ≡ some expected → sha256_hex buffer ≡ expected)

  not_wrong :
      (buffer : Buffer)
      → is_wrong_file sha256_hex has_mime_type row buffer ≡ false
      → (has_mime_type row.temporary_storage_path ≡ true)
        × ((expected : Text) → row.file_sha256 ≡ some expected → sha256_hex buffer ≡ expected)
  not_wrong buffer h = ground (arith, (λ (e : Text). (text_eq_iff (sha256_hex buffer) e).0))

  abbrev ran : Buffer → Result
  ran buffer =
      if (process (create_claim row) row buffer rows).1
      then Result.stale_discarded
      else Result.processed

  not_retried : (buffer : Buffer) → ran buffer ≢ Result.retry_later
  not_retried buffer h = ground arith

  branches :
      (result ≡ (give_up (create_claim row) rows).1)
      ⊎ ((result ≡ (retry s now (create_claim row) rows).1)
          × (row.attempts < s.max_attempts)
          × (download row.temporary_storage_path ≡ none))
      ⊎ ((buffer : Buffer) × (result ≡ ran buffer)
          × (row.attempts ≤ s.max_attempts)
          × (download row.temporary_storage_path ≡ some buffer)
          × (is_wrong_file sha256_hex has_mime_type row buffer ≡ false))
  unfolding process_claimed_submission
  branches = elim (Bool-cases (ltb s.max_attempts row.attempts)) [
    | inl over ↦ inl (rw (result, over) refl)
    | inr within ↦ elim (Option-cases (download row.temporary_storage_path)) [
      | inl missing ↦ elim (Bool-cases (leb s.max_attempts row.attempts)) [
        | inl last ↦ inl (rw (result, within) (rw missing (rw last refl)))
        | inr left ↦
            inr (inl (rw (result, within) (rw missing (rw left refl)), ground arith, missing))
      ]
      | inr (buffer, found) ↦
          elim (Bool-cases (is_wrong_file sha256_hex has_mime_type row buffer)) [
            | inl wrong ↦ inl (rw (result, within) (rw found (rw wrong refl)))
            | inr right ↦ inr (
                inr (
                  buffer,
                  rw (result, within) (rw found (rw right refl)),
                  ground arith,
                  found,
                  right,
                ))
          ]
    ]
  ]

  -- A submission is reported as processed only within the allowed attempts and on a file of known type
  -- whose checksum, if one was recorded, is the one received; it is put off for another try only while
  -- an attempt is left and its file could not be loaded.
  pub process-within_attempts :
      (result ≡ Result.processed → (row.attempts ≤ s.max_attempts) × IsRightFile)
      × (result ≡ Result.retry_later
          → (row.attempts < s.max_attempts) × (download row.temporary_storage_path ≡ none))
  process-within_attempts = elim branches [
    | inl e ↦ (
      λ h. absurd ((give_up-result (create_claim row) rows).0 (sym e ∙ h)),
      λ h. absurd ((give_up-result (create_claim row) rows).1 (sym e ∙ h)),
    )
    | inr (inl (e, left, missing)) ↦
        (λ h. absurd (retry-result s now (create_claim row) rows (sym e ∙ h)), λ h. (left, missing))
    | inr (inr (buffer, e, within, found, right)) ↦ (
      λ h. (within, (buffer, found, (not_wrong buffer right).0, (not_wrong buffer right).1)),
      λ h. absurd (not_retried buffer (sym e ∙ h)),
    )
  ]
