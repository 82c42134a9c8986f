-- ===== src/Storage/Client/Safe.antt =====
-- services/clientDocumentService.js: storeClientDocument and the objects of documents on record.
use emlynk_wabot.Prelude.{
  ℕ, ◌+◌, ◌≡◌, ◌≢◌, ◌⊎◌, inl, inr, Bool, true, false, Option, none, some, Text, is_some, refl, sym,
  ◌∙◌, subst, Bool-cases, Option-cases,
}
use emlynk_wabot.Storage.Documents.{Document, VerificationStatus, verification_status_for_band}
use emlynk_wabot.Storage.Copy.{CopyResult, copy_to_free_name}
use emlynk_wabot.Storage.Copy.Preserves.{copy-preserves}
use emlynk_wabot.Storage.World.{Bucket, World, refers, renew_held, placement_port}
use emlynk_wabot.Storage.Client.{
  Filing, Inserted, insert, committed, remove_copy, violates, document, count_documents,
  insert_claimed, clean_up, record_copy, copied, store_client_document,
}
use emlynk_wabot.Storage.Client.Sound.{
  IsBucket, renew-same, IsSound, renew-IsSound, copy-IsSound, hook-IsSound, IsSafe, object_in,
}

module _ {ℓ κ} {B : Type ℓ} {Content : Type κ} (ops : Bucket B Content)
    (object : B → Text → Option Content) (laws : IsBucket ops object) (clock : ℕ → ℕ) where
  module _ (fails : Document → Bool) where
    insert-same :
        (d : Document) (w : World B)
        → (((insert ops clock fails d w).0).bucket ≡ w.bucket)
          × (((insert ops clock fails d w).0).held ≡ w.held)
          × ((insert ops clock fails d w).1 ≢ Inserted.inserted
              → ((insert ops clock fails d w).0).documents ≡ w.documents)
    insert-same d w = elim (Bool-cases (violates d w.documents)) [
      | inl violated ↦ rw violated (refl, refl, λ n. refl)
      | inr unique ↦ elim (Bool-cases (fails d)) [
        | inl failed ↦ rw unique (rw failed (refl, refl, λ n. refl))
        | inr ok ↦ rw unique (rw ok (refl, refl, λ n. absurd (n refl)))
      ]
    ]

    committed-same :
        (v : World B) (r : World B × Inserted)
        → (((committed ops clock fails v r).0).bucket ≡ (r.0).bucket)
          × (((committed ops clock fails v r).0).held ≡ (r.0).held)
          × ((committed ops clock fails v r).1 ≢ Inserted.inserted
              → ((committed ops clock fails v r).0).documents ≡ v.documents)
    committed-same v (w, Inserted.inserted) = (refl, refl, λ n. absurd (n refl))
    committed-same v (w, Inserted.unique_violation) = (refl, refl, λ n. refl)
    committed-same v (w, Inserted.failed) = (refl, refl, λ n. refl)
    committed-same v (w, Inserted.lost) = (refl, refl, λ n. refl)

    -- With a claim: the bucket and the claim stay, and without an insert the documents.
    claimed-insert :
        (d : Document) (w : World B)
        → is_some w.held ≡ true
        → (((insert_claimed ops clock fails d w).0).bucket ≡ w.bucket)
          × (is_some ((insert_claimed ops clock fails d w).0).held ≡ true)
          × ((insert_claimed ops clock fails d w).1 ≢ Inserted.inserted
              → ((insert_claimed ops clock fails d w).0).documents ≡ w.documents)
    unfolding insert_claimed
    claimed-insert d w held =
        let t = (renew_held ops clock none w).0 in
        let (bucket, documents, claim) = renew-same ops object laws clock none w in
        let (b1, h1, d1) = insert-same d t in
        let (b2, h2, d2) = committed-same w (insert ops clock fails d t) in
        elim (Bool-cases (renew_held ops clock none w).1) [
          | inl owned ↦
              rw (insert_claimed, held)
                (rw owned (
                  b2 ∙ (b1 ∙ bucket),
                  subst (λ h. is_some h ≡ true) (sym (h2 ∙ h1)) (claim ∙ held),
                  d2,
                ))
          | inr lost ↦ rw (insert_claimed, held) (rw lost (bucket, claim ∙ held, λ n. refl))
        ]

    insert-IsSound :
        (d : Document) (v w : World B)
        → IsSound ops object laws clock v w
        → (insert_claimed ops clock fails d w).1 ≢ Inserted.inserted
        → IsSound ops object laws clock v (insert_claimed ops clock fails d w).0
    insert-IsSound d v w sound n =
        let (bucket, claim, documents) = claimed-insert d w sound.claimed in
        record {
          documents = documents n ∙ sound.documents;
          claimed = claim;
          kept = λ q x h. subst (λ b. object b q ≡ some x) (sym bucket) (sound.kept q x h);
        }

    removes :
        (path : Text) (answer : Inserted) (v w : World B)
        → IsSound ops object laws clock v w
        → refers path w.documents ≡ false
        → IsSafe ops object laws clock v (remove_copy ops clock fails path answer w).0
    removes path answer v w sound unused q x used h =
        let differs : path ≢ q =
          λ e. let n = rw (e, sound.documents) at unused in absurd (cc (n, used)) in
        laws.remove_others path q w.bucket differs ∙ sound.kept q x h

    clean_up-IsSafe :
        (path : Text) (answer : Inserted) (v w : World B)
        → IsSound ops object laws clock v w
        → IsSafe ops object laws clock v (clean_up ops clock fails path answer w).0
    unfolding clean_up
    clean_up-IsSafe path answer v w sound q x used h =
        let t = (renew_held ops clock none w).0 in
        let renewed = renew-IsSound ops object laws clock none v w sound in
        elim (Bool-cases (renew_held ops clock none w).1) [
          | inr lost ↦ rw (clean_up, sound.claimed) (rw lost (renewed.kept q x h))
          | inl owned ↦ elim (Bool-cases (refers path t.documents)) [
            | inl in_use ↦ rw (clean_up, sound.claimed) (rw owned (rw in_use (renewed.kept q x h)))
            | inr unused ↦
                rw (clean_up, sound.claimed)
                  (rw owned (rw unused (removes path answer v t renewed unused q x used h)))
          ]
        ]

    Inserted-cases :
        (a : Inserted)
        → (a ≡ Inserted.inserted)
          ⊎ (a ≡ Inserted.lost)
          ⊎ (a ≡ Inserted.unique_violation)
          ⊎ (a ≡ Inserted.failed)
    Inserted-cases Inserted.inserted = inl refl
    Inserted-cases Inserted.lost = inr (inl refl)
    Inserted-cases Inserted.unique_violation = inr (inr (inl refl))
    Inserted-cases Inserted.failed = inr (inr (inr refl))

    record_copy-IsSafe :
        (f : Filing) (status : VerificationStatus) (v : World B) (r : World B × CopyResult)
        → IsSound ops object laws clock v r.0
        → IsSafe ops object laws clock v (record_copy ops clock fails f status r).0
    unfolding record_copy
    record_copy-IsSafe f status v (w, CopyResult.claim_lost) sound q x used h = sound.kept q x h
    record_copy-IsSafe f status v (w, CopyResult.storage_error) sound q x used h = sound.kept q x h
    record_copy-IsSafe f status v (w, CopyResult.no_free_name) sound q x used h = sound.kept q x h
    record_copy-IsSafe f status v (w, CopyResult.placed path n reused) sound q x used h =
        let d = document ops clock fails f status path in
        let a = insert_claimed ops clock fails d w in
        let (bucket, _, _) = claimed-insert d w sound.claimed in
        let there : object_in ops object laws clock a.0 q ≡ some x =
          subst (λ b. object b q ≡ some x) (sym bucket) (sound.kept q x h) in
        elim (Inserted-cases a.1) [
          | inl ok ↦ rw (record_copy, ok) there
          | inr (inl lost) ↦ rw (record_copy, lost) there
          | inr (inr (inl twice)) ↦
              rw (record_copy, twice)
                (clean_up-IsSafe path Inserted.unique_violation v a.0
                  (insert-IsSound d v w sound (λ e. cc (e, twice))) q x used h)
          | inr (inr (inr failed)) ↦
              rw (record_copy, failed)
                (clean_up-IsSafe path Inserted.failed v a.0
                  (insert-IsSound d v w sound (λ e. cc (e, failed))) q x used h)
        ]

    start : (w : World B) → is_some w.held ≡ true → IsSound ops object laws clock w w
    start w held = record { documents = refl; claimed = held; kept = λ q x h. h }

    standard :
        (f : Filing) (w : World B)
        → is_some w.held ≡ true
        → IsSound ops object laws clock w
            (copy_to_free_name
              (placement_port ops clock f.file_sha256)
              f.temporary_storage_path
              f.folder
              f.standard_name
              (count_documents f.passport_id f.document_type w.documents + 1)
              w).0
    standard f w held =
        copy-preserves (placement_port ops clock f.file_sha256) f.temporary_storage_path f.folder
          f.standard_name (λ t. IsSound ops object laws clock w t)
          (λ to t sound.
            copy-IsSound ops object laws clock f.file_sha256 f.temporary_storage_path to w t sound)
          (λ to t sound. hook-IsSound ops object laws clock f.file_sha256 to w t sound)
          (count_documents f.passport_id f.document_type w.documents + 1) w (start w held)

    copied-IsSound :
        (f : Filing) (status : VerificationStatus) (w : World B)
        → is_some w.held ≡ true
        → IsSound ops object laws clock w (copied ops clock fails f status w).0
    copied-IsSound f VerificationStatus.review_required w held =
        copy-preserves (placement_port ops clock f.file_sha256) f.temporary_storage_path f.folder
          f.kept_name (λ t. IsSound ops object laws clock w t)
          (λ to t sound.
            copy-IsSound ops object laws clock f.file_sha256 f.temporary_storage_path to w t sound)
          (λ to t sound. hook-IsSound ops object laws clock f.file_sha256 to w t sound) 1 w
          (start w held)
    copied-IsSound f VerificationStatus.verified w held = standard f w held
    copied-IsSound f VerificationStatus.superseded w held = standard f w held

    store-IsSafe :
        (f : Filing) (w : World B)
        → is_some w.held ≡ true
        → IsSafe ops object laws clock w (store_client_document ops clock fails f w).0
    unfolding store_client_document
    store-IsSafe f w held q x used h = elim (Option-cases (verification_status_for_band f.band)) [
      | inl unstorable ↦ rw (store_client_document, unstorable) h
      | inr (status, band) ↦
          rw (store_client_document, band)
            (record_copy-IsSafe f status w (copied ops clock fails f status w)
              (copied-IsSound f status w held) q x used h)
    ]

-- For a worker that holds a claim, over a bucket that keeps its objects: filing a document under a client, however it ends (a lost claim, a
-- duplicate, an error of the storage or of the database, and the removal of the copy then), leaves
-- every stored file that a document on record refers to as it was; and so does all that follows the
-- copy, from any state to which others have led the tables and the bucket since the copy, for the
-- documents on record in that state, also if one refers to the copy itself.
pub store_client_document-IsSafe {ℓ κ} :
    {B : Type ℓ} {Content : Type κ} (ops : Bucket B Content) (object : B → Text → Option Content)
    → IsBucket ops object
    → (clock : ℕ → ℕ) (fails : Document → Bool) (f : Filing) (w : World B) → is_some w.held ≡ true
    → (path : Text) (x : Content) → refers path w.documents ≡ true
    → object w.bucket path ≡ some x
    → (later : World B) → is_some later.held ≡ true
    → (status : VerificationStatus) (copy : CopyResult) (other : Text) (y : Content)
    → refers other later.documents ≡ true
    → object later.bucket other ≡ some y
    → (object ((store_client_document ops clock fails f w).0).bucket path ≡ some x)
      × (object ((record_copy ops clock fails f status (later, copy)).0).bucket other ≡ some y)
store_client_document-IsSafe ops object laws clock fails f w held path x used h later held' status
      copy other y used' h' =
    (
      store-IsSafe ops object laws clock fails f w held path x used h,
      record_copy-IsSafe ops object laws clock fails f status later (later, copy)
          (start ops object laws clock fails later held') other y used' h',
    )
