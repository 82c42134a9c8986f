-- ===== src/Storage/Copy.antt =====
-- services/permanentStorageService.js: copyToFreeName.
pub mod Keeps
pub mod Preserves
use emlynk_wabot.Prelude.{
  ℕ, zero, suc, ◌+◌, Bool, true, false, Option, none, some, List, [], ◌∷◌, ◌++◌, Text, codes,
  if◌then◌else◌,
}

-- storage.exists: an error that is not "not found" stops the copying
pub data Exists : Type 0 where
  taken free check_failed : Exists

-- storage.copy
pub data Copied : Type 0 where
  copied collision copy_failed : Copied

-- The storage and the hooks over the state `S`; `before_copy` is false when the claim is lost.
pub record Port {ℓ} (S : Type ℓ) : Type ℓ where
  pub exists : Text → S → Exists
  pub copy : Text → Text → S → S × Copied
  pub before_copy : Text → S → S × Bool
  pub reuse_existing : Text → S → Bool

-- What copyToFreeName returns or throws.
pub data CopyResult : Type 0 where
  placed : Text → ℕ → Bool → CopyResult
  claim_lost storage_error no_free_name : CopyResult

-- MAX_NAME_ATTEMPTS
abbrev pub max_name_attempts : ℕ
max_name_attempts = 20

-- `${folder}/${fileName}`
abbrev pub join_storage_path : Text → Text → Text
join_storage_path folder file_name = folder ++ (codes "/" ++ file_name)

module _ {ℓ} {S : Type ℓ} (port : Port S) (from folder : Text) (name_for_attempt : ℕ → Text) where
  abbrev pub path_of : ℕ → Text
  path_of attempt = join_storage_path folder (name_for_attempt attempt)

  -- The loop with `tries` attempts left.
  unfoldable pub copy_tries : ℕ → ℕ → S → S × CopyResult
  copy_tries zero attempt s = (s, CopyResult.no_free_name)
  copy_tries (suc tries) attempt s =
      let path = path_of attempt in
      elim (port.exists path s) [
        | Exists.check_failed ↦ (s, CopyResult.storage_error)
        | Exists.taken ↦ elim (port.reuse_existing path s) [
          | true ↦ (s, CopyResult.placed path attempt true)
          | false ↦ copy_tries tries (suc attempt) s
        ]
        | Exists.free ↦
            let before = port.before_copy path s in
            elim before.1 [
              | false ↦ (before.0, CopyResult.claim_lost)
              | true ↦
                  let after = port.copy from path before.0 in
                  elim after.1 [
                    | Copied.copied ↦ (after.0, CopyResult.placed path attempt false)
                    | Copied.copy_failed ↦ (after.0, CopyResult.storage_error)
                    | Copied.collision ↦ elim (port.reuse_existing path after.0) [
                      | true ↦ (after.0, CopyResult.placed path attempt true)
                      | false ↦ copy_tries tries (suc attempt) after.0
                    ]
                  ]
            ]
      ]

  unfoldable pub copy_to_free_name : ℕ → S → S × CopyResult
  unfolding copy_tries
  copy_to_free_name first_attempt s = copy_tries max_name_attempts first_attempt s
