-- ===== src/Storage/Copy/Keeps.antt =====
-- services/permanentStorageService.js: copyToFreeName and the objects of the bucket.
use emlynk_wabot.Prelude.{
  ℕ, zero, suc, ◌+◌, ◌≤◌, ◌<◌, ◌≡◌, ◌≢◌, ◌⊎◌, inl, inr, Bool, true, false, Option, none, some, Text,
  arith, ◌==◌, ==_iff, refl, subst, ◌∙◌, Bool-cases, Option-cases,
}
use emlynk_wabot.Storage.Copy.{
  Exists, Copied, Port, CopyResult, copy_tries, copy_to_free_name, path_of,
}

-- What the code relies on of the storage: the objects are as `object` says, a copy never replaces an
-- object, a copy that succeeds has made the same object under a name that had none, a copy that fails
-- has changed nothing, and the hook writes no object.
pub record IsStorage {ℓ κ} {S : Type ℓ} {Content : Type κ} (port : Port S)
    (object : S → Text → Option Content) : Type (ℓ ⊔ κ) where
  pub copy_keeps :
      (from to path : Text) (s : S) (x : Content)
      → object s path ≡ some x
      → object (port.copy from to s).0 path ≡ some x
  pub copy_makes :
      (from to : Text) (s : S)
      → (port.copy from to s).1 ≡ Copied.copied
      → (object s to ≡ none) × (object (port.copy from to s).0 to ≡ object s from)
  pub hook_keeps : (to path : Text) (s : S) → object (port.before_copy to s).0 path ≡ object s path

pub Exists-cases : (e : Exists) → (e ≡ Exists.check_failed) ⊎ (e ≡ Exists.taken) ⊎ (e ≡ Exists.free)
Exists-cases Exists.check_failed = inl refl
Exists-cases Exists.taken = inr (inl refl)
Exists-cases Exists.free = inr (inr refl)

pub Copied-cases :
    (c : Copied) → (c ≡ Copied.copied) ⊎ (c ≡ Copied.collision) ⊎ (c ≡ Copied.copy_failed)
Copied-cases Copied.copied = inl refl
Copied-cases Copied.collision = inr (inl refl)
Copied-cases Copied.copy_failed = inr (inr refl)

module _ {ℓ κ} {S : Type ℓ} {Content : Type κ} (port : Port S) (object : S → Text → Option Content)
    (from folder : Text) (name_for_attempt : ℕ → Text) where
  abbrev pub Keeps : S → S → Type κ
  Keeps s t = (path : Text) (x : Content) → object s path ≡ some x → object t path ≡ some x

  -- The attempts below this one have passed over their names.
  abbrev pub passed_over : ℕ → ℕ → CopyResult → ℕ
  passed_over attempt tries (CopyResult.placed path n reused) = n
  passed_over attempt tries CopyResult.no_free_name = attempt + tries
  passed_over attempt tries CopyResult.claim_lost = attempt
  passed_over attempt tries CopyResult.storage_error = attempt

  -- The name was taken, by the check or by a collision of the copy, and not by this file.
  abbrev pub IsTaken : S → ℕ → Type (ℓ ⊔ κ)
  IsTaken s n =
      let path = path_of port from folder name_for_attempt n in
      (t : S) × Keeps s t
      × (port.reuse_existing path t ≡ false)
      × ((port.exists path t ≡ Exists.taken)
          ⊎ ((u : S) × ((port.copy from path u).1 ≡ Copied.collision)
              × ((port.copy from path u).0 ≡ t)))

  -- Every object stays as it was; a name that is returned is one of the attempts' names, and the names
  -- before it were taken; a name that is reused has this file; and one that is not was free by the
  -- check, had no object before and has the source's object now.
  pub record IsCopy (attempt tries : ℕ) (s : S) (r : S × CopyResult) : Type (ℓ ⊔ κ) where
    pub kept : Keeps s r.0
    pub named :
        (path : Text) (n : ℕ) (reused : Bool)
        → r.1 ≡ CopyResult.placed path n reused
        → (path ≡ path_of port from folder name_for_attempt n)
          × (attempt ≤ n)
          × (n < attempt + tries)
    pub made :
        (path : Text) (n : ℕ) (x : Content)
        → r.1 ≡ CopyResult.placed path n false
        → object s from ≡ some x
        → (object s path ≡ none) × (object r.0 path ≡ some x)
    pub own :
        (path : Text) (n : ℕ)
        → r.1 ≡ CopyResult.placed path n true
        → port.reuse_existing path r.0 ≡ true
    pub asked :
        (path : Text) (n : ℕ)
        → r.1 ≡ CopyResult.placed path n false
        → (t : S) × Keeps s t × (port.exists path t ≡ Exists.free)
    pub passed : (m : ℕ) → attempt ≤ m → m < passed_over attempt tries r.1 → IsTaken s m

  -- A result that returns no new copy, over a state that keeps every object.
  stopped :
      (attempt tries : ℕ) (s t : S) (c : CopyResult)
      → Keeps s t
      → ((path : Text) (n : ℕ) (reused : Bool) → c ≢ CopyResult.placed path n reused)
      → passed_over attempt tries c ≤ attempt
      → IsCopy attempt tries s (t, c)
  stopped attempt tries s t c keeps n early = record {
    kept = keeps;
    named = λ path k reused e. absurd (n path k reused e);
    made = λ path k x e. absurd (n path k false e);
    own = λ path k e. absurd (n path k true e);
    asked = λ path k e. absurd (n path k false e);
    passed = λ m low high. absurd (omega (arith, low, high, early));
  }

  reuses :
      (attempt tries : ℕ) (s t : S)
      → Keeps s t
      → port.reuse_existing (path_of port from folder name_for_attempt attempt) t ≡ true
      → IsCopy attempt
          (suc tries)
          s
          (t, CopyResult.placed (path_of port from folder name_for_attempt attempt) attempt true)
  reuses attempt tries s t keeps mine = record {
    kept = keeps;
    named =
        λ path n reused e. let m : attempt ≡ n = cc e in (cc e, omega (arith, m), omega (arith, m));
    made = λ path n x e. absurd (cc e);
    own = λ path n e.
        let same : path_of port from folder name_for_attempt attempt ≡ path = cc e in
        subst (λ q. port.reuse_existing q t ≡ true) same mine;
    asked = λ path n e. absurd (cc e);
    passed = λ m low high. absurd (omega (arith, low, high));
  }

  none-before : (s t : S) (path : Text) → Keeps s t → object t path ≡ none → object s path ≡ none
  none-before s t path keeps h = elim (Option-cases (object s path)) [
    | inl missing ↦ missing
    | inr (x, there) ↦ absurd (cc (h, keeps path x there))
  ]

  rest-passed :
      (attempt tries m : ℕ) (c : CopyResult)
      → suc attempt ≤ m
      → m < passed_over attempt (suc tries) c
      → m < passed_over (suc attempt) tries c
  rest-passed attempt tries m (CopyResult.placed path n reused) low high = high
  rest-passed attempt tries m CopyResult.no_free_name low high = omega (arith, high)
  rest-passed attempt tries m CopyResult.claim_lost low high = omega (arith, low, high)
  rest-passed attempt tries m CopyResult.storage_error low high = omega (arith, low, high)

  earlier-IsTaken : (s t : S) (m : ℕ) → Keeps s t → IsTaken t m → IsTaken s m
  earlier-IsTaken s t m keeps (u, kept, other, why) =
      (u, (λ path x h. kept path x (keeps path x h)), other, why)

  later :
      (attempt tries : ℕ) (s t : S) (r : S × CopyResult)
      → Keeps s t
      → IsTaken s attempt
      → IsCopy (suc attempt) tries t r
      → IsCopy attempt (suc tries) s r
  later attempt tries s t r keeps taken copy = record {
    kept = λ path x h. copy.kept path x (keeps path x h);
    named = λ path n reused e.
        let (a, b, c) = copy.named path n reused e in (a, omega (arith, b), omega (arith, c));
    made = λ path n x e h.
        let (a, b) = copy.made path n x e (keeps from x h) in (none-before s t path keeps a, b);
    own = copy.own;
    asked = λ path n e.
        let (u, kept, free) = copy.asked path n e in (u, (λ q x h. kept q x (keeps q x h)), free);
    passed = λ m low high. elim (Bool-cases (attempt == m)) [
      | inl here ↦ subst (λ k. IsTaken s k) ((==_iff attempt m).0 here) taken
      | inr there ↦
          let above : suc attempt ≤ m = ground (arith, low, there) in
          earlier-IsTaken s t m keeps
            (copy.passed m above (rest-passed attempt tries m r.1 above high))
    ];
  }

  module _ (storage : IsStorage port object) where
    hook-Keeps : (to : Text) (s : S) → Keeps s (port.before_copy to s).0
    hook-Keeps to s path x h = storage.hook_keeps to path s ∙ h

    copy-Keeps : (to : Text) (s : S) → Keeps s (port.copy from to s).0
    copy-Keeps to s path x h = storage.copy_keeps from to path s x h

    abbrev both : Text → S → S
    both to s = (port.copy from to (port.before_copy to s).0).0

    both-Keeps : (to : Text) (s : S) → Keeps s (both to s)
    both-Keeps to s path x h =
        copy-Keeps to (port.before_copy to s).0 path x (hook-Keeps to s path x h)

    copies :
        (attempt tries : ℕ) (s : S)
        → (port.copy from
            (path_of port from folder name_for_attempt attempt)
            (port.before_copy (path_of port from folder name_for_attempt attempt) s).0).1
          ≡ Copied.copied
        → port.exists (path_of port from folder name_for_attempt attempt) s ≡ Exists.free
        → IsCopy attempt (suc tries) s (
          both (path_of port from folder name_for_attempt attempt) s,
          CopyResult.placed (path_of port from folder name_for_attempt attempt) attempt false,
        )
    copies attempt tries s ok unused =
        let to = path_of port from folder name_for_attempt attempt in
        let t = (port.before_copy to s).0 in
        let (free, same) = storage.copy_makes from to t ok in
        record {
          kept = both-Keeps to s;
          named = λ path n reused e.
              let m : attempt ≡ n = cc e in (cc e, omega (arith, m), omega (arith, m));
          made = λ path n x e h.
              let p : to ≡ path = cc e in
              (
                none-before s t path (hook-Keeps to s) (subst (λ q. object t q ≡ none) p free),
                subst (λ q. object (both to s) q ≡ some x) p (same ∙ hook-Keeps to s from x h),
              );
          own = λ path n e. absurd (cc e);
          asked = λ path n e.
              let p : to ≡ path = cc e in
              (s, (λ q x h. h), subst (λ q. port.exists q s ≡ Exists.free) p unused);
          passed = λ m low high. absurd (omega (arith, low, high));
        }

    tries-IsCopy :
        (tries attempt : ℕ) (s : S)
        → IsCopy attempt tries s (copy_tries port from folder name_for_attempt tries attempt s)
    unfolding copy_tries
    tries-IsCopy zero attempt s =
        stopped attempt zero s s CopyResult.no_free_name (λ path x h. h) (λ path n reused e. cc e)
          (omega arith)
    tries-IsCopy (suc tries) attempt s =
        let to = path_of port from folder name_for_attempt attempt in
        let t = (port.before_copy to s).0 in
        elim (Exists-cases (port.exists to s)) [
          | inl failed ↦
              rw (copy_tries, failed)
                (stopped attempt (suc tries) s s CopyResult.storage_error (λ path x h. h)
                  (λ path n reused e. cc e) (omega arith))
          | inr (inl taken) ↦ elim (Bool-cases (port.reuse_existing to s)) [
            | inl own ↦
                rw (copy_tries, taken) (rw own (reuses attempt tries s s (λ path x h. h) own))
            | inr other ↦
                rw (copy_tries, taken)
                  (rw other (
                    later attempt tries s s
                      (copy_tries port from folder name_for_attempt tries (suc attempt) s)
                      (λ path x h. h) (s, (λ path x h. h), other, inl taken)
                      (tries-IsCopy tries (suc attempt) s)))
          ]
          | inr (inr free) ↦ elim (Bool-cases (port.before_copy to s).1) [
            | inr lost ↦
                rw (copy_tries, free)
                  (rw lost (
                    stopped attempt (suc tries) s t CopyResult.claim_lost (hook-Keeps to s)
                      (λ path n reused e. cc e) (omega arith)))
            | inl owned ↦ elim (Copied-cases (port.copy from to t).1) [
              | inl copied ↦
                  rw (copy_tries, free) (rw owned (rw copied (copies attempt tries s copied free)))
              | inr (inr failed) ↦
                  rw (copy_tries, free)
                    (rw owned (
                      rw failed (
                        stopped attempt (suc tries) s (both to s) CopyResult.storage_error
                          (both-Keeps to s) (λ path n reused e. cc e) (omega arith))))
              | inr (inl collision) ↦ elim (Bool-cases (port.reuse_existing to (both to s))) [
                | inl own ↦
                    rw (copy_tries, free)
                      (rw owned (
                        rw collision
                          (rw own (reuses attempt tries s (both to s) (both-Keeps to s) own))))
                | inr other ↦
                    rw (copy_tries, free)
                      (rw owned (
                        rw collision (
                          rw other (
                            later attempt tries s (both to s)
                              (copy_tries port from folder name_for_attempt tries (suc attempt)
                                (both to s))
                              (both-Keeps to s)
                              (both to s, both-Keeps to s, other, inr (t, collision, refl))
                              (tries-IsCopy tries (suc attempt) (both to s))))))
              ]
            ]
          ]
        ]

-- Over a storage that keeps its objects, copying under a free name changes no object that exists; a name it returns is one of the twenty
-- names from the first attempt on, and every name before it, all twenty when no name is free, was
-- taken, by the check or by a collision, by something else than this file; a name that is reused has
-- passed the comparison with this file; and a new copy was made after the check has said that the name
-- is free, and has the source's content under a name that had no object, so that no other file is
-- replaced.
pub copy_to_free_name-IsCopy {ℓ κ} :
    {S : Type ℓ} {Content : Type κ} (port : Port S) (object : S → Text → Option Content)
    → IsStorage port object
    → (from folder : Text) (name_for_attempt : ℕ → Text) (first_attempt : ℕ) (s : S)
    → IsCopy port object from folder name_for_attempt first_attempt 20 s
        (copy_to_free_name port from folder name_for_attempt first_attempt s)
copy_to_free_name-IsCopy port object storage from folder name_for_attempt first_attempt s =
    unfold copy_to_free_name in
    tries-IsCopy port object from folder name_for_attempt storage 20 first_attempt s
