-- ===== src/Tests/Bucket.antt =====
-- A bucket as a list of named files, which has the documented behaviour of the real one.
use emlynk_wabot.Prelude.{
  ◌≡◌, ◌≢◌, refl, sym, subst, ◌∙◌, true, not, none, some, Option, List, [], ◌∷◌, keep, Text,
  text_eq, text_eq_iff, text_eq_refl, Bool-cases, inl, inr, if◌then◌else◌,
}
use emlynk_wabot.Storage.Copy.{Exists, Copied}
use emlynk_wabot.Storage.World.{Bucket}
use emlynk_wabot.Storage.Client.Sound.{IsBucket}

abbrev pub Files : Type 0
Files = List (Text × Text)

abbrev pub file_at : Files → Text → Option Text
file_at [] path = none
file_at ((name, content) ∷ rest) path =
    if text_eq name path then some content else file_at rest path

-- By what stands under the new name and under the source's.
abbrev put : Text → Files → Option Text → Option Text → Files × Copied
put to files (some taken) source = (files, Copied.collision)
put to files none none = (files, Copied.copy_failed)
put to files none (some content) = ((to, content) ∷ files, Copied.copied)

abbrev copy_file : Text → Text → Files → Files × Copied
copy_file from to files = put to files (file_at files to) (file_at files from)

abbrev drop_file : Text → Files → Files
drop_file path files = keep (λ (f : Text × Text). not (text_eq f.0 path)) files

abbrev pub file_bucket : Bucket Files Text
file_bucket = record {
  exists =
      λ path files. elim (file_at files path) [ none ↦ Exists.free | some content ↦ Exists.taken ];
  copy = copy_file;
  remove = λ path files. (drop_file path files, true);
  download = λ path files. file_at files path;
  sha256_hex = λ content. content;
}

added :
    (to path content x : Text) (files : Files)
    → file_at files to ≡ none
    → file_at files path ≡ some x
    → file_at ((to, content) ∷ files) path ≡ some x
added to path content x files free h = elim (Bool-cases (text_eq to path)) [
  | inr other ↦ rw other h
  | inl same ↦
      let e = (text_eq_iff to path).0 same in
      let n : file_at files path ≡ none = subst (λ p. file_at files p ≡ none) e free in
      absurd (cc (n, h))
]

put-keeps :
    (to path x : Text) (files : Files) (taken source : Option Text)
    → file_at files to ≡ taken
    → file_at files path ≡ some x
    → file_at (put to files taken source).0 path ≡ some x
put-keeps to path x files (some y) source e h = h
put-keeps to path x files none none e h = h
put-keeps to path x files none (some content) e h = added to path content x files e h

put-makes :
    (to : Text) (files : Files) (taken source : Option Text)
    → (put to files taken source).1 ≡ Copied.copied
    → (taken ≡ none) × (file_at (put to files taken source).0 to ≡ source)
put-makes to files (some y) source h = absurd (cc h)
put-makes to files none none h = absurd (cc h)
put-makes to files none (some content) h = (refl, rw text_eq_refl refl)

copy_keeps :
    (from to path : Text) (files : Files) (x : Text)
    → file_at files path ≡ some x
    → file_at (copy_file from to files).0 path ≡ some x
copy_keeps from to path files x h =
    put-keeps to path x files (file_at files to) (file_at files from) refl h

copy_makes :
    (from to : Text) (files : Files)
    → (copy_file from to files).1 ≡ Copied.copied
    → (file_at files to ≡ none) × (file_at (copy_file from to files).0 to ≡ file_at files from)
copy_makes from to files h = put-makes to files (file_at files to) (file_at files from) h

remove_others :
    (path other : Text) (files : Files)
    → path ≢ other
    → file_at (drop_file path files) other ≡ file_at files other
remove_others path other [] n = refl
remove_others path other ((name, content) ∷ rest) n = elim (Bool-cases (text_eq name path)) [
  | inl dropped ↦ elim (Bool-cases (text_eq name other)) [
    | inl same ↦
        absurd (n (sym ((text_eq_iff name path).0 dropped) ∙ (text_eq_iff name other).0 same))
    | inr differs ↦ rw dropped (rw differs (remove_others path other rest n))
  ]
  | inr kept ↦ elim (Bool-cases (text_eq name other)) [
    | inl same ↦ rw kept (rw same refl)
    | inr differs ↦ rw kept (rw differs (remove_others path other rest n))
  ]
]

pub file_bucket-IsBucket : IsBucket file_bucket file_at
file_bucket-IsBucket = record {
  copy_keeps = copy_keeps;
  copy_makes = copy_makes;
  remove_others = remove_others;
}
