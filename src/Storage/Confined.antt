-- ===== src/Storage/Confined.antt =====
-- What the disk's operations reach, and that what was saved is loaded.
use saas_genai_starter.Common.{
  ◌≡◌, refl, sym, ap, subst, ◌∙◌, Bool, true, false, ◌&&◌, ◌||◌, Bool-cases, inl, inr, Option, none,
  some, List, [], ◌∷◌, ◌==◌, ==_iff, any,
}
use saas_genai_starter.Core.Action.{ok}
use saas_genai_starter.Chunking.Words.{Text}
use saas_genai_starter.Storage.Paths.{
  ResolvedPath, same_text, same_path, is_blank, joined, is_relative_to, resolve,
}
use saas_genai_starter.Storage.Disk.{
  Disk, parents, file_at, has_file, without_file, write, read, unlink, save_at, save, load_at, load,
  delete_at, delete,
}

and_true : (a b : Bool) → (a && b) ≡ true → (a ≡ true) × (b ≡ true)
and_true true b h = (refl, h)
and_true false b h = absurd (cc)

pub same_text_refl : (s : Text) → same_text s s ≡ true
same_text_refl [] = refl
same_text_refl (c ∷ s) = rw ((==_iff c c).1 refl) (same_text_refl s)

pub same_text_eq : (s t : Text) → same_text s t ≡ true → s ≡ t
same_text_eq [] [] h = refl
same_text_eq [] (b ∷ t) h = absurd (cc)
same_text_eq (a ∷ s) [] h = absurd (cc)
same_text_eq (a ∷ s) (b ∷ t) h =
    let (e, r) = and_true (a == b) (same_text s t) h in
    rw ((==_iff a b).0 e, same_text_eq s t r) refl

pub same_path_refl : (p : ResolvedPath) → same_path p p ≡ true
same_path_refl [] = refl
same_path_refl (n ∷ p) = rw (same_text_refl n) (same_path_refl p)

pub same_path_eq : (p q : ResolvedPath) → same_path p q ≡ true → p ≡ q
same_path_eq [] [] h = refl
same_path_eq [] (b ∷ q) h = absurd (cc)
same_path_eq (a ∷ p) [] h = absurd (cc)
same_path_eq (a ∷ p) (b ∷ q) h =
    let (e, r) = and_true (same_text a b) (same_path p q) h in
    rw (same_text_eq a b e, same_path_eq p q r) refl

-- Strictly below the root.
abbrev pub Below : ResolvedPath → ResolvedPath → Type 0
Below root p = (is_relative_to p root ≡ true) × (same_path p root ≡ false)

-- What `_resolve` returns is the joined path, and it lies below the root.
resolved :
    (root : ResolvedPath) (path : Text) (p : ResolvedPath)
    → resolve root path ≡ some p
    → (p ≡ joined root path) × Below root (joined root path)
unfolding resolve
resolved root path p e = elim (Bool-cases (is_blank path)) [
  | inl b ↦ absurd (cc (rw b at e))
  | inr b ↦ elim (Bool-cases (same_path (joined root path) root)) [
    | inl s ↦ absurd (cc (rw (b, s) at e))
    | inr s ↦ elim (Bool-cases (is_relative_to (joined root path) root)) [
      | inr o ↦ absurd (cc (rw (b, s, o) at e))
      | inl u ↦ (same (rw (b, s, u) at e), (u, s))
    ]
  ]
]
  where
    same : {a b : ResolvedPath} → some a ≡ some b → b ≡ a
    same e = cc

pub resolved_is :
    (root : ResolvedPath) (path : Text) (p : ResolvedPath)
    → resolve root path ≡ some p
    → p ≡ joined root path
resolved_is root path p e = (resolved root path p e).0

pub resolve-Below :
    (root : ResolvedPath) (path : Text) (p : ResolvedPath)
    → resolve root path ≡ some p
    → Below root p
resolve-Below root path p e =
    let (same, below) = resolved root path p e in subst (Below root) (sym same) below

pub apart : (root p q : ResolvedPath) → Below root p → ¬ Below root q → same_path q p ≡ false
apart root p q b h = elim (Bool-cases (same_path q p)) [
  | inl e ↦ absurd (h (subst (Below root) (sym (same_path_eq q p e)) b))
  | inr e ↦ e
]

-- A request to the storage.
pub data Blob (Data : Type 0) : Type 0 where
  saving : Text → Data → Blob Data
  deleting : Text → Blob Data

module _ {Data : Type 0} where
  file_at_without :
      (p q : ResolvedPath) (files : List (ResolvedPath × Data))
      → same_path q p ≡ false
      → file_at q (without_file p files) ≡ file_at q files
  unfolding file_at
  file_at_without p q [] ne = refl
  file_at_without p q ((r, d) ∷ files) ne = elim (Bool-cases (same_path p r)) [
    | inl here ↦
        rw (here, subst (λ x. same_path q x ≡ false) (same_path_eq p r here) ne)
          (file_at_without p q files ne)
    | inr off ↦ elim (Bool-cases (same_path q r)) [
      | inl at ↦ rw (off, at) refl
      | inr no_hit ↦ rw (off, no_hit) (file_at_without p q files ne)
    ]
  ]

  -- Another path than the one that is resolved: it holds what it held.
  pub write_elsewhere :
      (p q : ResolvedPath) (d : Data) (disk : Disk Data)
      → same_path q p ≡ false
      → file_at q (write p d disk).1.files ≡ file_at q disk.files
  unfolding write
  write_elsewhere p q d disk ne = elim (Bool-cases (any (has_file disk.files) (parents p))) [
    | inl e ↦ rw e refl
    | inr e ↦ elim (Bool-cases (any (same_path p) disk.directories)) [
      | inl f ↦ rw (e, f) refl
      | inr f ↦ rw (e, f) (unfold file_at in rw ne (file_at_without p q disk.files ne))
    ]
  ]

  unlink_elsewhere :
      (p q : ResolvedPath) (disk : Disk Data)
      → same_path q p ≡ false
      → file_at q (unlink p disk).1.files ≡ file_at q disk.files
  unfolding unlink
  unlink_elsewhere p q disk ne =
      elim (Bool-cases
        (any (has_file disk.files) (parents p) || any (same_path p) disk.directories)) [
          | inl e ↦ rw e refl
          | inr e ↦ rw e (file_at_without p q disk.files ne)
        ]

  written :
      (p : ResolvedPath) (d : Data) (disk after : Disk Data)
      → write p d disk ≡ (ok tt, after)
      → read p after ≡ ok d
  unfolding write read file_at
  written p d disk after e = elim (Bool-cases (any (has_file disk.files) (parents p))) [
    | inl a ↦ absurd (cc (ap (λ x. x.0) (rw a at e)))
    | inr a ↦ elim (Bool-cases (any (same_path p) disk.directories)) [
      | inl f ↦ absurd (cc (ap (λ x. x.0) (rw (a, f) at e)))
      | inr f ↦
          subst (λ k. read p k ≡ ok d) (ap (λ x. x.1) (rw (a, f) at e))
            (rw (read, file_at, same_path_refl p) refl)
    ]
  ]

  module _ (root : ResolvedPath) where
    saved_at :
        (found : Option ResolvedPath) (d : Data) (disk after : Disk Data)
        → save_at root found d disk ≡ (ok tt, after)
        → load_at root found after ≡ ok d
    unfolding save_at load_at
    saved_at none d disk after e = absurd (cc (ap (λ x. x.0) e))
    saved_at (some p) d disk after e = written p d disk after e

    -- What is saved without an error is loaded again, under the same path.
    pub load-save :
        (path : Text) (d : Data) (disk after : Disk Data)
        → save root path d disk ≡ (ok tt, after)
        → load root path after ≡ ok d
    unfolding save load
    load-save path d disk after e = saved_at (resolve root path) d disk after e

    abbrev pub serve : Blob Data → Disk Data → Disk Data
    serve (saving path d) disk = (save root path d disk).1
    serve (deleting path) disk = (delete root path disk).1

    abbrev pub serve_blobs : List (Blob Data) → Disk Data → Disk Data
    serve_blobs [] disk = disk
    serve_blobs (b ∷ bs) disk = serve_blobs bs (serve b disk)

    save_at_elsewhere :
        (found : Option ResolvedPath) (q : ResolvedPath) (d : Data) (disk : Disk Data)
        → ((p : ResolvedPath) → found ≡ some p → Below root p)
        → ¬ Below root q
        → file_at q (save_at root found d disk).1.files ≡ file_at q disk.files
    unfolding save_at
    save_at_elsewhere none q d disk b h = refl
    save_at_elsewhere (some p) q d disk b h =
        write_elsewhere p q d disk (apart root p q (b p refl) h)

    delete_at_elsewhere :
        (found : Option ResolvedPath) (q : ResolvedPath) (disk : Disk Data)
        → ((p : ResolvedPath) → found ≡ some p → Below root p)
        → ¬ Below root q
        → file_at q (delete_at root found disk).1.files ≡ file_at q disk.files
    unfolding delete_at
    delete_at_elsewhere none q disk b h = refl
    delete_at_elsewhere (some p) q disk b h =
        unlink_elsewhere p q disk (apart root p q (b p refl) h)

    -- Whatever the paths are, no sequence of saves and deletes changes a file that is not below the
    -- storage's root, and the root itself.
    pub serve_blobs-Below :
        (bs : List (Blob Data)) (disk : Disk Data) (q : ResolvedPath)
        → ¬ Below root q
        → file_at q (serve_blobs bs disk).files ≡ file_at q disk.files
    unfolding save delete
    serve_blobs-Below [] disk q h = refl
    serve_blobs-Below (saving path d ∷ bs) disk q h =
        serve_blobs-Below bs (save root path d disk).1 q h
        ∙ save_at_elsewhere (resolve root path) q d disk (resolve-Below root path) h
    serve_blobs-Below (deleting path ∷ bs) disk q h =
        serve_blobs-Below bs (delete root path disk).1 q h
        ∙ delete_at_elsewhere (resolve root path) q disk (resolve-Below root path) h
