-- ===== src/Storage/Tenancy.antt =====
-- Whose blobs an upload reaches: the `storage_path` of apps/api/src/domains/documents/router.py, as the
-- storage resolves it.
use saas_genai_starter.Common.{
  ◌≡◌, refl, sym, ap, ◌∙◌, Bool, true, false, ◌||◌, Bool-cases, inl, inr, Option, none, some, List,
  [], ◌∷◌, ◌++◌, ◌<◌, ◌==◌, length, All, arith,
}
use saas_genai_starter.Core.Action.{ok}
use saas_genai_starter.Chunking.Words.{Text, is_space}
use saas_genai_starter.Storage.Paths.{
  ResolvedPath, slash, dot, same_text, same_path, is_blank, push, names, is_absolute, enter, walk,
  joined, is_relative_to, resolve,
}
use saas_genai_starter.Storage.Disk.{Disk, file_at, save, save_at, load}
use saas_genai_starter.Storage.Confined.{
  Below, resolved_is, same_path_eq, same_path_refl, apart, write_elsewhere, load-save,
}

-- `f"{tenant.organization_id}/{document_id}/{name}"`
unfoldable pub storage_path : Text → Text → Text → Text
storage_path org id name = org ++ slash ∷ (id ++ slash ∷ name)

-- A name for one directory or file: it has a character and no slash, is not only spaces, and is neither
-- `.` nor `..`.
pub record IsPlain (s : Text) : Type 0 where
  pub no_slash : All (λ c. (c == slash) ≡ false) s
  pub visible : is_blank s ≡ false
  pub not_empty : same_text s [] ≡ false
  pub not_dot : same_text s (dot ∷ []) ≡ false
  pub not_dots : same_text s (dot ∷ dot ∷ []) ≡ false

names-plain :
    (s t : Text) → All (λ c. (c == slash) ≡ false) s → names (s ++ slash ∷ t) ≡ s ∷ names t
unfolding names push
names-plain [] t h = refl
names-plain (c ∷ s) t h = rw (h.0, names-plain s t h.1) refl

names-last : (s : Text) → All (λ c. (c == slash) ≡ false) s → names s ≡ s ∷ []
unfolding names push
names-last [] h = refl
names-last (c ∷ s) h = rw (h.0, names-last s h.1) refl

enter_plain : (s : Text) (p : ResolvedPath) → IsPlain s → enter s p ≡ s ∷ p
unfolding enter
enter_plain s p h = rw (h.not_empty, h.not_dot, h.not_dots) refl

-- A path that begins with a plain name is neither absolute nor blank.
relative : (s t : Text) → IsPlain s → is_absolute (s ++ t) ≡ false
unfolding is_absolute
relative [] t h = absurd (cc (h.not_empty))
relative (c ∷ s) t h = h.no_slash.0

visible_more : (s t : Text) → is_blank s ≡ false → is_blank (s ++ t) ≡ false
unfolding is_blank
visible_more [] t h = absurd (cc)
visible_more (c ∷ s) t h = elim (Bool-cases (is_space c)) [
  | inl e ↦ rw e (visible_more s t (rw e at h))
  | inr e ↦ rw e refl
]

walk_plain :
    (s : Text) (ns : List Text) (p : ResolvedPath) → IsPlain s → walk (s ∷ ns) p ≡ walk ns (s ∷ p)
unfolding walk
walk_plain s ns p h = rw (enter_plain s p h) refl

module _ (root : ResolvedPath) where
  joined_plain : (s t : Text) → IsPlain s → joined root (s ++ slash ∷ t) ≡ walk (names t) (s ∷ root)
  unfolding joined
  joined_plain s t h =
      rw (names-plain s t h.no_slash, relative s (slash ∷ t) h) (walk_plain s (names t) root h)

  joined_upload :
      (org id name : Text)
      → IsPlain org
      → IsPlain id
      → joined root (storage_path org id name) ≡ walk (names name) (id ∷ org ∷ root)
  unfolding storage_path
  joined_upload org id name o i =
      joined_plain org (id ++ slash ∷ name) o
      ∙ rw (names-plain id name i.no_slash) (walk_plain id (names name) (org ∷ root) i)

  -- The path of an upload whose file name is plain.
  joined_own :
      (org id name : Text)
      → IsPlain org
      → IsPlain id
      → IsPlain name
      → joined root (storage_path org id name) ≡ name ∷ id ∷ org ∷ root
  unfolding walk
  joined_own org id name o i n =
      joined_upload org id name o i
      ∙ rw (names-last name n.no_slash) (walk_plain name [] (id ∷ org ∷ root) n)

  -- `../../` in front of another document's storage path
  abbrev pub climbing : Text → Text → Text → Text
  climbing org id name = dot ∷ dot ∷ slash ∷ dot ∷ dot ∷ slash ∷ storage_path org id name

  -- The two `..` lead back to the root.
  climbed :
      (a i b j name : Text)
      → walk (names (climbing b j name)) (i ∷ a ∷ root) ≡ walk (names (storage_path b j name)) root
  unfolding names push walk enter
  climbed a i b j name = refl

  joined-climbing :
      (a i b j name : Text)
      → IsPlain a
      → IsPlain i
      → IsPlain b
      → joined root (storage_path a i (climbing b j name)) ≡ joined root (storage_path b j name)
  joined-climbing a i b j name ha hi hb =
      joined_upload a i (climbing b j name) ha hi
      ∙ climbed a i b j name
      ∙ (unfold storage_path joined in rw (relative b (slash ∷ (j ++ slash ∷ name)) hb) refl)

  resolve-climbing :
      (a i b j name : Text)
      → IsPlain a
      → IsPlain i
      → IsPlain b
      → resolve root (storage_path a i (climbing b j name)) ≡ resolve root (storage_path b j name)
  unfolding resolve
  resolve-climbing a i b j name ha hi hb =
      rw
        (joined-climbing a i b j name ha hi hb, blank a i (climbing b j name) ha, blank b j name hb)
        refl
    where
      blank : (s t u : Text) → IsPlain s → is_blank (storage_path s t u) ≡ false
      blank s t u h = unfold storage_path in visible_more s (slash ∷ (t ++ slash ∷ u)) h.visible

  -- The file of an upload is below the directory of its organization.
  own-Below : (org id name : Text) → Below (org ∷ root) (name ∷ id ∷ org ∷ root)
  own-Below org id name = (
    (unfold is_relative_to in or_right _ _ (or_right _ _ (under (org ∷ root)))),
    longer (name ∷ id ∷ org ∷ root) (org ∷ root) (omega arith),
  )
    where
      or_right : (a b : Bool) → b ≡ true → (a || b) ≡ true
      or_right true b h = refl
      or_right false b h = h

      longer : (p q : ResolvedPath) → length q < length p → same_path p q ≡ false
      longer p q h = elim (Bool-cases (same_path p q)) [
        | inl e ↦ absurd (omega (arith, ap length (same_path_eq p q e), h))
        | inr e ↦ e
      ]

      under : (p : ResolvedPath) → is_relative_to p p ≡ true
      under [] = unfold is_relative_to in refl
      under (n ∷ p) = unfold is_relative_to in rw (same_path_refl (n ∷ p)) refl

  resolve_own :
      (org id name : Text) (p : ResolvedPath)
      → IsPlain org
      → IsPlain id
      → IsPlain name
      → resolve root (storage_path org id name) ≡ some p
      → p ≡ name ∷ id ∷ org ∷ root
  resolve_own org id name p o i n e =
      resolved_is root (storage_path org id name) p e ∙ joined_own org id name o i n

  module _ {Data : Type 0} where
    -- The file name of an upload is the client's. With two `..` in front of another document's path,
    -- of any tenant, the upload replaces that document's blob: what is loaded for it is then the
    -- uploaded data.
    pub upload_climbs :
        (a i b j name : Text) (bytes : Data) (disk after : Disk Data)
        → IsPlain a
        → IsPlain i
        → IsPlain b
        → save root (storage_path a i (climbing b j name)) bytes disk ≡ (ok tt, after)
        → load root (storage_path b j name) after ≡ ok bytes
    unfolding load
    upload_climbs a i b j name bytes disk after ha hi hb e =
        rw (sym (resolve-climbing a i b j name ha hi hb))
          (load-save root (storage_path a i (climbing b j name)) bytes disk after e)

    saved_own :
        (found : Option ResolvedPath) (org id name : Text) (bytes : Data) (disk : Disk Data)
        (q : ResolvedPath)
        → ((p : ResolvedPath) → found ≡ some p → p ≡ name ∷ id ∷ org ∷ root)
        → ¬ Below (org ∷ root) q
        → file_at q (save_at root found bytes disk).1.files ≡ file_at q disk.files
    unfolding save_at
    saved_own none org id name bytes disk q own h = refl
    saved_own (some p) org id name bytes disk q own h =
        write_elsewhere p q bytes disk (
          rw (own p refl) (apart (org ∷ root) (name ∷ id ∷ org ∷ root) q (own-Below org id name) h))

    -- Where the file name of an upload is plain, its save changes no file outside the directory of the
    -- uploader's organization.
    pub upload_stays :
        (org id name : Text) (bytes : Data) (disk : Disk Data) (q : ResolvedPath)
        → IsPlain org
        → IsPlain id
        → IsPlain name
        → ¬ Below (org ∷ root) q
        → file_at q (save root (storage_path org id name) bytes disk).1.files ≡ file_at q disk.files
    unfolding save
    upload_stays org id name bytes disk q o i n h =
        saved_own (resolve root (storage_path org id name)) org id name bytes disk q
          (λ p e. resolve_own org id name p o i n e) h
