-- ===== src/Storage/Tests.antt =====
-- The theorems on the storage, at a small disk.
use saas_genai_starter.Common.{ℕ, ◌≡◌, refl, [], ◌∷◌, codes}
use saas_genai_starter.Core.Action.{ok}
use saas_genai_starter.Chunking.Words.{is_space}
use saas_genai_starter.Storage.Paths.{
  ResolvedPath, push, names, is_blank, is_absolute, enter, walk, joined, is_relative_to, resolve,
}
use saas_genai_starter.Storage.Disk.{Disk, file_at, has_file, write, save_at, save, load}
use saas_genai_starter.Storage.Confined.{Below, saving, deleting, serve_blobs, serve_blobs-Below}
use saas_genai_starter.Storage.Tenancy.{storage_path, IsPlain, climbing, upload_climbs}

abbrev root : ResolvedPath
root = codes "data" ∷ []

-- another program's file, beside the root
abbrev outside : ResolvedPath
outside = codes "etc" ∷ []

abbrev disk : Disk ℕ
disk = record { files = (outside, 1) ∷ []; directories = [] ∷ root ∷ [] }

outside-apart : ¬ Below root outside
unfolding is_relative_to
outside-apart b = absurd (cc (b.0))

serve_blobs-Below_example :
    file_at outside
      (serve_blobs root (saving (codes "../etc") 5 ∷ deleting (codes "/etc") ∷ []) disk).files
    ≡ file_at outside disk.files
serve_blobs-Below_example =
    serve_blobs-Below root (saving (codes "../etc") 5 ∷ deleting (codes "/etc") ∷ []) disk outside
      outside-apart

a-IsPlain : IsPlain (codes "a")
unfolding is_blank is_space
a-IsPlain = record {
  no_slash = (refl, tt);
  visible = refl;
  not_empty = refl;
  not_dot = refl;
  not_dots = refl;
}

b-IsPlain : IsPlain (codes "b")
unfolding is_blank is_space
b-IsPlain = record {
  no_slash = (refl, tt);
  visible = refl;
  not_empty = refl;
  not_dot = refl;
  not_dots = refl;
}

abbrev climbed : Disk ℕ
unfolding push names is_blank is_space is_absolute enter walk joined is_relative_to resolve has_file
    write save_at save storage_path
climbed =
    (save root
      (storage_path (codes "a") (codes "a") (climbing root (codes "b") (codes "a") (codes "f"))) 7
      disk).1

climbed_save :
    save root
      (storage_path (codes "a") (codes "a") (climbing root (codes "b") (codes "a") (codes "f")))
      7
      disk
    ≡ (ok tt, climbed)
unfolding push names is_blank is_space is_absolute enter walk joined is_relative_to resolve has_file
    write save_at save storage_path
climbed_save = refl

upload_climbs_example : load root (storage_path (codes "b") (codes "a") (codes "f")) climbed ≡ ok 7
upload_climbs_example =
    upload_climbs root (codes "a") (codes "a") (codes "b") (codes "a") (codes "f") 7 disk climbed
      a-IsPlain a-IsPlain b-IsPlain climbed_save
