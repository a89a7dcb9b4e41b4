-- ===== src/Archive.antt =====
-- compiler/scmr.c: the archive of a program and its assets. The files are a parameter, from a path
-- to the contents of the file, `none` for one that cannot be opened; they are taken to stay as they
-- are while the archive is written, so that its own path is none of the inputs. What is left of the
-- output after an error is not modelled.
pub mod Reader
pub mod RoundTrip
use mathlib.Core.Option
use open_scm.Prelude.{
  ℕ, suc, ◌-◌, ◌^◌, ◌||◌, List, [], ◌∷◌, ◌++◌, Option, none, some, ltb, ◌==◌, if◌then◌else◌, length,
}
use open_scm.Prelude.Text.{Text, codes}
use open_scm.Prelude.Result.{Result, ok, err, ◌>>=◌, ◌>>◌, reject_if}
use open_scm.Bytes.{w16, w32}

pub data ArchiveError : Type 0 where
  cannot_open file_too_large : Text → ArchiveError
  asset_name_too_long : ArchiveError

-- SCMR_MAGIC and SCMR_VERSION.
abbrev pub scmr_magic : ℕ
scmr_magic = 0x524d4353

abbrev pub scmr_version : ℕ
scmr_version = 1

-- What stands behind the last separator of a path, if it has one.
unfoldable pub after_last : Text → Option Text
after_last [] = none
after_last (c ∷ s) = elim (after_last s) [
  | some name ↦ some name
  | none ↦ if c == b'/' || c == b'\\' then some s else none
]

unfoldable pub base_name : Text → Text
unfolding after_last
base_name path = Option.get_or (after_last path) path

-- The name, kind and size of a file of the archive.
unfoldable pub file_entry : Text → ℕ → ℕ → List ℕ
file_entry name kind size = w16 (length name) ++ (name ++ (w32 kind ++ w32 size))

module _ (files : Text → Option (List ℕ)) where
  unfoldable pub file_size : Text → Result ArchiveError ℕ
  file_size path = elim (files path) [
    | none ↦ err (cannot_open path)
    | some bytes ↦ do
      reject_if (ltb (2 ^ 32 - 1) (length bytes)) (file_too_large path)
      ok (length bytes)
  ]

  unfoldable pub copy_file : Text → Result ArchiveError (List ℕ)
  copy_file path = elim (files path) [ none ↦ err (cannot_open path) | some bytes ↦ ok bytes ]

  -- The loop over the assets that writes their entries.
  unfoldable pub asset_entries : List Text → Result ArchiveError (List ℕ)
  unfolding base_name file_size file_entry
  asset_entries [] = ok []
  asset_entries (path ∷ paths) = do
    reject_if (ltb 65535 (length (base_name path))) asset_name_too_long
    size ← file_size path
    rest ← asset_entries paths
    ok (file_entry (base_name path) 2 size ++ rest)

  -- The loop that copies them.
  unfoldable pub copy_assets : List Text → Result ArchiveError (List ℕ)
  unfolding copy_file
  copy_assets [] = ok []
  copy_assets (path ∷ paths) = do
    bytes ← copy_file path
    rest ← copy_assets paths
    ok (bytes ++ rest)

  unfoldable pub archive_header : ℕ → List ℕ
  archive_header count = w32 scmr_magic ++ (w16 scmr_version ++ (w16 0 ++ w32 count))

  unfoldable pub build_scmr : Text → List Text → Result ArchiveError (List ℕ)
  unfolding file_size asset_entries copy_file copy_assets archive_header file_entry
  build_scmr script assets = do
    script_size ← file_size script
    entries ← asset_entries assets
    program ← copy_file script
    payloads ← copy_assets assets
    ok (
        archive_header (suc (length assets))
        ++ (file_entry (codes "app.scmlbin") 1 script_size ++ (entries ++ (program ++ payloads))))
