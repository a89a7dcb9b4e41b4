-- ===== src/Tests/Archives.antt =====
-- An archive of a program and one asset.
use open_scm.Prelude.{ℕ, ◌≡◌, refl, List, [], ◌∷◌, Option, none, some, arith, if◌then◌else◌, map}
use open_scm.Prelude.Text.{Text, codes, text_eq}
use open_scm.Prelude.Result.{ok, err}
use open_scm.Bytes.{w16, w32}
use open_scm.Archive.{
  base_name, after_last, file_entry, file_size, copy_file, asset_entries, copy_assets,
  archive_header, build_scmr,
}
use open_scm.Archive.Reader.{read_archive}
use open_scm.Archive.RoundTrip.{contents, asset, AllNamed, read_archive-build_scmr}

abbrev disk : Text → Option (List ℕ)
disk path =
    if text_eq path (codes "game.scmlbin")
    then some (1 ∷ 0 ∷ [])
    else if text_eq path (codes "art/ui/logo.png")
    then some (9 ∷ 8 ∷ 7 ∷ [])
    else none

abbrev assets : List Text
assets = codes "art/ui/logo.png" ∷ []

logo-base_name : base_name (codes "art/ui/logo.png") ≡ codes "logo.png"
unfolding base_name after_last
logo-base_name = refl

abbrev archive : List ℕ
archive = elim (build_scmr disk (codes "game.scmlbin") assets) [ ok bytes ↦ bytes | err e ↦ [] ]

archive-build_scmr : build_scmr disk (codes "game.scmlbin") assets ≡ ok archive
unfolding build_scmr file_size copy_file asset_entries copy_assets base_name after_last
    archive_header file_entry w16 w32
archive-build_scmr = refl

read_archive-build_scmr_example :
    (read_archive archive
      ≡ some (
          record {
            name = codes "app.scmlbin";
            kind = 1;
            body = contents disk (codes "game.scmlbin");
          }
          ∷ map (asset disk) assets))
    × AllNamed disk assets
read_archive-build_scmr_example =
    read_archive-build_scmr disk (codes "game.scmlbin") assets archive (omega arith)
      archive-build_scmr
