-- ===== src/Archive/RoundTrip.antt =====
-- An archive that is written is read back.
use mathlib.Core.Option
use mathlib.Core.List.{append_assoc}
use open_scm.Prelude.{
  ℕ, suc, ◌⊎◌, Bool, true, false, ◌||◌, ◌==◌, none, Bool-cases, ◌-◌, ◌^◌, ◌<◌, ◌≡◌, refl, sym, ap,
  ◌∙◌, List, [], ◌∷◌, ◌++◌, Option, some, map, arith, ltb, length, length-append, drop, take-append,
  drop-append, Option-cases, inl, inr,
}
use open_scm.Prelude.Text.{Text, codes}
use open_scm.Prelude.Result.{
  err-ne_ok, ◌>>◌, ok, >>=-eq-ok, ok-injective, reject_if, reject_if-eq-ok,
}
use open_scm.Bytes.{w16, w32, r16, r32}
use open_scm.Bytes.Laws.{r16_at, r32_at, length-w16_alone, length-w32_alone}
use open_scm.Archive.{
  scmr_magic, scmr_version, after_last, base_name, file_entry, file_size, copy_file, asset_entries,
  copy_assets, archive_header, build_scmr, file_too_large, asset_name_too_long,
}
use open_scm.Archive.Reader.{
  Entry, short_name, read_entries, read_bodies, read_archive, read_entries-file_entry, below,
}

abbrev pub is_separator : ℕ → Bool
is_separator c = c == b'/' || c == b'\\'

abbrev pub NoSeparator : Text → Type 0
NoSeparator [] = Unit
NoSeparator (c ∷ s) = (is_separator c ≡ false) × NoSeparator s

-- The path is a folder, a separator and the name.
abbrev pub IsBehind : Text → Text → Type 0
IsBehind path name =
    (folder : Text) × (c : ℕ) × (is_separator c ≡ true) × (path ≡ folder ++ c ∷ name)

-- The name has no separator, and is the path or what stands behind one in it.
abbrev pub IsLastPart : Text → Text → Type 0
IsLastPart path name = NoSeparator name × ((path ≡ name) ⊎ IsBehind path name)

after_last-cases :
    (path : Text)
    → ((after_last path ≡ none) × NoSeparator path)
      ⊎ (name : Text) × (after_last path ≡ some name) × NoSeparator name × IsBehind path name
unfolding after_last
after_last-cases [] = inl (refl, tt)
after_last-cases (c ∷ path) = elim (after_last-cases path) [
  | inl (e, clear) ↦ elim (Bool-cases (is_separator c)) [
    | inl here ↦ inr (path, rw (after_last, e, here) refl, clear, ([], c, here, refl))
    | inr other ↦ inl (rw (after_last, e, other) refl, (other, clear))
  ]
  | inr (name, e, clear, (folder, d, sep, split)) ↦
      inr (name, rw (after_last, e) refl, clear, (c ∷ folder, d, sep, ap (λ t. c ∷ t) split))
]

base_name-IsLastPart : (path : Text) → IsLastPart path (base_name path)
unfolding base_name
base_name-IsLastPart path = elim (after_last-cases path) [
  | inl (e, clear) ↦ rw (base_name, e) (clear, inl refl)
  | inr (name, e, clear, behind) ↦ rw (base_name, e) (clear, inr behind)
]

module _ (files : Text → Option (List ℕ)) where
  -- What the archive holds of a file.
  abbrev pub contents : Text → List ℕ
  contents path = Option.get_or (files path) []

  abbrev pub asset : Text → Entry (List ℕ)
  asset path = record { name = base_name path; kind = 2; body = contents path }

  -- Every asset has the last part of its path for a name.
  abbrev pub AllNamed : List Text → Type 0
  AllNamed [] = Unit
  AllNamed (path ∷ paths) = IsLastPart path (asset path).name × AllNamed paths

  assets-AllNamed : (paths : List Text) → AllNamed paths
  assets-AllNamed [] = tt
  assets-AllNamed (path ∷ paths) = (base_name-IsLastPart path, assets-AllNamed paths)

  abbrev sized : Entry (List ℕ) → Entry ℕ
  sized e = record { name = e.name; kind = e.kind; body = length e.body }

  file_size-contents :
      (path : Text) (n : ℕ)
      → file_size files path ≡ ok n
      → (n ≡ length (contents path)) × (n < 2 ^ 32)
  unfolding file_size
  file_size-contents path n h = elim (Option-cases (files path)) [
    | inl e ↦ absurd (err-ne_ok (rw (e, file_size) at h))
    | inr (bytes, e) ↦
        let chain : (do
          reject_if (ltb (2 ^ 32 - 1) (length bytes)) (file_too_large path)
          ok (length bytes))
            ≡ ok n =
          rw (e, file_size) at h in
        let (u, small, done) =
          >>=-eq-ok (reject_if (ltb (2 ^ 32 - 1) (length bytes)) (file_too_large path)) _ chain in
        let size : length bytes ≡ n = ok-injective (length bytes) n done in
        rw e (sym size, below (length bytes) n size (reject_if-eq-ok _ (file_too_large path) small))
  ]

  copy_file-contents :
      (path : Text) (bytes : List ℕ) → copy_file files path ≡ ok bytes → bytes ≡ contents path
  unfolding copy_file
  copy_file-contents path bytes h = elim (Option-cases (files path)) [
    | inl e ↦ absurd (err-ne_ok (rw (e, copy_file) at h))
    | inr (b, e) ↦ rw e (sym (ok-injective b bytes (rw (e, copy_file) at h)))
  ]

  read_entries-asset_entries :
      (paths : List Text) (bytes rest : List ℕ)
      → asset_entries files paths ≡ ok bytes
      → read_entries (length paths) (bytes ++ rest) ≡ (map sized (map asset paths), rest)
  unfolding asset_entries read_entries
  read_entries-asset_entries [] bytes rest h = rw (← ok-injective _ _ h) refl
  read_entries-asset_entries (path ∷ paths) bytes rest h =
      let (u, short, more) =
        >>=-eq-ok (reject_if (ltb 65535 (length (base_name path))) asset_name_too_long) _ h in
      let (size, sized_ok, more') = >>=-eq-ok (file_size files path) _ more in
      let (others, entries_ok, done) = >>=-eq-ok (asset_entries files paths) _ more' in
      let fits : length (base_name path) < 2 ^ 16 =
        short_name (length (base_name path)) (reject_if-eq-ok _ asset_name_too_long short) in
      let (same, small) = file_size-contents path size sized_ok in
      let whole : bytes ++ rest ≡ file_entry (base_name path) 2 size ++ (others ++ rest) =
        rw (← ok-injective _ _ done)
          (append_assoc (file_entry (base_name path) 2 size) others rest) in
      rw
        (
          whole,
          read_entries-file_entry (length paths) (base_name path) 2 size (others ++ rest) fits
              (omega arith) small,
          read_entries-asset_entries paths others rest entries_ok,
          same,
        )
        refl

  read_bodies-copy_assets :
      (paths : List Text) (bytes : List ℕ)
      → copy_assets files paths ≡ ok bytes
      → read_bodies (map sized (map asset paths)) bytes ≡ map asset paths
  unfolding copy_assets read_bodies
  read_bodies-copy_assets [] bytes h = refl
  read_bodies-copy_assets (path ∷ paths) bytes h =
      let (b, copied, more) = >>=-eq-ok (copy_file files path) _ h in
      let (others, rest_ok, done) = >>=-eq-ok (copy_assets files paths) _ more in
      let same = copy_file-contents path b copied in
      let whole : bytes ≡ contents path ++ others =
        sym (ok-injective _ _ done) ∙ ap (λ t. t ++ others) same in
      rw
        (
          whole,
          take-append (contents path) others (length (contents path)) refl,
          drop-append (contents path) others (length (contents path)) refl,
          read_bodies-copy_assets paths others rest_ok,
        )
        refl

  -- The three fields of the header, and what follows it.
  header-reads :
      (count : ℕ) (rest : List ℕ)
      → count < 2 ^ 32
      → (r32 (archive_header files count ++ rest) 0 ≡ scmr_magic)
        × (r16 (archive_header files count ++ rest) 4 ≡ scmr_version)
        × (r32 (archive_header files count ++ rest) 8 ≡ count)
        × (drop 12 (archive_header files count ++ rest) ≡ rest)
  unfolding archive_header
  header-reads count rest few =
      let magic = w32 scmr_magic in
      let behind : List ℕ = w16 0 ++ (w32 count ++ rest) in
      let split : archive_header files count ++ rest ≡ magic ++ (w16 scmr_version ++ behind) =
        simp append_assoc in
      let front : List ℕ = magic ++ (w16 scmr_version ++ w16 0) in
      let front_size : 8 ≡ length front = omega (
        arith,
        length-append magic (w16 scmr_version ++ w16 0),
        length-append (w16 scmr_version) (w16 0),
        length-w32_alone scmr_magic,
        length-w16_alone scmr_version,
        length-w16_alone 0,
      ) in
      let counted : archive_header files count ++ rest ≡ front ++ (w32 count ++ rest) =
        simp append_assoc in
      let whole : List ℕ = front ++ w32 count in
      let whole_is : archive_header files count ++ rest ≡ whole ++ rest = simp append_assoc in
      let whole_size : 12 ≡ length whole =
        omega (arith, length-append front (w32 count), front_size, length-w32_alone count) in
      (
        rw split (r32_at [] (w16 scmr_version ++ behind) scmr_magic 0 refl (omega arith)),
        rw split
            (r16_at magic behind scmr_version 4 (sym (length-w32_alone scmr_magic)) (omega arith)),
        rw counted (r32_at front rest count 8 front_size few),
        rw whole_is (drop-append whole rest 12 whole_size),
      )

  read_archive-layout :
      (n size : ℕ) (entries program payloads : List ℕ) (es : List (Entry ℕ))
      → suc n < 2 ^ 32
      → size < 2 ^ 32
      → size ≡ length program
      → read_entries n (entries ++ (program ++ payloads)) ≡ (es, program ++ payloads)
      → read_archive (
          archive_header files (suc n)
          ++ (file_entry (codes "app.scmlbin") 1 size ++ (entries ++ (program ++ payloads))))
        ≡ some (
            record { name = codes "app.scmlbin"; kind = 1; body = program }
            ∷ read_bodies es payloads)
  unfolding read_archive read_bodies
  read_archive-layout n size entries program payloads es few small size_is read =
      let rest = entries ++ (program ++ payloads) in
      let (magic, version, count, behind) =
        header-reads (suc n) (file_entry (codes "app.scmlbin") 1 size ++ rest) few in
      let first =
        read_entries-file_entry n (codes "app.scmlbin") 1 size rest (omega arith) (omega arith)
          small in
      rw (magic, version, count, behind, first, read)
        (rw (take-append program payloads size size_is, drop-append program payloads size size_is)
          refl)

  -- An archive that is built of a program and fewer than 2 ^ 32 - 1 assets is read back, by a
  -- reader of the layout, as the program under the name app.scmlbin and the assets in their
  -- order, each under the last part of its path, all with the contents of their files. The last
  -- part has no separator, and is the path or what stands behind a separator in it.
  pub read_archive-build_scmr :
      (script : Text) (assets : List Text) (bytes : List ℕ)
      → suc (length assets) < 2 ^ 32
      → build_scmr files script assets ≡ ok bytes
      → (read_archive bytes
          ≡ some (
              record { name = codes "app.scmlbin"; kind = 1; body = contents script }
              ∷ map asset assets))
        × AllNamed assets
  unfolding build_scmr read_archive read_entries read_bodies archive_header
  read_archive-build_scmr script assets bytes few h =
      let (size, sized_ok, more) = >>=-eq-ok (file_size files script) _ h in
      let (entries, entries_ok, more') = >>=-eq-ok (asset_entries files assets) _ more in
      let (program, program_ok, more'') = >>=-eq-ok (copy_file files script) _ more' in
      let (payloads, payloads_ok, done) = >>=-eq-ok (copy_assets files assets) _ more'' in
      let (same, small) = file_size-contents script size sized_ok in
      let program_is = copy_file-contents script program program_ok in
      let size_is : size ≡ length program = same ∙ ap length (sym program_is) in
      let read =
        read_archive-layout (length assets) size entries program payloads
          (map sized (map asset assets)) few small size_is
          (read_entries-asset_entries assets entries (program ++ payloads) entries_ok) in
      (
        rw (← ok-injective _ bytes done)
            (read ∙ rw (program_is, read_bodies-copy_assets assets payloads payloads_ok) refl),
        assets-AllNamed assets,
      )
