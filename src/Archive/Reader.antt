-- ===== src/Archive/Reader.antt =====
-- A reader of the layout that compiler/scmr.c writes, as a reference for it.
use mathlib.Core.List.{append_assoc}
use open_scm.Prelude.{
  ℕ, zero, suc, ◌+◌, ◌-◌, ◌^◌, ◌<◌, ◌≡◌, refl, sym, false, ◌&&◌, List, [], ◌∷◌, ◌++◌, Option, none,
  some, arith, ltb, ◌==◌, if◌then◌else◌, length, length-append, take, drop, take-append,
  drop-append,
}
use open_scm.Prelude.Text.{Text}
use open_scm.Bytes.{w16, w32, r16, r32}
use open_scm.Bytes.Laws.{r16_at, r32_at, length-w16_alone, length-w32_alone}
use open_scm.Archive.{scmr_magic, scmr_version, file_entry}

-- A file of an archive: its name, its kind, and its size or its contents.
pub record Entry (A : Type 0) : Type 0 where
  pub name : Text
  pub kind : ℕ
  pub body : A

pub short_name : (n : ℕ) → ltb 65535 n ≡ false → n < 2 ^ 16
short_name n h = ground arith

-- The directory: `n` entries, and what follows.
unfoldable pub read_entries : ℕ → List ℕ → List (Entry ℕ) × List ℕ
read_entries zero bytes = ([], bytes)
read_entries (suc n) bytes =
    let len = r16 bytes 0 in
    let (entries, rest) = read_entries n (drop (2 + len + 8) bytes) in
    (
      record {
        name = take len (drop 2 bytes);
        kind = r32 (drop (2 + len) bytes) 0;
        body = r32 (drop (2 + len) bytes) 4;
      }
          ∷ entries,
      rest,
    )

-- The contents, one file behind the other.
unfoldable pub read_bodies : List (Entry ℕ) → List ℕ → List (Entry (List ℕ))
read_bodies [] bytes = []
read_bodies (e ∷ entries) bytes =
    record { name = e.name; kind = e.kind; body = take e.body bytes }
    ∷ read_bodies entries (drop e.body bytes)

unfoldable pub read_archive : List ℕ → Option (List (Entry (List ℕ)))
read_archive bytes =
    let (entries, rest) = read_entries (r32 bytes 8) (drop 12 bytes) in
    if r32 bytes 0 == scmr_magic && r16 bytes 4 == scmr_version
    then some (read_bodies entries rest)
    else none

-- An entry that is written is read.
pub read_entries-file_entry :
    (n : ℕ) (name : Text) (kind size : ℕ) (rest : List ℕ)
    → length name < 2 ^ 16
    → kind < 2 ^ 32
    → size < 2 ^ 32
    → read_entries (suc n) (file_entry name kind size ++ rest) ≡ (
      record { name = name; kind = kind; body = size } ∷ (read_entries n rest).0,
      (read_entries n rest).1,
    )
unfolding read_entries file_entry
read_entries-file_entry n name kind size rest short k z =
    let whole = file_entry name kind size ++ rest in
    let tail : List ℕ = w32 kind ++ (w32 size ++ rest) in
    let split : whole ≡ w16 (length name) ++ (name ++ tail) = simp append_assoc in
    let len : r16 (w16 (length name) ++ (name ++ tail)) 0 ≡ length name =
      r16_at [] (name ++ tail) (length name) 0 refl short in
    let skip : drop 2 (w16 (length name) ++ (name ++ tail)) ≡ name ++ tail =
      drop-append (w16 (length name)) (name ++ tail) 2 (sym (length-w16_alone (length name))) in
    let front : List ℕ = w16 (length name) ++ name in
    let head : w16 (length name) ++ (name ++ tail) ≡ front ++ tail = simp append_assoc in
    let front_size : 2 + length name ≡ length front =
      omega (arith, length-append (w16 (length name)) name, length-w16_alone (length name)) in
    let to_tail : drop (2 + length name) (w16 (length name) ++ (name ++ tail)) ≡ tail =
      rw head (drop-append front tail (2 + length name) front_size) in
    let before : List ℕ = front ++ (w32 kind ++ w32 size) in
    let joined : w16 (length name) ++ (name ++ tail) ≡ before ++ rest = simp append_assoc in
    let before_size : 2 + length name + 8 ≡ length before = omega (
      arith,
      front_size,
      length-append front (w32 kind ++ w32 size),
      length-append (w32 kind) (w32 size),
      length-w32_alone kind,
      length-w32_alone size,
    ) in
    let to_rest : drop (2 + length name + 8) (w16 (length name) ++ (name ++ tail)) ≡ rest =
      rw joined (drop-append before rest (2 + length name + 8) before_size) in
    let name_read : take (length name) (name ++ tail) ≡ name = take-append name tail _ refl in
    let kind_read : r32 tail 0 ≡ kind = r32_at [] (w32 size ++ rest) kind 0 refl k in
    let size_read : r32 tail 4 ≡ size =
      r32_at (w32 kind) rest size 4 (sym (length-w32_alone kind)) z in
    rw (split, len, skip, name_read, to_tail, kind_read, size_read, to_rest) refl

pub below : (m n : ℕ) → m ≡ n → ltb (2 ^ 32 - 1) m ≡ false → n < 2 ^ 32
below m n e h = ground arith
