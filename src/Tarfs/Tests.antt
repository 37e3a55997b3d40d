-- ===== src/Tarfs/Tests.antt =====
-- An archive of one file, read in two pieces.
use heine_os.Prelude.{ℕ, ◌-◌, ◌%◌, ◌^◌, ◌≡◌, refl, Option, some, List, [], ◌∷◌, done, arith}
use heine_os.Tarfs.{TarFs, ok, current, open_, seek, moved, find_entry}
use heine_os.Tarfs.Reading.{read_pieces, read_pieces_are}
use heine_os.Tarfs.Seeking.{seek_moves}

pub record File : Type 0 where
  pub name : List ℕ
  pub bytes : List ℕ

abbrev name_of : File → Option (List ℕ)
name_of f = some f.name

abbrev bytes_of : File → List ℕ
bytes_of f = f.bytes

abbrev size_of_file : File → ℕ
size_of_file f = 5

abbrev hello : File
hello = record { name = 104 ∷ []; bytes = 1 ∷ 2 ∷ 3 ∷ 4 ∷ 5 ∷ [] }

-- Two handles on the file, at its start and at its fourth byte.
abbrev fs : TarFs File
fs = record {
  open_handles =
      (1, record { entry = hello; position = 3 })
      ∷ (0, record { entry = hello; position = 0 })
      ∷ [];
  next_handle = 2;
}

abbrev pieces_of_two : List (List ℕ)
pieces_of_two = (0 ∷ 0 ∷ []) ∷ (0 ∷ 0 ∷ []) ∷ []

read_pieces_are_example :
    read_pieces name_of bytes_of size_of_file fs 0 pieces_of_two ≡ 1 ∷ 2 ∷ 3 ∷ 4 ∷ []
read_pieces_are_example =
    read_pieces_are name_of bytes_of size_of_file pieces_of_two fs 0
      (record { entry = hello; position = 0 }) refl

seek_moves_example :
    (seek name_of bytes_of size_of_file fs 1 4 current
      ≡ (ok 5, moved name_of bytes_of size_of_file fs 1 (record { entry = hello; position = 3 }) 5))
    × (seek name_of bytes_of size_of_file fs 1 ((2 ^ 64 - 4) % 2 ^ 64) current ≡ (
      ok 0,
      moved name_of bytes_of size_of_file fs 1 (record { entry = hello; position = 3 }) 0,
    ))
seek_moves_example =
    seek_moves name_of bytes_of size_of_file fs 1 4 current (record { entry = hello; position = 3 })
      refl (omega arith) (omega arith)

-- Opening the file by its path gives the next handle.
opens :
    (open_ name_of bytes_of size_of_file (hello ∷ []) fs (47 ∷ 104 ∷ []))
    ≡ done (
      ok 2,
      record {
        open_handles = (2, record { entry = hello; position = 0 }) ∷ fs.open_handles;
        next_handle = 3;
      },
    )
unfolding open_ find_entry
opens = refl
