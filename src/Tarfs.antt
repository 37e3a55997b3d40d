-- ===== src/Tarfs.antt =====
-- kernel/src/filesystem/tarfs.rs: the read-only file system over a tar archive.
-- The archive is code of the crate tar_no_std: an entry, its file name (`none` where it is no text),
-- its data and its size are parameters. The map of open files is an association list, the newest
-- first, and a path is the list of its characters. An `isize` is its number below 2 ^ 64.
pub mod Handles
pub mod Reading
pub mod Seeking
mod Tests
use heine_os.Prelude.{
  ℕ, zero, suc, ◌+◌, ◌-◌, ◌%◌, ◌^◌, min, Bool, true, false, ◌&&◌, Option, none, some, List, [], ◌∷◌,
  ◌++◌, length, take, drop, if◌then◌else◌, ltb, leb, ◌==◌, Outcome, done, panics, spins, ◌>>=◌,
  unwrap,
}

pub data FsError : Type 0 where
  file_not_found : FsError
  invalid_handle : FsError
  end_of_file : FsError

pub data SeekMode : Type 0 where
  start : SeekMode
  current : SeekMode
  end : SeekMode

pub data FsResult {ℓ} (A : Type ℓ) : Type ℓ where
  ok : A → FsResult A
  err : FsError → FsResult A

-- Two paths are the same text.
abbrev pub same_text : List ℕ → List ℕ → Bool
same_text [] [] = true
same_text [] (d ∷ ds) = false
same_text (c ∷ cs) [] = false
same_text (c ∷ cs) (d ∷ ds) = (c == d) && same_text cs ds

-- The map's `insert`, `get` and `remove`.
module _ {A : Type 0} where
  abbrev pub get_handle : List (ℕ × A) → ℕ → Option A
  get_handle [] handle = none
  get_handle ((key, file) ∷ rest) handle =
      let further = get_handle rest handle in if key == handle then some file else further

  abbrev pub remove_handle : List (ℕ × A) → ℕ → List (ℕ × A)
  remove_handle [] handle = []
  remove_handle ((key, file) ∷ rest) handle =
      let further = remove_handle rest handle in
      if key == handle then further else (key, file) ∷ further

  abbrev pub insert_handle : List (ℕ × A) → ℕ → A → List (ℕ × A)
  insert_handle handles handle file = (handle, file) ∷ remove_handle handles handle

pub record OpenFile (Entry : Type 0) : Type 0 where
  pub entry : Entry
  pub position : ℕ

pub record TarFs (Entry : Type 0) : Type 0 where
  pub open_handles : List (ℕ × OpenFile Entry)
  pub next_handle : ℕ

-- A leading slash is dropped.
abbrev pub relative : List ℕ → List ℕ
relative [] = []
relative (c ∷ cs) = if c == 47 then cs else c ∷ cs

-- `clamp(0, data_len as isize)` of an `isize`.
unfoldable pub clamped : ℕ → ℕ → ℕ
clamped position data_len =
    if leb (2 ^ 63) position then 0 else if ltb data_len position then data_len else position

module _ {Entry : Type 0} (filename : Entry → Option (List ℕ)) (data_ : Entry → List ℕ)
    (entry_size : Entry → ℕ) where
  -- `TarFs::new`.
  unfoldable pub new_fs : TarFs Entry
  new_fs = record { open_handles = []; next_handle = 0 }

  -- The file that the loop of `open` stops at.
  unfoldable pub find_entry : List Entry → List ℕ → Outcome (Option Entry)
  find_entry [] path = done none
  find_entry (entry ∷ rest) path =
      let further = find_entry rest path in
      (do
        name ← unwrap (filename entry)
        if same_text name path then done (some entry) else further)

  -- `next_handle_id`, and the new file under its number.
  abbrev pub opened : TarFs Entry → Option Entry → Outcome (FsResult ℕ × TarFs Entry)
  opened fs none = done (err file_not_found, fs)
  opened fs (some entry) = done (
    ok fs.next_handle,
    record {
      open_handles =
          insert_handle fs.open_handles fs.next_handle (record { entry = entry; position = 0 });
      next_handle = (fs.next_handle + 1) % 2 ^ 64;
    },
  )

  unfoldable pub open_ : List Entry → TarFs Entry → List ℕ → Outcome (FsResult ℕ × TarFs Entry)
  open_ archive fs path = find_entry archive (relative path) >>= opened fs

  abbrev pub moved : TarFs Entry → ℕ → OpenFile Entry → ℕ → TarFs Entry
  moved fs handle file position = record fs {
    open_handles = insert_handle fs.open_handles handle (record file { position = position });
  }

  -- `read` with the file of its handle: the number of bytes, the buffer and the file system.
  abbrev pub read_from :
      TarFs Entry → ℕ → List ℕ → Option (OpenFile Entry) → FsResult (ℕ × List ℕ) × TarFs Entry
  read_from fs handle buffer none = (err invalid_handle, fs)
  read_from fs handle buffer (some file) =
      let data_len = length (data_ file.entry) in
      let bytes_to_read = min (data_len - file.position) (length buffer) in
      if leb data_len file.position then (err end_of_file, fs) else (
        ok (
          bytes_to_read,
          take bytes_to_read (drop file.position (data_ file.entry)) ++ drop bytes_to_read buffer,
        ),
        moved fs handle file (file.position + bytes_to_read),
      )

  unfoldable pub read : TarFs Entry → ℕ → List ℕ → FsResult (ℕ × List ℕ) × TarFs Entry
  read fs handle buffer = read_from fs handle buffer (get_handle fs.open_handles handle)

  -- What `offset` counts from.
  abbrev pub base : SeekMode → OpenFile Entry → ℕ
  base start file = 0
  base current file = file.position
  base end file = length (data_ file.entry)

  abbrev pub seek_in :
      TarFs Entry → ℕ → ℕ → SeekMode → Option (OpenFile Entry) → FsResult ℕ × TarFs Entry
  seek_in fs handle offset mode none = (err invalid_handle, fs)
  seek_in fs handle offset mode (some file) =
      let position = clamped ((base mode file + offset) % 2 ^ 64) (length (data_ file.entry)) in
      (ok position, moved fs handle file position)

  unfoldable pub seek : TarFs Entry → ℕ → ℕ → SeekMode → FsResult ℕ × TarFs Entry
  seek fs handle offset mode = seek_in fs handle offset mode (get_handle fs.open_handles handle)

  abbrev pub size_of : Option (OpenFile Entry) → FsResult ℕ
  size_of none = err invalid_handle
  size_of (some file) = ok (entry_size file.entry)

  unfoldable pub size : TarFs Entry → ℕ → FsResult ℕ
  size fs handle = size_of (get_handle fs.open_handles handle)

  unfoldable pub close : TarFs Entry → ℕ → TarFs Entry
  close fs handle = record fs { open_handles = remove_handle fs.open_handles handle }
