-- ===== src/Tarfs/Seeking.antt =====
-- kernel/src/filesystem/tarfs.rs: seeking in an open file, and the files beside it.
use heine_os.Prelude.{
  ℕ, ◌+◌, ◌-◌, ◌%◌, ◌^◌, ◌≤◌, ◌<◌, min, ◌≡◌, ◌≢◌, refl, ap, ◌∙◌, Option, none, some, List, ◌++◌,
  take, drop, length, if◌then◌else◌, leb, split, arith,
}
use heine_os.Tarfs.{
  OpenFile, TarFs, FsResult, ok, err, end_of_file, SeekMode, get_handle, read, read_from, moved,
  seek, seek_in, base, clamped, close,
}
use heine_os.Tarfs.Handles.{get_handle-insert_handle_ne, get_handle-remove_handle_ne}

clamped_up : (n len : ℕ) → n < 2 ^ 63 → clamped (n % 2 ^ 64) len ≡ min n len
unfolding clamped
clamped_up n len h = ground (arith)

clamped_down :
    (b n len : ℕ)
    → b < 2 ^ 63
    → n ≤ 2 ^ 63
    → clamped ((b + (2 ^ 64 - n) % 2 ^ 64) % 2 ^ 64) len ≡ min (b - n) len
unfolding clamped
clamped_down b n len h q = ground (arith)

module _ {Entry : Type 0} (filename : Entry → Option (List ℕ)) (data_ : Entry → List ℕ)
    (entry_size : Entry → ℕ) where
  -- `seek` moves an open file to the place that the mode and the offset name, or to the nearest end
  -- of the file if it is outside, and returns that place: forward by `n`, and back by `n`,
  -- if `n` is at most 2 ^ 63 and the place ahead is below 2 ^ 63.
  pub seek_moves :
      (fs : TarFs Entry) (handle n : ℕ) (mode : SeekMode) (file : OpenFile Entry)
      → let from = base filename data_ entry_size mode file in
        let len = length (data_ file.entry) in
        let moved_to = moved filename data_ entry_size fs handle file in
        get_handle fs.open_handles handle ≡ some file
        → from + n < 2 ^ 63
        → n ≤ 2 ^ 63
        → (seek filename data_ entry_size fs handle n mode
            ≡ (ok (min (from + n) len), moved_to (min (from + n) len)))
          × (seek filename data_ entry_size fs handle ((2 ^ 64 - n) % 2 ^ 64) mode
              ≡ (ok (min (from - n) len), moved_to (min (from - n) len)))
  unfolding seek
  seek_moves fs handle n mode file h low small = (
    ap (seek_in filename data_ entry_size fs handle n mode) h ∙ ap lands (clamped_up _ _ low),
    ap (seek_in filename data_ entry_size fs handle ((2 ^ 64 - n) % 2 ^ 64) mode) h
        ∙ ap lands (clamped_down _ n _ (omega arith) small),
  )
    where
      lands : ℕ → FsResult ℕ × TarFs Entry
      lands p = (ok p, moved filename data_ entry_size fs handle file p)

  module _ (fs : TarFs Entry) (handle other : ℕ) (h : other ≢ handle) where
    read_kept :
        (buffer : List ℕ) (o : Option (OpenFile Entry))
        → get_handle (read_from filename data_ entry_size fs handle buffer o).1.open_handles other
          ≡ get_handle fs.open_handles other
    read_kept buffer none = refl
    read_kept buffer (some file) =
        let n = min (length (data_ file.entry) - file.position) (length buffer) in
        let failed : FsResult (ℕ × List ℕ) × TarFs Entry = (err end_of_file, fs) in
        let went : FsResult (ℕ × List ℕ) × TarFs Entry = (
          ok (n, take n (drop file.position (data_ file.entry)) ++ drop n buffer),
          moved filename data_ entry_size fs handle file (file.position + n),
        ) in
        split
          (λ b.
            get_handle (if b then failed else went).1.open_handles other
            ≡ get_handle fs.open_handles other)
          (leb (length (data_ file.entry)) file.position) (λ e. refl)
          (λ e. get_handle-insert_handle_ne fs.open_handles _ h)

    seek_kept :
        (offset : ℕ) (mode : SeekMode) (o : Option (OpenFile Entry))
        → get_handle
            (seek_in filename data_ entry_size fs handle offset mode o).1.open_handles
            other
          ≡ get_handle fs.open_handles other
    seek_kept offset mode none = refl
    seek_kept offset mode (some file) = get_handle-insert_handle_ne fs.open_handles _ h

  -- What a handle stands for is as it was.
  abbrev pub Kept : TarFs Entry → ℕ → TarFs Entry → Type 0
  Kept fs other later = get_handle later.open_handles other ≡ get_handle fs.open_handles other

  -- Reading, seeking and closing a file change nothing of any other file that is open.
  others-Kept :
      (fs : TarFs Entry) (handle other offset : ℕ) (buffer : List ℕ) (mode : SeekMode)
      → other ≢ handle
      → Kept fs other (read filename data_ entry_size fs handle buffer).1
        × Kept fs other (seek filename data_ entry_size fs handle offset mode).1
        × Kept fs other (close filename data_ entry_size fs handle)
  unfolding read seek close
  others-Kept fs handle other offset buffer mode h = (
    read_kept fs handle other h buffer (get_handle fs.open_handles handle),
    seek_kept fs handle other h offset mode (get_handle fs.open_handles handle),
    get_handle-remove_handle_ne fs.open_handles h,
  )
