-- ===== src/Bmp/Files.antt =====
-- kernel/src/library/bitmap.rs, over Tarfs: reading a picture from a file.
use heine_os.Prelude.{
  ℕ, ◌+◌, ◌-◌, ◌%◌, ◌^◌, min, ◌≤◌, ◌<◌, ◌≡◌, refl, ap, ap₂, ◌∙◌, false, Option, some, List, [], ◌∷◌,
  ◌++◌, length, length-replicate, append-nil, take, drop, replicate, if◌then◌else◌, leb, Outcome,
  done, ◌>>=◌, arith,
}
use heine_os.Tarfs.{
  FsResult, ok, err, end_of_file, OpenFile, TarFs, get_handle, insert_handle, relative, find_entry,
  open_, opened, size, size_of, read, read_from, moved,
}
use heine_os.Tarfs.Handles.{get_handle-insert_handle_self}
use heine_os.Framebuffer.Pictures.{Bitmap}
use heine_os.Bmp.{from_bytes}

module _ {Entry : Type 0} (filename : Entry → Option (List ℕ)) (data_ : Entry → List ℕ)
    (entry_size : Entry → ℕ) where
  abbrev pub parsed :
      FsResult (ℕ × List ℕ) × TarFs Entry → Outcome (FsResult (Option Bitmap) × TarFs Entry)
  parsed (err e, fs) = done (err e, fs)
  parsed (ok (n, buffer), fs) = from_bytes buffer >>= λ bitmap. done (ok bitmap, fs)

  -- The buffer has as many zeros as the file has bytes.
  abbrev pub sized : TarFs Entry → ℕ → FsResult ℕ → Outcome (FsResult (Option Bitmap) × TarFs Entry)
  sized fs file (err e) = done (err e, fs)
  sized fs file (ok n) = parsed (read filename data_ entry_size fs file (replicate n 0))

  abbrev pub found : FsResult ℕ × TarFs Entry → Outcome (FsResult (Option Bitmap) × TarFs Entry)
  found (err e, fs) = done (err e, fs)
  found (ok file, fs) = sized fs file (size filename data_ entry_size fs file)

  unfoldable pub read_from_file :
      List Entry → TarFs Entry → List ℕ → Outcome (FsResult (Option Bitmap) × TarFs Entry)
  read_from_file archive fs path = open_ filename data_ entry_size archive fs path >>= found

take_all : (xs : List ℕ) → take (length xs) xs ≡ xs
take_all [] = refl
take_all (x ∷ xs) = ap (λ l. x ∷ l) (take_all xs)

drop_all : (xs ys : List ℕ) → length ys ≤ length xs → drop (length xs) ys ≡ []
drop_all [] [] h = refl
drop_all [] (y ∷ ys) h = absurd (omega arith)
drop_all (x ∷ xs) [] h = refl
drop_all (x ∷ xs) (y ∷ ys) h = drop_all xs ys (omega arith)

positive : (n : ℕ) → 0 < n → leb n 0 ≡ false
positive n h = ground arith

-- What is left behind a call that read an entry: the result for its bytes, and a file system in
-- which the file that was opened for it is still open, at its end.
pub record Reads {Entry : Type 0} (fs : TarFs Entry) (e : Entry) (bytes : List ℕ)
    (bitmap : Option Bitmap) (r : Outcome (FsResult (Option Bitmap) × TarFs Entry)) : Type 0 where
  pub later : TarFs Entry
  pub result : r ≡ done (ok bitmap, later)
  pub still_open :
      get_handle later.open_handles fs.next_handle
      ≡ some (record { entry = e; position = length bytes })
  pub next_is : later.next_handle ≡ (fs.next_handle + 1) % 2 ^ 64

module _ {Entry : Type 0} (filename : Entry → Option (List ℕ)) (data_ : Entry → List ℕ)
    (entry_size : Entry → ℕ) where
  abbrev outcome :
      TarFs Entry → ℕ → OpenFile Entry → ℕ → List ℕ → ℕ → FsResult (ℕ × List ℕ) × TarFs Entry
  outcome fs handle file n buffer position =
      (ok (n, buffer), moved filename data_ entry_size fs handle file position)

  -- A file is read whole, into a buffer of its size.
  read_whole :
      (fs : TarFs Entry) (handle : ℕ) (e : Entry)
      → 0 < length (data_ e)
      → read_from filename data_ entry_size fs handle
          (replicate (length (data_ e)) 0)
          (some (record { entry = e; position = 0 }))
        ≡ outcome fs handle
            (record { entry = e; position = 0 })
            (length (data_ e))
            (data_ e)
            (length (data_ e))
  read_whole fs handle e h =
      let bytes = data_ e in
      let n = length bytes in
      let file : OpenFile Entry = record { entry = e; position = 0 } in
      let buffer : List ℕ = replicate n 0 in
      let m = min (n - 0) (length buffer) in
      let m_is : m ≡ n = omega (arith, length-replicate {A = ℕ} n 0) in
      let filled : ℕ → List ℕ = (λ k. take k (drop 0 bytes) ++ drop k buffer) in
      ap (λ b. if b then (err end_of_file, fs) else outcome fs handle file m (filled m) (0 + m))
        (positive n h)
      ∙ ap (λ (k : ℕ). outcome fs handle file k (filled k) (0 + k)) m_is
      ∙ ap₂ (λ l (k : ℕ). outcome fs handle file n l k)
          (ap₂ (λ xs ys. xs ++ ys) (take_all bytes)
              (drop_all bytes buffer (omega (arith, length-replicate {A = ℕ} n 0)))
            ∙ append-nil bytes)
          (omega arith)

  -- Where the archive has an entry for the path, with its size and at least one byte, and from_bytes
  -- ends with a result on its bytes, read_from_file returns this result, and leaves the file that it
  -- opened for it open, at its end.
  pub read_from_file-Reads :
      (archive : List Entry) (fs : TarFs Entry) (path : List ℕ) (e : Entry) (bitmap : Option Bitmap)
      → find_entry filename data_ entry_size archive (relative path) ≡ done (some e)
      → entry_size e ≡ length (data_ e)
      → 0 < length (data_ e)
      → from_bytes (data_ e) ≡ done bitmap
      → Reads fs e (data_ e) bitmap (read_from_file filename data_ entry_size archive fs path)
  unfolding read_from_file open_ size read
  read_from_file-Reads archive fs path e bitmap there sized_is some_bytes parses =
      let bytes = data_ e in
      let file : OpenFile Entry = record { entry = e; position = 0 } in
      let handles = insert_handle fs.open_handles fs.next_handle file in
      let now : TarFs Entry = record {
        open_handles = handles;
        next_handle = (fs.next_handle + 1) % 2 ^ 64;
      } in
      let here : get_handle handles fs.next_handle ≡ some file =
        get_handle-insert_handle_self fs.open_handles fs.next_handle file in
      let wrapped : FsResult (ℕ × List ℕ) × TarFs Entry
          → Outcome (FsResult (Option Bitmap) × TarFs Entry) =
        parsed filename data_ entry_size in
      record {
        later = moved filename data_ entry_size now fs.next_handle file (length bytes);
        result =
            ap (λ o. o >>= opened filename data_ entry_size fs >>= found filename data_ entry_size)
              there
            ∙ ap
                (λ o.
                  sized filename data_ entry_size now fs.next_handle
                    (size_of filename data_ entry_size o))
                here
            ∙ ap (λ (n : ℕ). sized filename data_ entry_size now fs.next_handle (ok n)) sized_is
            ∙ ap
                (λ o. wrapped (
                  read_from filename data_ entry_size now fs.next_handle
                    (replicate (length bytes) 0) o))
                here
            ∙ ap wrapped (read_whole now fs.next_handle e some_bytes)
            ∙ ap
                (λ o. o >>= λ b.
                  done
                    (ok b, moved filename data_ entry_size now fs.next_handle file (length bytes)))
                parses;
        still_open =
            get_handle-insert_handle_self handles fs.next_handle
              (record { entry = e; position = length bytes });
        next_is = refl;
      }
