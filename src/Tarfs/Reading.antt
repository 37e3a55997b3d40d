-- ===== src/Tarfs/Reading.antt =====
-- kernel/src/filesystem/tarfs.rs: reading an open file piece by piece, and seeking in it.
use heine_os.Prelude.{
  ℕ, zero, suc, ◌+◌, ◌-◌, ◌≤◌, min, ◌≡◌, refl, sym, ap, ap₂, subst, ◌∙◌, Option, some, List, [],
  ◌∷◌, ◌++◌, length, take, drop, length-drop, if◌then◌else◌, leb, leb→le, split, arith,
}
use heine_os.Tarfs.{
  OpenFile, TarFs, FsResult, ok, err, end_of_file, get_handle, read, read_from, moved,
}
use heine_os.Tarfs.Handles.{get_handle-insert_handle_self}

take-nil : {A : Type 0} (n : ℕ) → take {A = A} n [] ≡ []
take-nil zero = refl
take-nil (suc n) = refl

-- A prefix, cut after its first `n` items.
take_cut :
    {A : Type 0} (xs : List A) (p k n m : ℕ)
    → p ≡ m + k
    → n ≡ min (length xs) m
    → take p xs ≡ take n xs ++ take k (drop n xs)
take_cut [] p k zero m e f = take-nil p ∙ sym (take-nil k)
take_cut (x ∷ xs) p k zero m e f = ap (λ i. take i (x ∷ xs)) (omega arith)
take_cut [] p k (suc n) m e f = absurd (omega arith)
take_cut (x ∷ xs) zero k (suc n) m e f = absurd (omega arith)
take_cut (x ∷ xs) (suc p) k (suc n) m e f =
    ap (λ l. x ∷ l) (take_cut xs p k n (m - 1) (omega arith) (omega arith))

drop-drop : {A : Type 0} (xs : List A) (i n k : ℕ) → k ≡ i + n → drop n (drop i xs) ≡ drop k xs
drop-drop xs zero n k e = ap (λ j. drop j xs) (omega arith)
drop-drop [] (suc i) zero zero e = refl
drop-drop [] (suc i) zero (suc k) e = refl
drop-drop [] (suc i) (suc n) zero e = refl
drop-drop [] (suc i) (suc n) (suc k) e = refl
drop-drop (x ∷ xs) (suc i) n zero e = absurd (omega arith)
drop-drop (x ∷ xs) (suc i) n (suc k) e = drop-drop xs i n k (omega arith)

take-take_append :
    {A : Type 0} (xs ys : List A) (n : ℕ) → n ≤ length xs → take n (take n xs ++ ys) ≡ take n xs
take-take_append xs ys zero h = refl
take-take_append [] ys (suc n) h = absurd (omega arith)
take-take_append (x ∷ xs) ys (suc n) h = ap (λ l. x ∷ l) (take-take_append xs ys n (omega arith))

drop_all_of : {A : Type 0} (xs : List A) (n : ℕ) → length xs ≤ n → drop n xs ≡ []
drop_all_of [] zero h = refl
drop_all_of [] (suc n) h = refl
drop_all_of (x ∷ xs) zero h = absurd (omega arith)
drop_all_of (x ∷ xs) (suc n) h = drop_all_of xs n (omega arith)

-- The room in some buffers.
abbrev pub room : List (List ℕ) → ℕ
room [] = 0
room (buffer ∷ buffers) = length buffer + room buffers

module _ {Entry : Type 0} (filename : Entry → Option (List ℕ)) (data_ : Entry → List ℕ)
    (entry_size : Entry → ℕ) where
  abbrev pieces : FsResult (ℕ × List ℕ) → List ℕ → List ℕ
  pieces (ok (count, filled)) rest = take count filled ++ rest
  pieces (err e) rest = []

  -- What the program keeps of the calls of `read`: the bytes that came, until one fails.
  unfoldable pub read_pieces : TarFs Entry → ℕ → List (List ℕ) → List ℕ
  read_pieces fs handle [] = []
  read_pieces fs handle (buffer ∷ buffers) =
      let r = read filename data_ entry_size fs handle buffer in
      let rest = read_pieces r.1 handle buffers in pieces r.0 rest

  -- Reading a file piece by piece, into buffers of any sizes, gives its bytes from the position on,
  -- as many as there is room for, and none twice.
  pub read_pieces_are :
      (buffers : List (List ℕ)) (fs : TarFs Entry) (handle : ℕ) (file : OpenFile Entry)
      → get_handle fs.open_handles handle ≡ some file
      → read_pieces fs handle buffers ≡ take (room buffers) (drop file.position (data_ file.entry))
  unfolding read_pieces read
  read_pieces_are [] fs handle file h = refl
  read_pieces_are (buffer ∷ buffers) fs handle file h =
      subst (λ o. go_on (read_from filename data_ entry_size fs handle buffer o) ≡ expected) (sym h)
        (split
          (λ b. go_on (if b then (err end_of_file, fs) else (ok (n, filled), later)) ≡ expected)
          (leb (length content) file.position)
          (λ e. sym (
            ap (take (length buffer + room buffers))
              (drop_all_of content file.position (leb→le _ _ e))
            ∙ take-nil (length buffer + room buffers)))
          (λ e.
            ap₂ (λ l r. l ++ r)
              (take-take_append unread (drop n buffer) n
                (omega (arith, length-drop file.position content)))
              (read_pieces_are buffers later handle (record file { position = file.position + n })
                  (get_handle-insert_handle_self fs.open_handles handle _)
                ∙ ap (take (room buffers)) (sym (drop-drop content file.position n _ refl)))
            ∙ sym (
                take_cut unread _ (room buffers) n (length buffer) refl
                  (omega (arith, length-drop file.position content)))))
    where
      content : List ℕ
      content = data_ file.entry

      unread : List ℕ
      unread = drop file.position content

      n : ℕ
      n = min (length content - file.position) (length buffer)

      filled : List ℕ
      filled = take n unread ++ drop n buffer

      later : TarFs Entry
      later = moved filename data_ entry_size fs handle file (file.position + n)

      expected : List ℕ
      expected = take (length buffer + room buffers) (drop file.position content)

      go_on : FsResult (ℕ × List ℕ) × TarFs Entry → List ℕ
      go_on r = pieces r.0 (read_pieces r.1 handle buffers)
