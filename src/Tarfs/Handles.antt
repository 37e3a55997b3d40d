-- ===== src/Tarfs/Handles.antt =====
-- kernel/src/filesystem/tarfs.rs: the map of open files.
use heine_os.Prelude.{
  ℕ, ◌≡◌, ◌≢◌, refl, sym, ap, ◌∙◌, true, false, none, some, List, [], ◌∷◌, if◌then◌else◌, ◌==◌,
  ==_iff, Bool_false, split,
}
use heine_os.Tarfs.{get_handle, remove_handle, insert_handle}

pub ==-refl : (n : ℕ) → (n == n) ≡ true
==-refl n = (==_iff n n).1 refl

pub ==_ne : {m n : ℕ} → m ≢ n → (m == n) ≡ false
==_ne {m} {n} h = Bool_false (m == n) (λ e. h ((==_iff m n).0 e))

module _ {A : Type 0} where
  pub get_handle-remove_handle_self :
      (handles : List (ℕ × A)) (handle : ℕ)
      → get_handle (remove_handle handles handle) handle ≡ none
  get_handle-remove_handle_self [] handle = refl
  get_handle-remove_handle_self ((key, file) ∷ rest) handle =
      let later = get_handle-remove_handle_self rest handle in
      split
        (λ b.
          get_handle
            (if b then remove_handle rest handle else (key, file) ∷ remove_handle rest handle)
            handle
          ≡ none)
        (key == handle) (λ e. later)
        (λ e.
          ap (λ b. if b then some file else get_handle (remove_handle rest handle) handle) e
          ∙ later)

  pub get_handle-remove_handle_ne :
      (handles : List (ℕ × A)) {handle other : ℕ}
      → other ≢ handle
      → get_handle (remove_handle handles handle) other ≡ get_handle handles other
  get_handle-remove_handle_ne [] h = refl
  get_handle-remove_handle_ne ((key, file) ∷ rest) {handle} {other} h =
      let later = get_handle-remove_handle_ne rest h in
      split
        (λ b.
          get_handle
            (if b then remove_handle rest handle else (key, file) ∷ remove_handle rest handle) other
          ≡ get_handle ((key, file) ∷ rest) other)
        (key == handle)
        (λ e.
          later
          ∙ sym (
              ap (λ b. if b then some file else get_handle rest other)
                (==_ne {m = key} {n = other} (λ same. h (sym same ∙ (==_iff key handle).0 e)))))
        (λ e. ap (λ o. if key == other then some file else o) later)

  pub get_handle-insert_handle_self :
      (handles : List (ℕ × A)) (handle : ℕ) (file : A)
      → get_handle (insert_handle handles handle file) handle ≡ some file
  get_handle-insert_handle_self handles handle file =
      ap (λ b. if b then some file else get_handle (remove_handle handles handle) handle)
        (==-refl handle)

  pub get_handle-insert_handle_ne :
      (handles : List (ℕ × A)) {handle other : ℕ} (file : A)
      → other ≢ handle
      → get_handle (insert_handle handles handle file) other ≡ get_handle handles other
  get_handle-insert_handle_ne handles {handle} {other} file h =
      ap (λ b. if b then some file else get_handle (remove_handle handles handle) other)
        (==_ne {m = handle} {n = other} (λ same. h (sym same)))
      ∙ get_handle-remove_handle_ne handles h
