-- ===== src/Key/Modifiers.antt =====
-- kernel/src/device/key.rs: what the operations on the flags of a `u8` do to each flag. The flag
-- at place `i` is the number `2 ^ i`.
use heine_os.Prelude.{
  ℕ, ◌<◌, ◌^◌, ◌≡◌, refl, Bool, true, ◌&&◌, ◌||◌, not, if◌then◌else◌, ◌==◌, ltb, ltb→lt, arith,
}
use heine_os.Prelude.Bytes.{all_below, below, agrees, agrees→≡}
use heine_os.Key.{contains, insert, remove, toggle}

-- A test of every byte and every two flags.
abbrev pub every : (ℕ → ℕ → ℕ → Bool) → Bool
every test = all_below (λ i. all_below (λ j. all_below (test i j) 256) 8) 8

pub every_one :
    (test : ℕ → ℕ → ℕ → Bool)
    → every test ≡ true
    → (i j m : ℕ) → i < 8
    → j < 8
    → m < 256
    → test i j m ≡ true
every_one test h i j m bi bj bm =
    below (test i j) 256
      (below (λ j. all_below (test i j) 256) 8
        (below (λ i. all_below (λ j. all_below (test i j) 256) 8) 8 h i bi) j bj)
      m bm

abbrev inserts : ℕ → ℕ → ℕ → Bool
inserts i j m = agrees (contains (insert m (2 ^ i)) (2 ^ j)) ((i == j) || contains m (2 ^ j))

abbrev removes : ℕ → ℕ → ℕ → Bool
removes i j m = agrees (contains (remove m (2 ^ i)) (2 ^ j)) (not (i == j) && contains m (2 ^ j))

abbrev toggles : ℕ → ℕ → ℕ → Bool
toggles i j m =
    agrees (contains (toggle m (2 ^ i)) (2 ^ j))
      (if i == j then not (contains m (2 ^ j)) else contains m (2 ^ j))

abbrev stays_byte : (ℕ → ℕ → ℕ) → ℕ → ℕ → ℕ → Bool
stays_byte f i j m = ltb (f m (2 ^ i)) 256

every-inserts : every inserts ≡ true
unfolding insert contains
every-inserts = refl

every-removes : every removes ≡ true
unfolding remove contains
every-removes = refl

every-toggles : every toggles ≡ true
unfolding toggle contains
every-toggles = refl

module _ (i j m : ℕ) (flag_at : i < 8) (other_at : j < 8) (byte : m < 256) where
  pub contains-insert : contains (insert m (2 ^ i)) (2 ^ j) ≡ (i == j) || contains m (2 ^ j)
  contains-insert = agrees→≡ _ _ (every_one inserts every-inserts i j m flag_at other_at byte)

  pub contains-remove : contains (remove m (2 ^ i)) (2 ^ j) ≡ not (i == j) && contains m (2 ^ j)
  contains-remove = agrees→≡ _ _ (every_one removes every-removes i j m flag_at other_at byte)

  pub contains-toggle :
      contains (toggle m (2 ^ i)) (2 ^ j)
      ≡ (if i == j then not (contains m (2 ^ j)) else contains m (2 ^ j))
  contains-toggle = agrees→≡ _ _ (every_one toggles every-toggles i j m flag_at other_at byte)

every-insert : every (stays_byte insert) ≡ true
unfolding insert
every-insert = refl

every-remove : every (stays_byte remove) ≡ true
unfolding remove
every-remove = refl

every-toggle : every (stays_byte toggle) ≡ true
unfolding toggle
every-toggle = refl

-- A byte stays one.
module _ (i m : ℕ) (flag_at : i < 8) (byte : m < 256) where
  stays : (f : ℕ → ℕ → ℕ) → every (stays_byte f) ≡ true → f m (2 ^ i) < 256
  stays f h = ltb→lt _ _ (every_one (stays_byte f) h i 0 m flag_at (omega arith) byte)

  pub insert-lt : insert m (2 ^ i) < 256
  insert-lt = stays insert every-insert

  pub remove-lt : remove m (2 ^ i) < 256
  remove-lt = stays remove every-remove

  pub toggle-lt : toggle m (2 ^ i) < 256
  toggle-lt = stays toggle every-toggle
