-- ===== src/Sync/Tests.antt =====
-- Runs of the spinlock and of `Once`.
use heine_os.Prelude.{ℕ, ◌+◌, ◌*◌, ◌≡◌, refl, some, none}
use heine_os.Sync.{try_lock, claim, write_value, get}
use heine_os.Sync.Spin
use heine_os.Sync.Single
use heine_os.Sync.Exclusion.{Excludes, spinlock-Excludes}
use heine_os.Sync.Single.{IsSingle, once_is_written_once}

-- Each thread adds its number and one.
abbrev adds : ℕ → ℕ → ℕ
adds i v = v + i + 1

taken : Spin.System ℕ
taken = Spin.attempt adds (Spin.start adds 5) 1 Spin.outside

contended : Spin.System ℕ
contended = Spin.attempt adds taken 2 Spin.outside

contended-Reach : Spin.Reach adds 5 contended
unfolding taken contended try_lock
contended-Reach = Spin.next (Spin.next Spin.begin (Spin.tries_lock 1 refl)) (Spin.tries_lock 2 refl)

spinlock-Excludes_example : Excludes adds 5 contended
spinlock-Excludes_example = spinlock-Excludes adds 5 contended-Reach

abbrev double : ℕ → ℕ
double i = i * 2

abbrev entered : Single.System ℕ
entered = Single.enter double (Single.start double) 3

entered-Step : Single.Step double (Single.start double) entered
entered-Step = Single.enters 3 refl

writing_next : entered.place 3 ≡ Single.writing
unfolding claim
writing_next = refl

once_is_written_once_example :
    IsSingle double entered
      (Single.goes double entered 3 (write_value entered.once 6) Single.referring)
once_is_written_once_example =
    once_is_written_once double (Single.next Single.begin entered-Step)
      (Single.writes 3 writing_next)

-- A thread that asks while thread 3 computes the value gets a reference to nothing.
early_reference : get entered.once ≡ some none
unfolding claim get
early_reference = refl
