-- ===== src/Keyboard/Branches.antt =====
-- kernel/src/device/keyboard.rs: the branches of `release_key` and `press_key`, along the kinds of keys.
use heine_os.Prelude.{◌≡◌, refl, Bool, true, false, ◌||◌, if◌then◌else◌}
use heine_os.Keyboard.Kinds.{Kind}

-- One branch stands for each kind.
module _ {A : Type 0} (R : Kind → A → Type 0) where
  pub if_both :
      (b : Bool) (k m : Kind) (x y : A)
      → (b ≡ true → R k x)
      → (b ≡ false → R m y)
      → R (if b then k else m) (if b then x else y)
  if_both true k m x y t f = t refl
  if_both false k m x y t f = f refl

  pub pressed_along :
      (up alt ctrl caps scroll num : Bool) (k1 k2 k3 k4 k5 k6 k7 : Kind) (r1 r2 r3 r4 r5 r6 r7 : A)
      → R k1 r1
      → R k2 r2
      → R k3 r3
      → R k4 r4
      → R k5 r5
      → R k6 r6
      → R k7 r7
      → R
          (if up
            then k1
            else if alt
            then k2
            else if ctrl
            then k3
            else if caps
            then k4
            else if scroll
            then k5
            else if num
            then k6
            else k7)
          (if up
            then r1
            else if alt
            then r2
            else if ctrl
            then r3
            else if caps
            then r4
            else if scroll
            then r5
            else if num
            then r6
            else r7)
  pressed_along true _ _ _ _ _ _ _ _ _ _ _ _ _ _ _ _ _ _ _ p1 p2 p3 p4 p5 p6 p7 = p1
  pressed_along false true _ _ _ _ _ _ _ _ _ _ _ _ _ _ _ _ _ _ p1 p2 p3 p4 p5 p6 p7 = p2
  pressed_along false false true _ _ _ _ _ _ _ _ _ _ _ _ _ _ _ _ _ p1 p2 p3 p4 p5 p6 p7 = p3
  pressed_along false false false true _ _ _ _ _ _ _ _ _ _ _ _ _ _ _ _ p1 p2 p3 p4 p5 p6 p7 = p4
  pressed_along false false false false true _ _ _ _ _ _ _ _ _ _ _ _ _ _ _ p1 p2 p3 p4 p5 p6 p7 = p5
  pressed_along false false false false false true _ _ _ _ _ _ _ _ _ _ _ _ _ _ p1 p2 p3 p4 p5 p6
        p7 =
      p6
  pressed_along false false false false false false _ _ _ _ _ _ _ _ _ _ _ _ _ _ p1 p2 p3 p4 p5 p6
        p7 =
      p7

  pub released_along :
      (up alt ctrl caps scroll num : Bool) (k1 k2 k3 k4 k5 k6 k7 : Kind) (r1 r2 r3 r4 r6 r7 : A)
      → R k1 r1
      → R k2 r2
      → R k3 r3
      → R k4 r4
      → R k5 r4
      → R k6 r6
      → R k7 r7
      → R
          (if up
            then k1
            else if alt
            then k2
            else if ctrl
            then k3
            else if caps
            then k4
            else if scroll
            then k5
            else if num
            then k6
            else k7)
          (if up
            then r1
            else if alt
            then r2
            else if ctrl
            then r3
            else if caps || scroll
            then r4
            else if num
            then r6
            else r7)
  released_along true _ _ _ _ _ _ _ _ _ _ _ _ _ _ _ _ _ _ p1 p2 p3 p4 p5 p6 p7 = p1
  released_along false true _ _ _ _ _ _ _ _ _ _ _ _ _ _ _ _ _ p1 p2 p3 p4 p5 p6 p7 = p2
  released_along false false true _ _ _ _ _ _ _ _ _ _ _ _ _ _ _ _ p1 p2 p3 p4 p5 p6 p7 = p3
  released_along false false false true _ _ _ _ _ _ _ _ _ _ _ _ _ _ _ p1 p2 p3 p4 p5 p6 p7 = p4
  released_along false false false false true _ _ _ _ _ _ _ _ _ _ _ _ _ _ p1 p2 p3 p4 p5 p6 p7 = p5
  released_along false false false false false true _ _ _ _ _ _ _ _ _ _ _ _ _ p1 p2 p3 p4 p5 p6 p7 =
      p6
  released_along false false false false false false _ _ _ _ _ _ _ _ _ _ _ _ _ p1 p2 p3 p4 p5 p6
        p7 =
      p7
