-- ===== src/Key/Scancodes.antt =====
-- kernel/src/device/key.rs: the scancodes, with the numbers that stand for them.
use heine_os.Prelude.{ℕ, Option, none, some, List, [], ◌∷◌, if◌then◌else◌, ◌==◌}

-- The constructors of `Scancode`; their numbers are in `as_u8`.
pub data Scancode : Type 0 where
  escape one two three four five six seven eight nine zero q w e r t z u i o p a s d f g h j k l y x
        c v b n m plus minus enter space up down left right home end page_up page_down insert del
        tab backspace f1 f2 f3 f4 f5 f6 f7 f8 f9 f10 f11 f12 meta :
      Scancode

-- The `#[repr(u8)]` numbers of the constructors.
unfoldable pub as_u8 : Scancode → ℕ
as_u8 escape = 1
as_u8 one = 2
as_u8 two = 3
as_u8 three = 4
as_u8 four = 5
as_u8 five = 6
as_u8 six = 7
as_u8 seven = 8
as_u8 eight = 9
as_u8 nine = 10
as_u8 zero = 11
as_u8 q = 16
as_u8 w = 17
as_u8 e = 18
as_u8 r = 19
as_u8 t = 20
as_u8 z = 21
as_u8 u = 22
as_u8 i = 23
as_u8 o = 24
as_u8 p = 25
as_u8 a = 30
as_u8 s = 31
as_u8 d = 32
as_u8 f = 33
as_u8 g = 34
as_u8 h = 35
as_u8 j = 36
as_u8 k = 37
as_u8 l = 38
as_u8 y = 44
as_u8 x = 45
as_u8 c = 46
as_u8 v = 47
as_u8 b = 48
as_u8 n = 49
as_u8 m = 50
as_u8 plus = 27
as_u8 minus = 53
as_u8 enter = 28
as_u8 space = 57
as_u8 up = 72
as_u8 down = 80
as_u8 left = 75
as_u8 right = 77
as_u8 home = 71
as_u8 end = 79
as_u8 page_up = 73
as_u8 page_down = 81
as_u8 insert = 82
as_u8 del = 83
as_u8 tab = 15
as_u8 backspace = 14
as_u8 f1 = 59
as_u8 f2 = 60
as_u8 f3 = 61
as_u8 f4 = 62
as_u8 f5 = 63
as_u8 f6 = 64
as_u8 f7 = 65
as_u8 f8 = 66
as_u8 f9 = 67
as_u8 f10 = 68
as_u8 f11 = 87
as_u8 f12 = 88
as_u8 meta = 91

-- The arms of the `match` in `try_from`, in its order.
abbrev pub arms : List (ℕ × Scancode)
arms =
    (1, escape)
    ∷ (2, one)
    ∷ (3, two)
    ∷ (4, three)
    ∷ (5, four)
    ∷ (6, five)
    ∷ (7, six)
    ∷ (8, seven)
    ∷ (9, eight)
    ∷ (10, nine)
    ∷ (11, zero)
    ∷ (15, tab)
    ∷ (14, backspace)
    ∷ (16, q)
    ∷ (17, w)
    ∷ (18, e)
    ∷ (19, r)
    ∷ (20, t)
    ∷ (21, z)
    ∷ (22, u)
    ∷ (23, i)
    ∷ (24, o)
    ∷ (25, p)
    ∷ (27, plus)
    ∷ (28, enter)
    ∷ (30, a)
    ∷ (31, s)
    ∷ (32, d)
    ∷ (33, f)
    ∷ (34, g)
    ∷ (35, h)
    ∷ (36, j)
    ∷ (37, k)
    ∷ (38, l)
    ∷ (44, y)
    ∷ (45, x)
    ∷ (46, c)
    ∷ (47, v)
    ∷ (48, b)
    ∷ (49, n)
    ∷ (50, m)
    ∷ (53, minus)
    ∷ (57, space)
    ∷ (71, home)
    ∷ (72, up)
    ∷ (75, left)
    ∷ (77, right)
    ∷ (79, end)
    ∷ (73, page_up)
    ∷ (80, down)
    ∷ (81, page_down)
    ∷ (82, insert)
    ∷ (83, del)
    ∷ (59, f1)
    ∷ (60, f2)
    ∷ (61, f3)
    ∷ (62, f4)
    ∷ (63, f5)
    ∷ (64, f6)
    ∷ (65, f7)
    ∷ (66, f8)
    ∷ (67, f9)
    ∷ (68, f10)
    ∷ (87, f11)
    ∷ (88, f12)
    ∷ (91, meta)
    ∷ []

-- The first arm whose number is the value; `Err` is `none`.
unfoldable pub match_arms : List (ℕ × Scancode) → ℕ → Option Scancode
match_arms [] value = none
match_arms ((number, scancode) ∷ rest) value =
    let further = match_arms rest value in if number == value then some scancode else further

unfoldable pub try_from : ℕ → Option Scancode
unfolding match_arms
try_from value = match_arms arms value
