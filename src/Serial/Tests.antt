-- ===== src/Serial/Tests.antt =====
-- A port that is always ready.
use heine_os.Prelude.{ℕ, ◌≡◌, refl, List, [], ◌∷◌, arith}
use heine_os.Ports.{Device}
use heine_os.Serial.{new_com_port, com1, write_text}
use heine_os.Serial.Output.{Accepts, Sends, with_returns, write_text-Sends}

abbrev idle : Device
idle t port = 96

idle-Accepts : Accepts idle 1 (new_com_port com1)
idle-Accepts t = (0, omega arith, refl)

-- `H`, `i` and a newline.
abbrev text : List ℕ
text = 72 ∷ 105 ∷ 10 ∷ []

write_text-Sends_example :
    Sends idle 1
      (new_com_port com1)
      []
      (with_returns text)
      (write_text idle 1 (new_com_port com1) text [])
write_text-Sends_example = write_text-Sends idle 1 (new_com_port com1) idle-Accepts text []

returned : with_returns text ≡ 72 ∷ 105 ∷ 13 ∷ 10 ∷ []
returned = refl
