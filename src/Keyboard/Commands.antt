-- ===== src/Keyboard/Commands.antt =====
-- kernel/src/device/keyboard.rs: the commands to the keyboard controller.
use Prim.Native.Nat.{bit_and, bit_or}
use heine_os.Prelude.{
  ℕ, zero, suc, ◌+◌, ◌*◌, ◌%◌, ◌^◌, ◌≡◌, refl, ◌∙◌, ap, subst, Bool, List, [], ◌∷◌, if◌then◌else◌,
  ◌==◌, Outcome, done, arith,
}
use heine_os.Prelude.Bits.{bit_and_ones, bit_or_fields}
use heine_os.Ports.{did_read, did_write, Trace, Device, Io, carry}
use heine_os.Ports.Polling.{polled, Readies, poll-Polled}
use heine_os.Key.{insert, remove}
use heine_os.Keyboard.{
  Keyboard, control_port, data_port, ack, set_led_command, set_speed_command, may_write, may_read,
  wait_for_write, wait_for_read, acknowledged, set_led, set_repeat_rate,
}

-- The bytes that the keyboard was sent, the latest first.
abbrev pub sent : Trace → List ℕ
sent [] = []
sent (did_read port value ∷ t) = sent t
sent (did_write port value ∷ t) = if port == data_port then value ∷ sent t else sent t

module _ (dev : Device) (patience : ℕ) where
  -- The controller takes a byte in time, and the keyboard answers each byte in time, with an ACK.
  pub record Controller : Type 0 where
    pub takes : (t : Trace) → Readies dev control_port patience may_write t
    pub answers :
        (t : Trace) (byte : ℕ)
        → Readies dev control_port patience may_read (did_write data_port byte ∷ t)
    pub acks :
        (t : Trace) (byte k : ℕ)
        → dev (polled dev control_port (did_write data_port byte ∷ t) k) data_port % 2 ^ 8 ≡ ack

module _ (dev : Device) where
  sent-polled : (t : Trace) (k : ℕ) → sent (polled dev control_port t k) ≡ sent t
  sent-polled t zero = refl
  sent-polled t (suc k) = sent-polled (did_read control_port (dev t control_port % 2 ^ 8) ∷ t) k

-- The lights that `set_led` leaves.
abbrev pub lit : Keyboard → ℕ → Bool → ℕ
lit kb led on = if on then insert kb.leds led else remove kb.leds led

module _ {dev : Device} {patience : ℕ} (c : Controller dev patience) where
  -- What a call that ends has sent besides, the latest first.
  pub record Sends {A : Type 0} (bytes : List ℕ) (a : A) (r : Outcome (A × Trace)) : Type 0 where
    pub later : Trace
    pub result : r ≡ done (a, later)
    pub sent_are : sent later ≡ bytes

  wait-Sends : (t : Trace) → Sends (sent t) tt (wait_for_write dev patience t)
  unfolding wait_for_write
  wait-Sends t =
      let p = poll-Polled dev control_port patience may_write t (c.takes t) in
      record {
        later = polled dev control_port t p.reads;
        result = p.result;
        sent_are = sent-polled dev t p.reads;
      }

  acknowledged-Sends :
      (byte : ℕ) (t : Trace) → Sends (byte ∷ sent t) tt (acknowledged dev patience byte t)
  unfolding acknowledged wait_for_read
  acknowledged-Sends byte t =
      let p =
        poll-Polled dev control_port patience may_read (did_write data_port byte ∷ t)
          (c.answers t byte) in
      let asked = polled dev control_port (did_write data_port byte ∷ t) p.reads in
      record {
        later = did_read data_port ack ∷ asked;
        result = rw (p.result, c.acks t byte p.reads);
        sent_are = sent-polled dev (did_write data_port byte ∷ t) p.reads;
      }

  -- One call after another.
  pub then-Sends :
      {A B : Type 0} {bytes more : List ℕ} {a : A} {b : B} {m : Outcome (A × Trace)}
      → Sends bytes a m
      → (f : A → Io B) → ((later : Trace) → sent later ≡ bytes → Sends more b (f a later))
      → Sends more b (carry m f)
  then-Sends s f g =
      let next = g s.later s.sent_are in
      record { later = next.later; result = rw (s.result) next.result; sent_are = next.sent_are }

  acknowledged_after :
      (byte : ℕ) (bytes : List ℕ) (t : Trace)
      → sent t ≡ bytes
      → Sends (byte ∷ bytes) tt (acknowledged dev patience byte t)
  acknowledged_after byte bytes t e =
      let s = acknowledged-Sends byte t in
      record { later = s.later; result = s.result; sent_are = s.sent_are ∙ ap (λ l. byte ∷ l) e }

  -- With a controller that answers, `set_led` ends, having sent the command and the lights, and
  -- changes only the lights of the driver.
  pub set_led-Sends :
      (kb : Keyboard) (led : ℕ) (on : Bool) (t : Trace)
      → let now : Keyboard = record kb { leds = lit kb led on } in
        Sends (lit kb led on ∷ set_led_command ∷ sent t) now (set_led dev patience kb led on t)
  unfolding set_led
  set_led-Sends kb led on t = then-Sends (wait-Sends t) _ (λ t1 e1.
      then-Sends (acknowledged_after set_led_command _ t1 e1) _ (λ t2 e2.
        then-Sends (acknowledged_after (lit kb led on) _ t2 e2) _
          (λ t3 e3. record { later = t3; result = refl; sent_are = e3 })))

  -- With a controller that answers, `set_repeat_rate` ends, having sent the command and one byte:
  -- the low five bits are those of the speed, and the two above them those of the delay.
  pub set_repeat_rate-Sends :
      (delay speed : ℕ) (t : Trace)
      → Sends
          ((delay % 4 * 32 + speed % 32) ∷ set_speed_command ∷ sent t)
          tt
          (set_repeat_rate dev patience delay speed t)
  unfolding set_repeat_rate
  set_repeat_rate-Sends delay speed t = then-Sends (wait-Sends t) _ (λ t1 e1.
      then-Sends (acknowledged_after set_speed_command _ t1 e1) _ (λ t2 e2.
        subst
          (λ b.
            Sends (b ∷ set_speed_command ∷ sent t) tt
              (acknowledged dev patience (bit_or (bit_and delay 3 * 32) (bit_and speed 31)) t2))
          parameter (acknowledged_after _ _ t2 e2)))
    where
      parameter : bit_or (bit_and delay 3 * 32) (bit_and speed 31) ≡ delay % 4 * 32 + speed % 32
      parameter =
          rw (bit_and_ones 2 delay, bit_and_ones 5 speed)
            (bit_or_fields 5 (delay % 4) (speed % 32) (omega arith))
