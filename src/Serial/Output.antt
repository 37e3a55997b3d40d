-- ===== src/Serial/Output.antt =====
-- kernel/src/device/serial.rs: what arrives at the data port.
use heine_os.Prelude.{
  ℕ, zero, suc, ◌%◌, ◌^◌, ◌≡◌, refl, sym, ap, subst, ◌∙◌, List, [], ◌∷◌, ◌++◌, append-nil,
  append_assoc, if◌then◌else◌, ◌==◌, ==_iff, split, Outcome, done,
}
use heine_os.Ports.{did_read, did_write, Trace, Device, Io, carry, out, ◌>>◌}
use heine_os.Ports.Polling.{polled, Readies, poll-Polled}
use heine_os.Serial.{ComPort, accepts_data, write_raw, write_byte, write_text}

-- The bytes that were written to a port, the first one first.
abbrev pub written : ℕ → Trace → List ℕ
written port [] = []
written port (did_read other value ∷ t) = written port t
written port (did_write other value ∷ t) =
    let before = written port t in if other == port then before ++ value ∷ [] else before

-- A text with a carriage return before each newline.
abbrev pub with_returns : List ℕ → List ℕ
with_returns [] = []
with_returns (byte ∷ bytes) = (if byte == 10 then 13 ∷ 10 ∷ [] else byte ∷ []) ++ with_returns bytes

written-polled :
    (dev : Device) (status port : ℕ) (t : Trace) (k : ℕ)
    → written port (polled dev status t k) ≡ written port t
written-polled dev status port t zero = refl
written-polled dev status port t (suc k) =
    written-polled dev status port (did_read status (dev t status % 2 ^ 8) ∷ t) k

module _ (dev : Device) (patience : ℕ) (line : ComPort) where
  -- Whatever has happened, the port accepts data after fewer reads than this.
  abbrev pub Accepts : Type 0
  Accepts = (t : Trace) → Readies dev line.line_status_port patience accepts_data t

  -- A call that ends and has written these bytes to the data port.
  pub record Sends (t : Trace) (bytes : List ℕ) (r : Outcome (Unit {0} × Trace)) : Type 0 where
    pub now : Trace
    pub result : r ≡ done (tt, now)
    pub sent : written line.data_port now ≡ written line.data_port t ++ bytes

  Sends-then :
      (t : Trace) (xs ys : List ℕ) (r : Outcome (Unit {0} × Trace)) (next : Io (Unit {0}))
      → Sends t xs r
      → ((now : Trace) → Sends now ys (next now))
      → Sends t (xs ++ ys) (carry r (λ _. next))
  Sends-then t xs ys r next a f =
      let b = f a.now in
      record {
        now = b.now;
        result = ap (λ o. carry o (λ _. next)) a.result ∙ b.result;
        sent = b.sent ∙ ap (λ l. l ++ ys) a.sent ∙ append_assoc (written line.data_port t) xs ys;
      }

  module _ (ready : Accepts) where
    write_raw-Sends :
        (byte : ℕ) (t : Trace) → Sends t (byte ∷ []) (write_raw dev patience line byte t)
    unfolding write_raw
    write_raw-Sends byte t =
        let p = poll-Polled dev line.line_status_port patience accepts_data t (ready t) in
        record {
          now = did_write line.data_port byte ∷ polled dev line.line_status_port t p.reads;
          result = ap (λ o. carry o (λ _. out line.data_port byte)) p.result;
          sent =
              ap
                (λ b.
                  if b
                  then written line.data_port (polled dev line.line_status_port t p.reads)
                    ++ byte ∷ []
                  else written line.data_port (polled dev line.line_status_port t p.reads))
                ((==_iff line.data_port line.data_port).1 refl)
              ∙ ap (λ l. l ++ byte ∷ [])
                  (written-polled dev line.line_status_port line.data_port t p.reads);
        }

    write_byte-Sends :
        (byte : ℕ) (t : Trace)
        → Sends t
            (if byte == 10 then 13 ∷ 10 ∷ [] else byte ∷ [])
            (write_byte dev patience line byte t)
    unfolding write_byte
    write_byte-Sends byte t =
        split
          (λ b.
            b ≡ (byte == 10)
            → Sends t (if b then 13 ∷ 10 ∷ [] else byte ∷ []) (
                (if b
                    then (write_raw dev patience line 13 >> write_raw dev patience line byte)
                    else write_raw dev patience line byte)
                  t))
          (byte == 10)
          (λ e f.
            subst
              (λ (n : ℕ).
                Sends t (13 ∷ 10 ∷ [])
                  ((write_raw dev patience line 13 >> write_raw dev patience line n) t))
              (sym ((==_iff byte 10).0 e))
              (Sends-then t (13 ∷ []) (10 ∷ []) (write_raw dev patience line 13 t)
                (write_raw dev patience line 10) (write_raw-Sends 13 t)
                (λ now. write_raw-Sends 10 now)))
          (λ e f. write_raw-Sends byte t) refl

    -- On a port that always accepts data after a bounded number of reads, writing a text ends, and
    -- the data port has got the bytes of the text in their order, with a carriage return before each
    -- newline, and nothing else.
    pub write_text-Sends :
        (bytes : List ℕ) (t : Trace)
        → Sends t (with_returns bytes) (write_text dev patience line bytes t)
    unfolding write_text
    write_text-Sends [] t = record {
      now = t;
      result = refl;
      sent = sym (append-nil (written line.data_port t));
    }
    write_text-Sends (byte ∷ bytes) t =
        Sends-then t (if byte == 10 then 13 ∷ 10 ∷ [] else byte ∷ []) (with_returns bytes)
          (write_byte dev patience line byte t) (write_text dev patience line bytes)
          (write_byte-Sends byte t) (λ now. write_text-Sends bytes now)
