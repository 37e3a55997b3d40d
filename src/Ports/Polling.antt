-- ===== src/Ports/Polling.antt =====
-- Loops that read a status port until it shows what they wait for.
use heine_os.Prelude.{
  ℕ, zero, suc, ◌%◌, ◌^◌, ◌<◌, ◌≡◌, Bool, true, inl, inr, Bool-cases, ◌∷◌, if◌then◌else◌, Outcome,
  done, spins, arith,
}
use heine_os.Ports.{did_read, Trace, Device, Io, carry, pure, inb}

module _ (dev : Device) (port : ℕ) where
  -- The loop, for so many rounds at most: with none left it is taken never to end.
  unfoldable pub poll : ℕ → (ℕ → Bool) → Io (Unit {0})
  poll zero ready t = spins
  poll (suc rounds) ready t =
      let again = poll rounds ready in
      carry (inb dev port t) (λ status. if ready status then pure tt else again)

  -- What has happened after `k` more reads of the port.
  abbrev pub polled : Trace → ℕ → Trace
  polled t zero = t
  polled t (suc k) = polled (did_read port (dev t port % 2 ^ 8) ∷ t) k

  -- The device shows it after fewer than so many reads.
  abbrev pub Readies : ℕ → (ℕ → Bool) → Trace → Type 0
  Readies rounds ready t = (k : ℕ) × (k < rounds) × (ready (dev (polled t k) port % 2 ^ 8) ≡ true)

  -- A loop that ends has only read the port.
  pub record Polled (t : Trace) (r : Outcome (Unit {0} × Trace)) : Type 0 where
    pub reads : ℕ
    pub result : r ≡ done (tt, polled t reads)

  poll_within :
      (rounds : ℕ) (ready : ℕ → Bool) (t : Trace) (k : ℕ)
      → k < rounds
      → ready (dev (polled t k) port % 2 ^ 8) ≡ true
      → Polled t (poll rounds ready t)
  unfolding poll
  poll_within zero ready t k l h = absurd (omega arith)
  poll_within (suc rounds) ready t zero l h = record { reads = 1; result = rw h }
  poll_within (suc rounds) ready t (suc k) l h =
      let next = did_read port (dev t port % 2 ^ 8) ∷ t in
      let later = poll_within rounds ready next k (omega arith) h in
      elim (Bool-cases (ready (dev t port % 2 ^ 8))) [
        | inl e ↦ record { reads = 1; result = rw e }
        | inr e ↦ record { reads = suc later.reads; result = rw (e) later.result }
      ]

  -- Enough rounds end the loop.
  pub poll-Polled :
      (rounds : ℕ) (ready : ℕ → Bool) (t : Trace)
      → Readies rounds ready t
      → Polled t (poll rounds ready t)
  poll-Polled rounds ready t (k, l, e) = poll_within rounds ready t k l e
