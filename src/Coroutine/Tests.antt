-- ===== src/Coroutine/Tests.antt =====
-- A switch from a coroutine with its stack at 10000 to one with its context at 30000, and back.
use heine_os.Prelude.{
  ℕ, zero, suc, replicate, ◌+◌, ◌-◌, ◌*◌, ◌<◌, ◌≡◌, refl, sym, if◌then◌else◌, ◌==◌, arith,
}
use heine_os.Machine.{Memory, Cpu, Reg, number, run}
use heine_os.Machine.Contexts.{Stacked, context}
use heine_os.Coroutine.{coroutine_switch}
use heine_os.Coroutine.Chain.{IsApart, coroutine_switch-Switched}

abbrev untouched : Cpu → Cpu
untouched s = s

-- `rdi` and `rsi` at a call of `coroutine_switch`; the other registers hold 9.
abbrev called_with : ℕ → ℕ → Reg → ℕ
called_with slot next r = if number r == 7 then slot else if number r == 6 then next else 9

abbrev first : Cpu
first = record { regs = called_with 20000 30000; rsp = 10000; memory = λ _. 3 }

first-IsApart : IsApart first
first-IsApart = record {
  room = omega arith;
  slot_aside = λ i l e. omega arith;
  next_slot = λ i l e. omega arith;
  next_aside = λ i j l k e. omega arith;
}

filled : (n a : ℕ) (m : Memory) → ((b : ℕ) → m b ≡ 3) → Stacked m a (replicate n 3)
filled zero a m h = tt
filled (suc n) a m h = (h a, filled n (a + 8) m h)

next_context : Stacked (λ _. 3) 30000 (context (λ _. 3) 3)
next_context = filled 17 30000 (λ _. 3) (λ b. refl)

second : Cpu
second = record {
  regs = called_with 20008 9872;
  rsp = 60000;
  memory = (run 0 7 untouched coroutine_switch first).memory;
}

second-IsApart : IsApart second
unfolding second
second-IsApart = record {
  room = omega arith;
  slot_aside = λ i l e. omega arith;
  next_slot = λ i l e. omega arith;
  next_aside = λ i j l k e. omega arith;
}

pointer : second.regs Reg.rsi ≡ (run 0 7 untouched coroutine_switch first).memory 20000
unfolding second
pointer =
    sym
      (coroutine_switch-Switched 0 7 untouched first first-IsApart (λ _. 3) 3 next_context).slot_is

same :
    (i : ℕ)
    → i < 17
    → second.memory (10000 - 128 + i * 8)
      ≡ (run 0 7 untouched coroutine_switch first).memory (10000 - 128 + i * 8)
unfolding second
same i l = refl
