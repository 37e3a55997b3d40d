-- ===== src/Thread/Usermode.antt =====
-- kernel/src/thread/thread.rs: the jump to user mode.
use Prim.Native.Nat.{bit_and}
use heine_os.Prelude.{
  ℕ, ◌+◌, ◌-◌, ◌*◌, ◌/◌, ◌%◌, ◌^◌, ◌≤◌, ◌<◌, ◌≡◌, refl, ap, subst, ◌∙◌, List, [], ◌∷◌, arith,
}
use heine_os.Prelude.Bits.{bit_and_high}
use heine_os.Machine.{Memory, Cpu, rdi, rip, cs, rflags, ss, run}
use heine_os.Machine.Contexts.{Stacked, Stacked-below}
use heine_os.Thread.{
  Stack, Thread, word_address, set_word, get_top_of_stack, thread_user_start, usermode_frame,
  switch_to_usermode,
}

set_word-Stacked :
    (stack : Stack) (n k v : ℕ) (ws : List ℕ) (m : Memory)
    → n ≡ k + 1
    → Stacked m (word_address stack n) ws
    → Stacked (set_word stack k v m) (word_address stack k) (v ∷ ws)
set_word-Stacked stack n k v ws m e w =
    let f : word_address stack n ≡ word_address stack k + 8 = omega (arith, e) in
    Stacked-below m (word_address stack k) v ws (subst (λ (a : ℕ). Stacked m a ws) f w)

-- The stack pointer that the user function starts with.
abbrev pub user_rsp : Thread → ℕ
user_rsp t = get_top_of_stack t.user_stack / 16 * 16 - 8

-- The processor is in ring 3 with interrupts on, in the kickoff function on the thread, on the user
-- stack.
pub record InUsermode (kickoff self : ℕ) (t : Thread) (r : Cpu) : Type 0 where
  pub argument : r.regs rdi ≡ self
  pub function : r.regs rip ≡ kickoff
  pub code_segment : r.regs cs ≡ 3 * 8 + 3
  pub flags : r.regs rflags ≡ 2 ^ 9 + 2
  pub stack_segment : r.regs ss ≡ 4 * 8 + 3
  pub stack_is : r.rsp ≡ user_rsp t
  pub aligned : r.rsp % 16 ≡ 8
  pub below_top : r.rsp < get_top_of_stack t.user_stack

module _ (tss back : ℕ) (unlock : Cpu → Cpu) (kickoff self : ℕ) (t : Thread) (s : Cpu) where
  abbrev stack : Stack
  stack = t.kernel_stack

  abbrev rsp_written : ℕ
  rsp_written = bit_and (get_top_of_stack t.user_stack) (2 ^ 64 - 16) - 8

  usermode_frame-Stacked :
      133 ≤ stack.words
      → Stacked
          (usermode_frame kickoff self t s.memory).1
          (usermode_frame kickoff self t s.memory).0
          (self ∷ kickoff ∷ 27 ∷ 514 ∷ rsp_written ∷ 35 ∷ [])
  unfolding usermode_frame
  usermode_frame-Stacked h =
      let o = stack.words - 128 in
      let m1 : Memory = set_word stack o 35 s.memory in
      let m2 : Memory = set_word stack (o - 1) rsp_written m1 in
      let m3 : Memory = set_word stack (o - 2) 514 m2 in
      let m4 : Memory = set_word stack (o - 3) 27 m3 in
      let m5 : Memory = set_word stack (o - 4) kickoff m4 in
      set_word-Stacked stack (o - 4) (o - 5) self (kickoff ∷ 27 ∷ 514 ∷ rsp_written ∷ 35 ∷ []) m5
        (omega arith)
        (set_word-Stacked stack (o - 3) (o - 4) kickoff (27 ∷ 514 ∷ rsp_written ∷ 35 ∷ []) m4
          (omega arith)
          (set_word-Stacked stack (o - 2) (o - 3) 27 (514 ∷ rsp_written ∷ 35 ∷ []) m3 (omega arith)
            (set_word-Stacked stack (o - 1) (o - 2) 514 (rsp_written ∷ 35 ∷ []) m2 (omega arith) (
              set_word-Stacked stack o (o - 1) rsp_written (35 ∷ []) m1 (omega arith)
                (set_word-Stacked stack (o + 1) o 35 [] s.memory refl tt)))))

  -- If the kernel stack has 133 words or more and the user stack lies between 16 and 2 ^ 64,
  -- `switch_to_usermode` comes out in ring 3, with interrupts on, in `kickoff_user_thread` on the
  -- thread, on the user stack, and 8 below a multiple of 16, as after a call.
  pub switch_to_usermode-InUsermode :
      133 ≤ t.kernel_stack.words
      → 16 ≤ get_top_of_stack t.user_stack
      → get_top_of_stack t.user_stack < 2 ^ 64
      → InUsermode kickoff self t (switch_to_usermode tss back unlock kickoff self t s)
  unfolding switch_to_usermode thread_user_start run
  switch_to_usermode-InUsermode h low high =
      let m : Memory = (usermode_frame kickoff self t s.memory).1 in
      let p : ℕ = (usermode_frame kickoff self t s.memory).0 in
      let w = usermode_frame-Stacked h in
      let down : rsp_written ≡ user_rsp t =
        ap (λ (n : ℕ). n - 8)
          (bit_and_high 4 64 (get_top_of_stack t.user_stack) (omega arith) high) in
      let stack_is : m (p + 8 + 24) ≡ user_rsp t = ap m (omega arith) ∙ w.1.1.1.1.0 ∙ down in
      record {
        argument = w.0;
        function = w.1.0;
        code_segment = w.1.1.0;
        flags = ap m (omega arith) ∙ w.1.1.1.0;
        stack_segment = ap m (omega arith) ∙ w.1.1.1.1.1.0;
        stack_is = stack_is;
        aligned = omega (arith, stack_is);
        below_top = omega (arith, stack_is);
      }
