-- ===== src/Thread/Starting.antt =====
-- kernel/src/thread/thread.rs: how a new thread starts.
use heine_os.Prelude.{ℕ, ◌+◌, ◌-◌, ◌*◌, ◌≤◌, ◌<◌, ◌≡◌, sym, subst, ◌∙◌, List, [], ◌∷◌, arith}
use heine_os.Machine.{Memory, write, Cpu, set_reg, rdi, run}
use heine_os.Machine.Contexts.{Stacked, Stacked-below, Stacked-agrees, Loaded, loaded_registers}
use heine_os.Thread.Switching.{Quiet}
use heine_os.Thread.{
  Stack, Thread, word_address, set_words_down, prepare_kernel_stack, thread_start, start,
  get_top_of_stack,
}

-- The words of the list, the last one first, above those that are there.
abbrev pub stack_of : List ℕ → List ℕ → List ℕ
stack_of [] ws = ws
stack_of (v ∷ vs) ws = stack_of vs (v ∷ ws)

abbrev count_words : List ℕ → ℕ
count_words [] = 0
count_words (v ∷ vs) = count_words vs + 1

set_words_down-Stacked :
    (stack : Stack) (k : ℕ) (vs ws : List ℕ) (m : Memory)
    → 1 ≤ k
    → k + count_words vs ≤ stack.words + 1
    → Stacked m (word_address stack (stack.words + 1 - k)) ws
    → Stacked
        (set_words_down stack k vs m)
        (word_address stack (stack.words + 1 - (k + count_words vs)))
        (stack_of vs ws)
set_words_down-Stacked stack k [] ws m p h w = subst (λ (n : ℕ). Stacked m n ws) (omega arith) w
set_words_down-Stacked stack k (v ∷ vs) ws m p h w =
    let a = word_address stack (stack.words - k) in
    let e : word_address stack (stack.words + 1 - k) ≡ a + 8 = omega arith in
    let f : a ≡ word_address stack (stack.words + 1 - (k + 1)) = omega arith in
    let n : Memory = write m a v in
    let here : Stacked n a (v ∷ ws) =
      Stacked-below m a v ws (subst (λ (b : ℕ). Stacked m b ws) e w) in
    subst (λ (b : ℕ). Stacked (set_words_down stack k (v ∷ vs) m) b (stack_of (v ∷ vs) ws))
      (omega arith)
      (set_words_down-Stacked stack (k + 1) vs (v ∷ ws) n (omega arith) (omega arith)
        (subst (λ (b : ℕ). Stacked n b (v ∷ ws)) f here))

-- The registers of a thread that starts, in the order of `loaded_registers`.
abbrev pub first_context : ℕ → ℕ → List ℕ
first_context kickoff self =
    2 ∷ 0 ∷ self ∷ 0 ∷ 0 ∷ 0 ∷ 0 ∷ 0 ∷ 0 ∷ 0 ∷ 0 ∷ 0 ∷ 0 ∷ 0 ∷ 0 ∷ 0 ∷ kickoff ∷ []

module _ (kickoff self : ℕ) (t : Thread) (m : Memory) (room : 17 ≤ t.kernel_stack.words) where
  prepare_kernel_stack-Stacked :
      t.stack_ptr ≡ word_address t.kernel_stack (t.kernel_stack.words - 1)
      → Stacked
          (prepare_kernel_stack kickoff self t m).1
          (prepare_kernel_stack kickoff self t m).0.stack_ptr
          (first_context kickoff self)
  unfolding prepare_kernel_stack
  prepare_kernel_stack-Stacked e =
      let there : word_address t.kernel_stack (t.kernel_stack.words + 1 - 18) ≡ t.stack_ptr - 128 =
        omega (arith, e) in
      subst
        (λ (a : ℕ).
          Stacked (prepare_kernel_stack kickoff self t m).1 a (first_context kickoff self))
        there
        (set_words_down-Stacked t.kernel_stack 1
          (kickoff ∷ 0 ∷ 0 ∷ 0 ∷ 0 ∷ 0 ∷ 0 ∷ 0 ∷ 0 ∷ 0 ∷ 0 ∷ 0 ∷ 0 ∷ 0 ∷ self ∷ 0 ∷ 2 ∷ []) [] m
          (omega arith) (omega arith) tt)

  module _ (tss back : ℕ) (unlock : Cpu → Cpu) (Kept : ℕ → ℕ → Type 0) where
    -- The thread runs `kickoff_kernel_thread` on itself, from the end of its stack, with interrupts
    -- off and the other registers clear.
    pub record Starts (r : Cpu) : Type 0 where
      pub registers : Loaded r.regs loaded_registers (first_context kickoff self)
      pub stack_is : r.rsp ≡ get_top_of_stack t.kernel_stack

    -- A thread whose stack pointer is at the last word of its stack, and whose stack is prepared and
    -- not written to since, starts in its kickoff function, with itself as the argument, with
    -- interrupts off and the whole stack free, if `unlock_scheduler` keeps these words and the stack
    -- pointer.
    pub prepared_thread-Starts :
        t.stack_ptr ≡ word_address t.kernel_stack (t.kernel_stack.words - 1)
        → Quiet tss back unlock Kept
        → (s : Cpu)
        → ((i : ℕ)
            → i < 17
            → Kept
                (t.stack_ptr - 128)
                ((prepare_kernel_stack kickoff self t m).0.stack_ptr + i * 8))
        → ((i : ℕ)
            → i < 17
            → s.memory ((prepare_kernel_stack kickoff self t m).0.stack_ptr + i * 8)
              ≡ (prepare_kernel_stack kickoff self t m).1
                  ((prepare_kernel_stack kickoff self t m).0.stack_ptr + i * 8))
        → Starts (start tss back unlock (prepare_kernel_stack kickoff self t m).0 s)
    unfolding run start thread_start get_top_of_stack prepare_kernel_stack
    prepared_thread-Starts e quiet s kept same =
        let called : Cpu = record {
          regs = set_reg s.regs rdi (t.stack_ptr - 128);
          rsp = t.stack_ptr - 128;
          memory = s.memory;
        } in
        let later = unlock called in
        record {
          registers =
              subst (λ (a : ℕ). Stacked later.memory a (first_context kickoff self))
                (sym (quiet called).0)
                (Stacked-agrees (prepare_kernel_stack kickoff self t m).1 later.memory
                  (t.stack_ptr - 128) (first_context kickoff self)
                  (λ i l. (quiet called).1 _ (kept i l) ∙ same i l)
                  (prepare_kernel_stack-Stacked e));
          stack_is = omega (arith, e, (quiet called).0);
        }
