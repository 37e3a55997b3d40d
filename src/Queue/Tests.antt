-- ===== src/Queue/Tests.antt =====
-- Runs of the queue of kernel/src/library/queue.rs.
use heine_os.Prelude.{ℕ, ◌≡◌, refl, Bool, some, none, List, [], ◌∷◌, ◌==◌}
use heine_os.Queue.{LinkedQueue, null, node, enqueue, dequeue, display}
use heine_os.Queue.Fifo.{to_list, Op, put, get, run, ideal, run_refines}

abbrev three : LinkedQueue ℕ
three = record { head = node 7 (node 8 (node 9 null)) }

abbrev script : List (Op ℕ)
script = put 1 ∷ get ∷ get ∷ get ∷ get ∷ get ∷ put 2 ∷ get ∷ []

abbrev is_eight : ℕ → Bool
is_eight n = n == 8

to_list-three : to_list three ≡ 7 ∷ 8 ∷ 9 ∷ []
unfolding to_list
to_list-three = refl

run-three : run three script ≡ none ∷ some 7 ∷ some 8 ∷ some 9 ∷ some 1 ∷ none ∷ none ∷ some 2 ∷ []
unfolding run enqueue dequeue
run-three = refl

display-three :
    display (λ n. n ∷ []) (91 ∷ []) (44 ∷ []) (93 ∷ []) three ≡ 91 ∷ 7 ∷ 44 ∷ 8 ∷ 44 ∷ 9 ∷ 93 ∷ []
unfolding display
display-three = refl

run_refines_example : run three script ≡ ideal (to_list three) script
run_refines_example = run_refines three script
