-- ===== src/Key/Tests.antt =====
-- Concrete keys.
use heine_os.Prelude.{
  ℕ, ◌≤◌, ◌≡◌, ◌↔◌, refl, ap, Bool, true, false, Option, some, none, List, [], ◌∷◌, ◌++◌, length,
  if◌then◌else◌, ltb, lt→ltb, Outcome, done, spins, arith,
}
use heine_os.Key.{KeyEvent, new_key_event}
use heine_os.Key.Waiting.{
  Bounded, IsLawful, Typing, poll_char, wait_for_return, poll_key_press, poll_key_event, attempts,
  push_all, push_key_event, sys_get_key_event, pop_key_event, read_char, new_queue,
}
use heine_os.Key.Polling.{Ends, poll_char-Ends}
use heine_os.Key.Scancodes.{try_from, as_u8, f12}
use heine_os.Key.Codes.{try_from_iff}

F12_is_known : try_from 88 ≡ some f12
unfolding try_from
F12_is_known = refl

nothing_above_Meta : try_from 92 ≡ none
unfolding try_from
nothing_above_Meta = refl

try_from_iff_example : (try_from 88 ≡ some f12) ↔ (as_u8 f12 ≡ 88)
try_from_iff_example = try_from_iff 88 f12

-- A bounded queue.
abbrev listed : Bounded
listed = record {
  Queue = List KeyEvent × ℕ;
  queue = λ n. ([], n);
  is_closed = λ q. false;
  try_enqueue = λ k q. if ltb (length q.0) q.1 then some (q.0 ++ (k ∷ []), q.1) else none;
  try_dequeue = λ q. elim q.0 [ [] ↦ none | k ∷ ks ↦ some (k, (ks, q.1)) ];
}

listed_dequeues :
    (items : List KeyEvent) (n : ℕ) (k : KeyEvent) (ks : List KeyEvent)
    → items ≡ k ∷ ks
    → (later : List KeyEvent × ℕ) × (listed.try_dequeue (items, n) ≡ some (k, later))
      × (later.0 ≡ ks)
      × (later.1 ≡ n)
listed_dequeues [] n k ks e = cc
listed_dequeues (x ∷ xs) n k ks e =
    let here : x ≡ k = cc in
    let behind : xs ≡ ks = cc in ((xs, n), ap (λ y. some (y, (xs, n))) here, behind, refl)

listed_empty : (items : List KeyEvent) (n : ℕ) → items ≡ [] → listed.try_dequeue (items, n) ≡ none
listed_empty [] n e = refl
listed_empty (x ∷ xs) n e = cc

listed_full :
    (k : KeyEvent) (items : List KeyEvent) (n : ℕ)
    → n ≤ length items
    → listed.try_enqueue k (items, n) ≡ none
listed_full k items n h = ground arith

listed-IsLawful : IsLawful listed
listed-IsLawful = record {
  items = λ q. q.0;
  capacity = λ q. q.1;
  never_closed = λ q. refl;
  fresh = λ n. (refl, refl);
  enqueues = λ k (items, n) h. (
    (items ++ (k ∷ []), n),
    ap (λ b. if b then some (items ++ (k ∷ []), n) else none) (lt→ltb (length items) n h),
    refl,
    refl,
  );
  full = λ k (items, n) h. listed_full k items n h;
  empty = λ (items, n) e. listed_empty items n e;
  dequeues = λ (items, n) k ks e. listed_dequeues items n k ks e;
}

abbrev pressed_ : Option ℕ → KeyEvent
pressed_ a = record new_key_event { ascii = a; pressed = true }

-- A key is released, a key without a character is pressed, and then `b` and the return key.
abbrev typing : Typing listed
typing = record {
  queue_now = (record new_key_event { ascii = some 97 } ∷ [], 128);
  coming = [] ∷ (pressed_ none ∷ []) ∷ [] ∷ (pressed_ (some 98) ∷ pressed_ (some 13) ∷ []) ∷ [];
}

poll_char-Ends_example :
    Ends listed listed-IsLawful 98 (pressed_ (some 13) ∷ []) (poll_char listed 4 typing)
unfolding listed-IsLawful
poll_char-Ends_example =
    poll_char-Ends listed listed-IsLawful 4 typing 98 (pressed_ (some 13) ∷ []) (omega arith)
      (omega arith) refl

abbrev returns : Outcome (Typing listed) → Bool
returns (done t) = true
returns Outcome.panics = false
returns spins = false

return_comes : returns (wait_for_return listed 5 typing) ≡ true
unfolding wait_for_return read_char poll_char poll_key_press poll_key_event attempts push_all
    push_key_event
return_comes = refl

nothing_to_get :
    sys_get_key_event listed new_key_event (new_queue listed) ≡ done (0, new_key_event, ([], 128))
unfolding sys_get_key_event pop_key_event new_queue
nothing_to_get = refl
