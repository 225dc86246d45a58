-- ===== src/Queue/Memory/Tests.antt =====
-- A run of the queue in memory.
use observe_agent.Base.{◌≡◌, refl, true, false, some, [], ◌∷◌, Bytes}
use observe_agent.Queue.Memory.{queue_full, push, pop_pass, take_head}
use observe_agent.Queue.Memory.Runs.{
  Steps, System, pushes, closes, calls, looks, none_more, then_step, fresh, IsSound, Steps-IsSound,
  waiting,
}

abbrev two_bytes : Bytes
two_bytes = 1 ∷ 2 ∷ []

-- A consumer finds nothing and waits; then an item is pushed.
abbrev woken : System
woken = record {
  queue = record {
    items = two_bytes ∷ [];
    bytes = 2;
    max_bytes = 8;
    max_items = 2;
    closed = false;
    wake = true;
  };
  closing = 0;
  consumer = waiting;
  pushed = two_bytes ∷ [];
  popped = [];
}

woken-Steps : Steps (fresh 8 2) woken
unfolding push pop_pass take_head
woken-Steps =
    then_step (then_step (then_step none_more (calls refl)) (looks false refl)) (pushes two_bytes)

Steps-IsSound_example : IsSound woken
Steps-IsSound_example = Steps-IsSound 8 2 woken woken-Steps

push_twice : (push two_bytes (push two_bytes woken.queue).1).0 ≡ some queue_full
unfolding push
push_twice = refl

-- The queue is closed, and the token is not yet sent.
closing_unsignalled : Steps (fresh 8 2) (record (fresh 8 2) {
  queue = record (fresh 8 2).queue { closed = true };
  closing = 1;
  consumer = waiting;
})
unfolding pop_pass take_head
closing_unsignalled =
    then_step (then_step (then_step none_more (calls refl)) (looks false refl)) closes
