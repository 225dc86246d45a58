-- ===== src/Queue/Memory/Runs.antt =====
-- internal/queue/memory.go: one consumer, and any number of
-- goroutines that push and close.
use observe_agent.Base.{
  ℕ, ◌+◌, ◌<◌, ◌≡◌, refl, sym, ap, ◌∙◌, ◌⊎◌, inl, inr, Bool, true, false, Option, none, some, List,
  [], ◌∷◌, ◌++◌, arith, if◌then◌else◌, Option-cases, length, Bytes,
}
use observe_agent.Queue.Memory.{
  [], Refusal, Option-cases, ℕ, Option, List, Bytes, Bool, Memory, IsBounded, Popped, item,
  cancelled, ended, waits, push, pop_pass, take_head, shut, signal, push-IsBounded,
  pop_pass-IsBounded, push_accepted, push_refused, new,
}

-- Where the consumer is: outside of `Pop`, before a pass of its loop, or in the select that waits.
pub data Consumer : Type 0 where
  outside looking waiting : Consumer

-- `closing` counts the calls of `Close` that have left the lock and not yet sent the token.
pub record System : Type 0 where
  pub queue : Memory
  pub closing : ℕ
  pub consumer : Consumer
  pub pushed : List Bytes
  pub popped : List Bytes

abbrev pub fresh : ℕ → ℕ → System
fresh b n = record { queue = new b n; closing = 0; consumer = outside; pushed = []; popped = [] }

abbrev record_push : Option Refusal → Bytes → List Bytes → List Bytes
record_push none b bs = bs ++ (b ∷ [])
record_push (some r) b bs = bs

abbrev after_pass : Popped → Memory → System → System
after_pass (item b) q s = record s { queue = q; consumer = outside; popped = s.popped ++ (b ∷ []) }
after_pass cancelled q s = record s { queue = q; consumer = outside }
after_pass ended q s = record s { queue = q; consumer = outside }
after_pass waits q s = record s { queue = q; consumer = waiting }

-- The steps, of which each holds the lock or moves the token: `Close` is two.
pub data Step : System → System → Type 0 where
  pushes :
      {s : System} (b : Bytes)
      → Step s (record s {
        queue = (push b s.queue).1;
        pushed = record_push (push b s.queue).0 b s.pushed;
      })
  closes : {s : System} → Step s (record s { queue = shut s.queue; closing = s.closing + 1 })
  signals :
      {s : System} (n : ℕ)
      → s.closing ≡ n + 1
      → Step s (record s { queue = signal s.queue; closing = n })
  calls : {s : System} → s.consumer ≡ outside → Step s (record s { consumer = looking })
  looks :
      {s : System} (context_ended : Bool)
      → s.consumer ≡ looking
      → Step s (after_pass (pop_pass context_ended s.queue).0 (pop_pass context_ended s.queue).1 s)
  wakes :
      {s : System}
      → s.consumer ≡ waiting
      → s.queue.wake ≡ true
      → Step s (record s { queue = record s.queue { wake = false }; consumer = looking })
  gives_up : {s : System} → s.consumer ≡ waiting → Step s (record s { consumer = outside })

pub data Steps : System → System → Type 0 where
  none_more : {s : System} → Steps s s
  then_step : {s t u : System} → Steps s t → Step t u → Steps s u

-- The limits hold; the items are those pushed and not popped, in order; a consumer that waits
-- though there is an item has a token to wake it; and one that waits though the queue is closed has
-- a token, or a `Close` is about to send one.
pub record IsSound (s : System) : Type 0 where
  pub bounded : IsBounded s.queue
  pub in_order : s.pushed ≡ s.popped ++ s.queue.items
  pub item_wakes : s.consumer ≡ waiting → 0 < length s.queue.items → s.queue.wake ≡ true
  pub close_wakes :
      s.consumer ≡ waiting → s.queue.closed ≡ true → (s.queue.wake ≡ true) ⊎ (0 < s.closing)

append_assoc : (xs ys zs : List Bytes) → (xs ++ ys) ++ zs ≡ xs ++ (ys ++ zs)
append_assoc [] ys zs = refl
append_assoc (x ∷ xs) ys zs = ap (λ r. x ∷ r) (append_assoc xs ys zs)

push-IsSound :
    (s : System) (b : Bytes)
    → IsSound s
    → IsSound (record s {
      queue = (push b s.queue).1;
      pushed = record_push (push b s.queue).0 b s.pushed;
    })
push-IsSound s b i = elim (Option-cases (push b s.queue).0) [
  | inl h ↦
      let a = push_accepted b s.queue h in
      record {
        bounded = push-IsBounded b s.queue i.bounded;
        in_order = rw (h, a.0, i.in_order) (append_assoc s.popped s.queue.items (b ∷ []));
        item_wakes = λ w n. a.4;
        close_wakes = λ w n. inl a.4;
      }
  | inr (r, h) ↦
      let same = push_refused b s.queue r h in
      record {
        bounded = push-IsBounded b s.queue i.bounded;
        in_order = rw (h, same) i.in_order;
        item_wakes = λ w n. rw same (i.item_wakes w (rw same at n));
        close_wakes = λ w n. rw same (i.close_wakes w (rw same at n));
      }
]

pass-IsSound :
    (s : System) (context_ended : Bool)
    → IsSound s
    → IsSound (after_pass (pop_pass context_ended s.queue).0 (pop_pass context_ended s.queue).1 s)
unfolding pop_pass
pass-IsSound s true i = record {
  bounded = i.bounded;
  in_order = i.in_order;
  item_wakes = λ w n. cc;
  close_wakes = λ w n. cc;
}
pass-IsSound s false i = go s.queue.items refl (pop_pass-IsBounded false s.queue i.bounded)
  where
    empty : 0 < 0 → ⊥
    empty h = omega arith

    empty_pass :
        (b : Bool)
        → s.queue.closed ≡ b
        → s.queue.items ≡ []
        → IsSound (after_pass (if b then ended else waits) s.queue s)
    empty_pass true e none_left = record {
      bounded = i.bounded;
      in_order = i.in_order;
      item_wakes = λ w n. cc;
      close_wakes = λ w n. cc;
    }
    empty_pass false e none_left = record {
      bounded = i.bounded;
      in_order = i.in_order;
      item_wakes = λ w n. absurd (empty (rw none_left at n));
      close_wakes = λ w n. cc (rw e at n);
    }

    go :
        (bs : List Bytes)
        → s.queue.items ≡ bs
        → IsBounded (take_head s.queue.items s.queue).1
        → IsSound (after_pass (take_head bs s.queue).0 (take_head bs s.queue).1 s)
    go [] e j = unfold take_head in empty_pass s.queue.closed refl e
    go (b ∷ bs) e j =
        unfold take_head in
        record {
          bounded = rw e at j;
          in_order =
              i.in_order ∙ ap (λ l. s.popped ++ l) e ∙ sym (append_assoc s.popped (b ∷ []) bs);
          item_wakes = λ w n. cc;
          close_wakes = λ w n. cc;
        }

Step-IsSound : (s t : System) → Step s t → IsSound s → IsSound t
Step-IsSound s _ (pushes b) i = push-IsSound s b i
Step-IsSound s _ closes i = record {
  bounded = record {
    summed = i.bounded.summed;
    few_bytes = i.bounded.few_bytes;
    few_items = i.bounded.few_items;
  };
  in_order = i.in_order;
  item_wakes = i.item_wakes;
  close_wakes = λ w n. inr (omega arith);
}
Step-IsSound s _ (signals n e) i = record {
  bounded = record {
    summed = i.bounded.summed;
    few_bytes = i.bounded.few_bytes;
    few_items = i.bounded.few_items;
  };
  in_order = i.in_order;
  item_wakes = λ w h. refl;
  close_wakes = λ w h. inl refl;
}
Step-IsSound s _ (calls e) i = record {
  bounded = i.bounded;
  in_order = i.in_order;
  item_wakes = λ w n. cc;
  close_wakes = λ w n. cc;
}
Step-IsSound s _ (looks context_ended e) i = pass-IsSound s context_ended i
Step-IsSound s _ (wakes e w) i = record {
  bounded = record {
    summed = i.bounded.summed;
    few_bytes = i.bounded.few_bytes;
    few_items = i.bounded.few_items;
  };
  in_order = i.in_order;
  item_wakes = λ w n. cc;
  close_wakes = λ w n. cc;
}
Step-IsSound s _ (gives_up e) i = record {
  bounded = i.bounded;
  in_order = i.in_order;
  item_wakes = λ w n. cc;
  close_wakes = λ w n. cc;
}

fresh-IsSound : (b n : ℕ) → IsSound (fresh b n)
fresh-IsSound b n = record {
  bounded = record { summed = refl; few_bytes = omega arith; few_items = omega arith };
  in_order = refl;
  item_wakes = λ w n. cc;
  close_wakes = λ w n. cc;
}

-- Whatever one consumer and any number of callers of `Push` and `Close` do, from a new queue on: both
-- limits hold; the items are those pushed and not yet popped, in order; the consumer never waits
-- without a token in the channel while there is an item for it; and it waits without one on a
-- closed queue only while a `Close` that has left the lock has not yet sent its token.
pub Steps-IsSound : (b n : ℕ) (t : System) → Steps (fresh b n) t → IsSound t
Steps-IsSound b n _ none_more = fresh-IsSound b n
Steps-IsSound b n t (then_step {t = s} r x) = Step-IsSound s t x (Steps-IsSound b n s r)
