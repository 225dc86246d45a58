-- ===== src/Queue/Memory.antt =====
-- internal/queue/memory.go: the bounded queue in memory.
pub mod Runs
mod Tests
use observe_agent.Base.{
  ℕ, ◌+◌, ◌-◌, ◌≤◌, ◌≡◌, refl, inl, inr, Bool, true, false, ◌||◌, Option, none, some, List, [], ◌∷◌,
  ◌++◌, arith, ltb, leb, ◌==◌, if◌then◌else◌, Option-cases, length, length-append, Bytes,
}

-- `wake` is whether the channel holds its one token. The bytes and their limit stay below 2 ^ 63.
pub record Memory : Type 0 where
  pub items : List Bytes
  pub bytes : ℕ
  pub max_bytes : ℕ
  pub max_items : ℕ
  pub closed : Bool
  pub wake : Bool

pub data Refusal : Type 0 where
  queue_full queue_closed : Refusal

-- `NewMemory`
abbrev pub new : ℕ → ℕ → Memory
new max_bytes max_items = record {
  items = [];
  bytes = 0;
  max_bytes = max_bytes;
  max_items = max_items;
  closed = false;
  wake = false;
}

-- `Push`. Where the source's difference of the bytes is negative, a payload that is not empty is
-- above it, as it is above zero.
unfoldable pub push : Bytes → Memory → Option Refusal × Memory
push b q =
    if q.closed
    then (some queue_closed, q)
    else if (length b == 0 || ltb (q.max_bytes - q.bytes) (length b))
        || leb q.max_items (length q.items)
    then (some queue_full, q)
    else (none, record q { items = q.items ++ (b ∷ []); bytes = q.bytes + length b; wake = true })

-- One pass of the loop of `Pop`: an item, an error, or a wait for the token.
pub data Popped : Type 0 where
  item : Bytes → Popped
  cancelled ended waits : Popped

unfoldable pub take_head : List Bytes → Memory → Popped × Memory
take_head [] q = ((if q.closed then ended else waits), q)
take_head (b ∷ bs) q = (item b, record q { items = bs; bytes = q.bytes - length b })

unfoldable pub pop_pass : Bool → Memory → Popped × Memory
pop_pass context_ended q = if context_ended then (cancelled, q) else take_head q.items q

-- The part of `Close` under the lock, and the send behind it.
abbrev pub shut : Memory → Memory
shut q = record q { closed = true }

abbrev pub signal : Memory → Memory
signal q = record q { wake = true }

-- `Close`
abbrev pub close : Memory → Memory
close q = signal (shut q)

-- `Size`
abbrev pub size : Memory → ℕ × ℕ
size q = (length q.items, q.bytes)

abbrev pub bytes_of : List Bytes → ℕ
bytes_of [] = 0
bytes_of (b ∷ bs) = length b + bytes_of bs

-- The bytes are those of the items, and both limits hold.
pub record IsBounded (q : Memory) : Type 0 where
  pub summed : q.bytes ≡ bytes_of q.items
  pub few_bytes : q.bytes ≤ q.max_bytes
  pub few_items : length q.items ≤ q.max_items

bytes_of-append : (xs : List Bytes) (b : Bytes) → bytes_of (xs ++ (b ∷ [])) ≡ bytes_of xs + length b
bytes_of-append [] b = omega arith
bytes_of-append (x ∷ xs) b = omega (arith, bytes_of-append xs b)

-- What an accepted `Push` has done.
pub push_accepted :
    (b : Bytes) (q : Memory)
    → (push b q).0 ≡ none
    → ((push b q).1.items ≡ q.items ++ (b ∷ []))
      × ((push b q).1.bytes ≡ q.bytes + length b)
      × ((push b q).1.bytes ≤ q.max_bytes)
      × (length (push b q).1.items ≤ q.max_items)
      × ((push b q).1.wake ≡ true)
unfolding push
push_accepted b q h = ground (arith, length-append q.items (b ∷ []))

pub push_refused : (b : Bytes) (q : Memory) (r : Refusal) → (push b q).0 ≡ some r → (push b q).1 ≡ q
unfolding push
push_refused b q r h = ground arith

pub push-limits :
    (b : Bytes) (q : Memory)
    → ((push b q).1.max_bytes ≡ q.max_bytes) × ((push b q).1.max_items ≡ q.max_items)
unfolding push
push-limits b q = ground arith

pub push-IsBounded : (b : Bytes) (q : Memory) → IsBounded q → IsBounded (push b q).1
push-IsBounded b q i = elim (Option-cases (push b q).0) [
  | inl h ↦
      let a = push_accepted b q h in
      let l = push-limits b q in
      record {
        summed = rw (a.0, a.1) (omega (arith, bytes_of-append q.items b, i.summed));
        few_bytes = rw l.0 a.2;
        few_items = rw l.1 a.3;
      }
  | inr (r, h) ↦ rw (push_refused b q r h) i
]

pub pop_pass-IsBounded : (ended : Bool) (q : Memory) → IsBounded q → IsBounded (pop_pass ended q).1
unfolding pop_pass take_head
pop_pass-IsBounded true q i = i
pop_pass-IsBounded false q i = go q.items refl
  where
    go : (bs : List Bytes) → q.items ≡ bs → IsBounded (take_head bs q).1
    go [] e = i
    go (b ∷ bs) e =
        let sum = rw e at i.summed in
        let few = rw e at i.few_items in
        record {
          summed = omega (arith, sum);
          few_bytes = omega (arith, i.few_bytes);
          few_items = omega (arith, few);
        }
