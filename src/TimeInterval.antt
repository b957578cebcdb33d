-- ===== src/TimeInterval.antt =====
-- src/time_interval_handler.cc: the sum of the time intervals of a dispatch, with the earliest start
-- and the latest stop. What `report` prints of them, and the log file, are not modelled.
pub mod Elapsed
pub mod Blocks
use omniprobe.Prelude.{
  ℕ, ◌+◌, ◌-◌, ◌≤◌, ◌<◌, ◌≡◌, refl, Bool, true, false, List, [], ◌∷◌, if◌then◌else◌, ltb, u64,
  two64, arith, All, length, ◌++◌,
}
use omniprobe.Comms.{MessageType, Message, Interval}

pub record Totals : Type 0 where
  pub first_start : ℕ
  pub last_stop : ℕ
  pub total_time : ℕ
  pub no_intervals : ℕ

-- The state that both constructors set up.
unfoldable pub initial : Totals
initial = record { first_start = two64 - 1; last_stop = 0; total_time = 0; no_intervals = 0 }

-- The body of the loop over the data items; differences are those of uint64_t.
unfoldable pub add_interval : Interval → Totals → Totals
add_interval ti t = record {
  first_start = if ltb ti.start t.first_start then ti.start else t.first_start;
  last_stop = if ltb t.last_stop ti.stop then ti.stop else t.last_stop;
  total_time = u64 (t.total_time + u64 (ti.stop + two64 - ti.start));
  no_intervals = u64 (t.no_intervals + 1);
}

unfoldable pub add_all : List Interval → Totals → Totals
unfolding add_interval
add_all [] t = t
add_all (ti ∷ rest) t = add_all rest (add_interval ti t)

unfoldable pub handle_type : MessageType → Message → Totals → Totals × Bool
unfolding add_all
handle_type MessageType.time_interval message t = (add_all message.intervals t, true)
handle_type _ message t = (t, false)

unfoldable pub handle : Message → Totals → Totals × Bool
unfolding handle_type
handle message t = handle_type message.header.user_type message t

unfoldable pub clear : Totals → Totals
clear t = record { first_start = 0; last_stop = 0; total_time = 0; no_intervals = 0 }

unfoldable pub handle_all : List Message → Totals → Totals
handle_all [] t = t
handle_all (message ∷ messages) t = handle_all messages (handle message t).0

-- The time that intervals cover, one by one.
unfoldable pub covered : List Interval → ℕ
covered [] = 0
covered (ti ∷ rest) = (ti.stop - ti.start) + covered rest

-- The earliest start, the largest number of 64 bits if there is no interval, and the latest stop, 0 if
-- there is none.
abbrev pub earliest : List Interval → ℕ
earliest [] = 18446744073709551615
earliest (ti ∷ rest) = if ltb ti.start (earliest rest) then ti.start else earliest rest

abbrev pub latest : List Interval → ℕ
latest [] = 0
latest (ti ∷ rest) = if ltb (latest rest) ti.stop then ti.stop else latest rest

-- The totals describe the intervals: they have the earliest start and the latest stop, each lies between the first start and the last stop, the time
-- is the sum of their lengths, and the count is their number.
pub record Describes (t : Totals) (xs : List Interval) : Type 0 where
  pub first : t.first_start ≡ earliest xs
  pub last : t.last_stop ≡ latest xs
  pub starts : All (λ ti. t.first_start ≤ ti.start) xs
  pub stops : All (λ ti. ti.stop ≤ t.last_stop) xs
  pub time : t.total_time ≡ covered xs
  pub count : t.no_intervals ≡ length xs

add_all_bounds :
    (xs : List Interval) (t : Totals)
    → (add_all xs t).first_start ≤ t.first_start
      × t.last_stop ≤ (add_all xs t).last_stop
      × All (λ ti. (add_all xs t).first_start ≤ ti.start) xs
      × All (λ ti. ti.stop ≤ (add_all xs t).last_stop) xs
unfolding add_all
add_all_bounds [] t = ground arith
add_all_bounds (ti ∷ xs) t =
    let (a, b, c, d) = add_all_bounds xs (add_interval ti t) in
    unfold add_interval in (ground arith, ground arith, (ground arith, c), (ground arith, d))

earliest_small : (xs : List Interval) → earliest xs < two64
earliest_small [] = omega arith
earliest_small (ti ∷ xs) = ground (arith, earliest_small xs)

add_all_ends :
    (xs : List Interval) (t : Totals)
    → t.first_start < two64
    → ((add_all xs t).first_start
        ≡ (if ltb t.first_start (earliest xs) then t.first_start else earliest xs))
      × ((add_all xs t).last_stop
          ≡ (if ltb (latest xs) t.last_stop then t.last_stop else latest xs))
unfolding add_all
add_all_ends [] t small = (ground arith, ground arith)
add_all_ends (ti ∷ xs) t small =
    let next = add_interval ti t in
    let first : next.first_start
        ≡ (if ltb ti.start t.first_start then ti.start else t.first_start) =
      unfold add_interval in refl in
    let last : next.last_stop ≡ (if ltb t.last_stop ti.stop then ti.stop else t.last_stop) =
      unfold add_interval in refl in
    let (a, b) = add_all_ends xs next (ground (arith, small, first)) in
    (ground (arith, a, first), ground (arith, b, last))

add_all_sums :
    (xs : List Interval) (t : Totals)
    → All (λ ti. (ti.start ≤ ti.stop) × (ti.stop < two64)) xs
    → t.total_time + covered xs < two64
    → t.no_intervals + length xs < two64
    → ((add_all xs t).total_time ≡ t.total_time + covered xs)
      × ((add_all xs t).no_intervals ≡ t.no_intervals + length xs)
unfolding add_all covered
add_all_sums [] t ok small short = (omega arith, omega arith)
add_all_sums (ti ∷ xs) t ok small short =
    let next = add_interval ti t in
    let time : next.total_time ≡ t.total_time + (ti.stop - ti.start) =
      unfold add_interval in omega arith in
    let count : next.no_intervals ≡ t.no_intervals + 1 = unfold add_interval in omega arith in
    let (x, y) = add_all_sums xs next ok.1 (omega arith) (omega arith) in (omega arith, omega arith)

-- The intervals of the time interval messages, in order.
unfoldable pub intervals_of : List Message → List Interval
intervals_of [] = []
intervals_of (message ∷ messages) = elim message.header.user_type [
  | MessageType.time_interval ↦ message.intervals ++ intervals_of messages
  | _ ↦ intervals_of messages
]

add_all-append :
    (xs ys : List Interval) (t : Totals) → add_all (xs ++ ys) t ≡ add_all ys (add_all xs t)
unfolding add_all
add_all-append [] ys t = refl
add_all-append (ti ∷ xs) ys t = add_all-append xs ys (add_interval ti t)

handle_all-add_all :
    (messages : List Message) (t : Totals)
    → handle_all messages t ≡ add_all (intervals_of messages) t
unfolding handle_all handle handle_type intervals_of
handle_all-add_all [] t = refl
handle_all-add_all (message ∷ messages) t = ground (
  arith,
  handle_all-add_all messages (add_all message.intervals t),
  handle_all-add_all messages t,
  add_all-append message.intervals (intervals_of messages) t,
)

-- From the constructor's state, the totals after any messages have the earliest start, the latest stop,
-- the sum of the lengths and the number of the intervals of the time interval messages among them.
-- Without any, the first start is the largest number of 64 bits and the last stop 0. Each interval must end no earlier than it starts, and the
-- sums must fit 64 bits.
pub handle_all-Describes :
    (messages : List Message)
    → All (λ ti. (ti.start ≤ ti.stop) × (ti.stop < two64)) (intervals_of messages)
    → covered (intervals_of messages) < two64
    → length (intervals_of messages) < two64
    → Describes (handle_all messages initial) (intervals_of messages)
unfolding initial
handle_all-Describes messages ok small short =
    let xs = intervals_of messages in
    let (a, b, c, d) = add_all_bounds xs initial in
    let (f, l) = add_all_ends xs initial (omega arith) in
    let (x, y) = add_all_sums xs initial ok (omega arith) (omega arith) in
    rw (handle_all-add_all messages initial) (record {
      first = ground (arith, f, earliest_small xs);
      last = ground (arith, l, b);
      starts = c;
      stops = d;
      time = omega arith;
      count = omega arith;
    })

-- After `clear` the first start stays 0, whatever intervals follow: `clear` stores 0 where the
-- constructors store the largest value.
first_start-clear :
    (messages : List Message) (t : Totals) → (handle_all messages (clear t)).first_start ≡ 0
unfolding clear
first_start-clear messages t =
    let bounds = add_all_bounds (intervals_of messages) (clear t) in
    rw (handle_all-add_all messages (clear t)) (omega (arith, bounds.0))
