-- ===== src/Counter/Tests.antt =====
-- The counter of async_op_counter_ut.cpp, and the theorems at small histories.
use gee_h.Prelude.{◌≡◌, refl, pos, true, false, Bool, List, [], ◌∷◌, ◌==◌}
use gee_h.Counter.{
  Counter, new, all_done, async_op_start, add_op, async_op_done, del_op, stop, begin_wait,
}
use gee_h.Counter.Drain.{
  Call, start, finish, stray, stops, waits, after, run, initial, all_done-run, drained_forever,
}

-- Two operations, two more, a shutdown that refuses a fifth, and both threads finish.
abbrev history : List Call
history =
    start ∷ start ∷ finish ∷ finish ∷ start ∷ start ∷ stops ∷ start ∷ finish ∷ finish ∷ waits ∷ []

history_drains : (run initial history).in_flight ≡ 0
unfolding run after initial new
history_drains = refl

all_done-run_example :
    all_done (run initial history).counter
    ≡ ((run initial history).in_flight == (run initial history).strays)
all_done-run_example = all_done-run history

-- A tracer that is refused makes the predicate hold while an operation is in flight.
refused_early : all_done (run initial (start ∷ stops ∷ start ∷ stray ∷ [])).counter ≡ true
unfolding run after initial new all_done
refused_early = refl

drained_forever_example :
    let t = run (after initial waits) (start ∷ stray ∷ start ∷ []) in
    (t.in_flight ≡ 0) × (all_done t.counter ≡ (t.strays == 0))
unfolding all_done initial new
drained_forever_example = drained_forever initial (start ∷ stray ∷ start ∷ []) refl refl refl

abbrev three : Counter
three = record { pending = pos 3; shutdown = true }

abbrev stopped : Counter
stopped = record { pending = pos 0; shutdown = true }

-- `TEST(async_op_counter, basic)`: what each `async_op_start()` returned, and whether
-- `block_until_all_done()` returns after the other thread has finished both operations.
unfoldable basic_starts : List Bool × Bool
unfolding new async_op_start add_op async_op_done del_op stop begin_wait all_done
basic_starts =
    let (c, first) = async_op_start new in
    let (c, second) = async_op_start c in
    let c : Counter = async_op_done (async_op_done c) in
    let (c, third) = async_op_start c in
    let (c, fourth) = async_op_start c in
    let c : Counter = stop c in
    let (c, fifth) = async_op_start c in
    let c : Counter = async_op_done (async_op_done (begin_wait c)) in
    let (c, sixth) = async_op_start c in
    (first ∷ second ∷ third ∷ fourth ∷ fifth ∷ sixth ∷ [], all_done c)

basic_starts_test : basic_starts ≡ (true ∷ true ∷ true ∷ true ∷ false ∷ false ∷ [], true)
unfolding basic_starts
basic_starts_test = refl
