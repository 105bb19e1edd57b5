-- ===== src/Thread/Calls.antt =====
-- thread5/Thread.hpp: which calls of the thread library a sequence of members makes.
use study_code.Prelude.{ℕ, ◌+◌, ◌≤◌, ◌≡◌, refl, true, false, List, [], ◌∷◌, ◌++◌, arith}
use study_code.Thread.{
  Status, thread_new, thread_running, thread_stop, Thread, Call, create, set_name, callback, join,
  cancel, detach, complains, Act, starts, begins, ends, joins, stops, detaches, act, run,
}

abbrev pub joins_in : List Call → ℕ
joins_in [] = 0
joins_in (join tid ∷ cs) = 1 + joins_in cs
joins_in (create ∷ cs) = joins_in cs
joins_in (set_name tid name ∷ cs) = joins_in cs
joins_in (callback ∷ cs) = joins_in cs
joins_in (cancel tid ∷ cs) = joins_in cs
joins_in (detach tid ∷ cs) = joins_in cs
joins_in (complains ∷ cs) = joins_in cs

-- No thread is joined behind a detachment.
abbrev pub NoJoinBehind : List Call → Type 0
NoJoinBehind [] = Unit
NoJoinBehind (detach tid ∷ cs) = (joins_in cs ≡ 0) × NoJoinBehind cs
NoJoinBehind (create ∷ cs) = NoJoinBehind cs
NoJoinBehind (set_name tid name ∷ cs) = NoJoinBehind cs
NoJoinBehind (callback ∷ cs) = NoJoinBehind cs
NoJoinBehind (join tid ∷ cs) = NoJoinBehind cs
NoJoinBehind (cancel tid ∷ cs) = NoJoinBehind cs
NoJoinBehind (complains ∷ cs) = NoJoinBehind cs

-- A step of a detached thread: it stays detached, and joins nothing.
act_detached :
    (a : Act) (t : Thread) (rest : List Call)
    → t.joinable ≡ false
    → ((act a t).0.joinable ≡ false) × (joins_in ((act a t).1 ++ rest) ≡ joins_in rest)
unfolding act
act_detached (starts n tid) t rest h = ground arith
act_detached begins t rest h = ground arith
act_detached ends t rest h = ground arith
act_detached joins t rest h = ground arith
act_detached stops t rest h = ground arith
act_detached detaches t rest h = ground arith

run_detached : (as' : List Act) (t : Thread) → t.joinable ≡ false → joins_in (run as' t).1 ≡ 0
unfolding run
run_detached [] t h = refl
run_detached (a ∷ as') t h =
    let (still, none_here) = act_detached a t (run as' (act a t).0).1 h in
    cc (none_here, run_detached as' (act a t).0 still)

-- Where the rest joins nothing if this step detaches.
act-NoJoinBehind :
    (a : Act) (t : Thread) (rest : List Call)
    → NoJoinBehind rest
    → ((act a t).0.joinable ≡ false → joins_in rest ≡ 0)
    → NoJoinBehind ((act a t).1 ++ rest)
unfolding act
act-NoJoinBehind (starts n tid) t rest h g = ground arith
act-NoJoinBehind begins t rest h g = ground arith
act-NoJoinBehind ends t rest h g = ground arith
act-NoJoinBehind joins t rest h g = ground arith
act-NoJoinBehind stops t rest h g = ground arith
act-NoJoinBehind detaches t rest h g = ground arith

pub run-NoJoinBehind : (as' : List Act) (t : Thread) → NoJoinBehind (run as' t).1
unfolding run
run-NoJoinBehind [] t = tt
run-NoJoinBehind (a ∷ as') t =
    act-NoJoinBehind a t (run as' (act a t).0).1 (run-NoJoinBehind as' (act a t).0)
      (run_detached as' (act a t).0)

abbrev pub asks_join : List Act → ℕ
asks_join [] = 0
asks_join (joins ∷ as') = 1 + asks_join as'
asks_join (starts n tid ∷ as') = asks_join as'
asks_join (begins ∷ as') = asks_join as'
asks_join (ends ∷ as') = asks_join as'
asks_join (stops ∷ as') = asks_join as'
asks_join (detaches ∷ as') = asks_join as'

abbrev pub asks_detach : List Act → ℕ
asks_detach [] = 0
asks_detach (detaches ∷ as') = 1 + asks_detach as'
asks_detach (starts n tid ∷ as') = asks_detach as'
asks_detach (begins ∷ as') = asks_detach as'
asks_detach (ends ∷ as') = asks_detach as'
asks_detach (joins ∷ as') = asks_detach as'
asks_detach (stops ∷ as') = asks_detach as'

act_joinable :
    (a : Act) (as' : List Act) (t : Thread) (rest : List Call)
    → t.joinable ≡ true
    → asks_detach (a ∷ as') ≡ 0
    → ((act a t).0.joinable ≡ true)
      × (asks_detach as' ≡ 0)
      × (joins_in ((act a t).1 ++ rest) + asks_join as' ≡ asks_join (a ∷ as') + joins_in rest)
unfolding act
act_joinable (starts n tid) as' t rest h g = ground arith
act_joinable begins as' t rest h g = ground arith
act_joinable ends as' t rest h g = ground arith
act_joinable joins as' t rest h g = ground arith
act_joinable stops as' t rest h g = ground arith
act_joinable detaches as' t rest h g = ground arith

-- Over any sequence of members and of the routine's parts without a `Detach`, a joinable thread is
-- joined by `pthread_join` as often as `Join` is called, also before `Start` and again after a
-- join.
pub run_joinable :
    (as' : List Act) (t : Thread)
    → t.joinable ≡ true
    → asks_detach as' ≡ 0
    → joins_in (run as' t).1 ≡ asks_join as'
unfolding run
run_joinable [] t h g = refl
run_joinable (a ∷ as') t h g =
    let (still, later, count) = act_joinable a as' t (run as' (act a t).0).1 h g in
    let ih = run_joinable as' (act a t).0 still later in omega (arith, count, ih)

-- The cancellations and the calls of the callback.
abbrev pub cancels_in : List Call → ℕ
cancels_in [] = 0
cancels_in (cancel tid ∷ cs) = 1 + cancels_in cs
cancels_in (create ∷ cs) = cancels_in cs
cancels_in (set_name tid name ∷ cs) = cancels_in cs
cancels_in (callback ∷ cs) = cancels_in cs
cancels_in (join tid ∷ cs) = cancels_in cs
cancels_in (detach tid ∷ cs) = cancels_in cs
cancels_in (complains ∷ cs) = cancels_in cs

abbrev pub callbacks_in : List Call → ℕ
callbacks_in [] = 0
callbacks_in (callback ∷ cs) = 1 + callbacks_in cs
callbacks_in (create ∷ cs) = callbacks_in cs
callbacks_in (set_name tid name ∷ cs) = callbacks_in cs
callbacks_in (cancel tid ∷ cs) = callbacks_in cs
callbacks_in (join tid ∷ cs) = callbacks_in cs
callbacks_in (detach tid ∷ cs) = callbacks_in cs
callbacks_in (complains ∷ cs) = callbacks_in cs

abbrev pub to_cancel : Status → ℕ
to_cancel thread_running = 1
to_cancel thread_new = 0
to_cancel thread_stop = 0

act_cancels :
    (a : Act) (t : Thread) (rest : List Call)
    → cancels_in rest ≤ callbacks_in rest + to_cancel (act a t).0.status
    → cancels_in ((act a t).1 ++ rest) ≤ callbacks_in ((act a t).1 ++ rest) + to_cancel t.status
unfolding act
act_cancels (starts n tid) t rest h = ground arith
act_cancels begins t rest h = ground arith
act_cancels ends t rest h = ground arith
act_cancels joins t rest h = ground arith
act_cancels stops t rest h = ground arith
act_cancels detaches t rest h = ground arith

pub run_cancels :
    (as' : List Act) (t : Thread)
    → cancels_in (run as' t).1 ≤ callbacks_in (run as' t).1 + to_cancel t.status
unfolding run
run_cancels [] t = omega arith
run_cancels (a ∷ as') t = act_cancels a t (run as' (act a t).0).1 (run_cancels as' (act a t).0)
