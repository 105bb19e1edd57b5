-- ===== src/Thread.antt =====
-- thread5/Thread.hpp: a wrapper of pthreads and its status. A member is one step, and so are the
-- beginning and the end of the started routine, which run in the new thread at any time after `Start`.
pub mod Calls
mod Tests
use study_code.Prelude.{
  ℕ, zero, suc, ◌+◌, ◌-◌, ◌^◌, Bool, true, false, List, [], ◌∷◌, ◌++◌, if◌then◌else◌,
}
use study_code.Prelude.Int.{ℤ, pos, is_zero}
use study_code.Text.{Text, utf8}
use study_code.Text.Decimal.{to_string}

pub data Status : Type 0 where
  thread_new thread_running thread_stop : Status

-- `_cb` is the routine's callback, and `_result` is not looked at.
pub record Thread : Type 0 where
  pub name : Text
  pub tid : ℕ
  pub status : Status
  pub joinable : Bool

-- The calls of the thread library, the callback, and the messages about a wrong state; the message
-- about a failed `pthread_join` is left out, as its return value is not used otherwise.
pub data Call : Type 0 where
  create : Call
  set_name : (tid : ℕ) (name : Text) → Call
  callback : Call
  join : (tid : ℕ) → Call
  cancel : (tid : ℕ) → Call
  detach : (tid : ℕ) → Call
  complains : Call

-- The constructor, for a value of `gnumber`, which it increases; `_tid` is -1 as a 64-bit number.
unfoldable pub new_thread : ℕ → Thread × ℕ
new_thread gnumber = (
  record {
    name = utf8 "Thread" ++ to_string (pos gnumber);
    tid = 2 ^ 64 - 1;
    status = thread_new;
    joinable = true;
  },
  gnumber + 1,
)

-- `Start`, where `pthread_create` returns `n` and stores `tid`.
unfoldable pub start : ℤ → ℕ → Thread → Bool × Thread × List Call
start n tid t = (is_zero n, record t { tid = tid }, create ∷ [])

-- `ThreadRoutin` up to the call of the callback, and behind it.
unfoldable pub routin_begins : Thread → Thread × List Call
routin_begins t = (record t { status = thread_running }, set_name t.tid t.name ∷ callback ∷ [])

unfoldable pub routin_ends : Thread → Thread × List Call
routin_ends t = (record t { status = thread_stop }, [])

unfoldable pub join_thread : Thread → Thread × List Call
join_thread t = if t.joinable then (t, join t.tid ∷ []) else (t, complains ∷ [])

stop_with : Status → Thread → Thread × List Call
stop_with thread_running t = (record t { status = thread_stop }, cancel t.tid ∷ [])
stop_with thread_new t = (t, [])
stop_with thread_stop t = (t, [])

unfoldable pub stop : Thread → Thread × List Call
unfolding stop_with
stop t = stop_with t.status t

detach_with : Status → Thread → Thread × List Call
detach_with thread_running t = (record t { joinable = false }, detach t.tid ∷ [])
detach_with thread_new t = (t, complains ∷ [])
detach_with thread_stop t = (t, complains ∷ [])

unfoldable pub detach_thread : Thread → Thread × List Call
unfolding detach_with
detach_thread t = detach_with t.status t

pub data Act : Type 0 where
  starts : (n : ℤ) (tid : ℕ) → Act
  begins ends joins stops detaches : Act

unfoldable pub act : Act → Thread → Thread × List Call
unfolding start routin_begins routin_ends join_thread stop detach_thread
act (starts n tid) t = let started = start n tid t in (started.1, started.2)
act begins t = routin_begins t
act ends t = routin_ends t
act joins t = join_thread t
act stops t = stop t
act detaches t = detach_thread t

unfoldable pub run : List Act → Thread → Thread × List Call
unfolding act
run [] t = (t, [])
run (a ∷ as') t = let next = act a t in let rest = run as' next.0 in (rest.0, next.1 ++ rest.1)
