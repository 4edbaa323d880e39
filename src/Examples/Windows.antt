-- ===== src/Examples/Windows.antt =====
-- The window of requests between nodes: the theorems on a window for one entry.
use server_chat.Common.{◌≤◌, ◌+◌, ◌≡◌, refl, arith, none, some, [], length}
use server_chat.Cluster.Dedupe.{
  Call, Entry, Window, new_dedupe_cache, enter, enter_at, admit, finish, tick, call, end_call,
  Reach, start, next_step, dispatch,
}
use server_chat.Cluster.Dedupe.Once.{IsFirst, enter-IsFirst}
use server_chat.Cluster.Dedupe.Capacity.{Reach-IsBounded}

-- Key 1 is called at time 5, its call ends at time 7, and the result is kept for 10.
abbrev first_call : Call
first_call = record { at = 5; order = []; key = 1; kind = 2; digest = 3 }

abbrev first_entry : Entry
first_entry = record { key = 1; kind = 2; digest = 3; completion = none }

abbrev opened : Window
opened = record { cache = new_dedupe_cache 1 10; now = 5 }

abbrev entered : Window
entered = record opened { cache = (enter opened.cache first_call).0 }

abbrev at_seven : Window
at_seven = record entered { now = 5 + 2 }

abbrev answered : Window
answered = record at_seven { cache = finish at_seven.cache 7 0 first_entry [] [] }

abbrev at_twenty : Window
at_twenty = record answered { now = 7 + 13 }

entered_entry : at_seven.cache.heap 0 ≡ some first_entry
unfolding enter_at admit
entered_entry = refl

at_twenty_reached : Reach at_twenty
at_twenty_reached =
    next_step
      (next_step
        (next_step (next_step (start 1 10 5) (call opened first_call (omega arith)))
          (tick entered 2))
        (end_call at_seven 0 first_entry [] [] entered_entry refl))
      (tick answered 13)

-- At time 20 the result is not kept any more, and the key is dispatched again.
abbrev second_call : Call
second_call = record { at = 19; order = []; key = 1; kind = 2; digest = 3 }

redispatched : (enter at_twenty.cache second_call).1 ≡ dispatch 1
unfolding enter_at admit
redispatched = refl

enter-IsFirst_example : IsFirst at_twenty.cache.heap 20 1 (enter at_twenty.cache second_call).1
enter-IsFirst_example = enter-IsFirst second_call at_twenty_reached (omega arith)

Reach-IsBounded_example : length at_twenty.cache.entries ≤ at_twenty.cache.capacity
Reach-IsBounded_example = Reach-IsBounded at_twenty_reached
