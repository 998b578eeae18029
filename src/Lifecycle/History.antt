-- ===== src/Lifecycle/History.antt =====
-- All that calls make of the task table, the purge of a session included.
use asynchronnous_agent_os.Prelude.{◌≡◌, Bool, some}
use asynchronnous_agent_os.Store.{Store, Goal}
use asynchronnous_agent_os.Lifecycle.Evolve.{IsSound}
use asynchronnous_agent_os.Lifecycle.Notice.{purge_session}
use asynchronnous_agent_os.Lifecycle.Notices.{purge_session-IsSound}
use asynchronnous_agent_os.Lifecycle.Machine.{Step, Step-Later}

pub data History (s : Store) : Store → Type 0 where
  starts : History s s
  calls : {t u : Store} → History s t → Step t u → History s u
  purges :
      {t u : Store} (in_session : Goal → Bool)
      → History s t
      → purge_session in_session t ≡ some u
      → History s u

-- Whatever calls of `Machine.Step` are made, and whatever sessions are purged between them, in
-- whatever order, from a store whose rows are valid: no two rows have one id, and each task holds a
-- lease exactly while it runs, has an end time exactly when its status is final, names while it waits
-- a timer and its time or an event and its topic and key, names while it is paused what it was
-- paused from, and has failed at most `max_attempts` times, fewer times while it has not ended.
pub every_history-IsSound : {s s' : Store} → IsSound s → History s s' → IsSound s'
every_history-IsSound h starts = h
every_history-IsSound h (calls past step) = (Step-Later (every_history-IsSound h past) step).sound
every_history-IsSound h (purges {t} {u} in_session past e) =
    purge_session-IsSound in_session t u (every_history-IsSound h past) e
