-- ===== src/Timers.antt =====
-- fubble/utils/timer.cpp: the one shot timer and the interval timer, over asio's steady_timer. A wait
-- that has not expired is `waiting`; when it expires its handler is `ready` to run, and cancelling the
-- wait has no effect on it any more. A handler that is run with an error does nothing and is left out.
-- Calling an empty callback throws out of the handler: `none`.
pub mod OneShot
pub mod Interval
