-- ===== src/Event.antt =====
-- lib/simple/reactor/event.h: what a socket asks of its connection, and the manager of a timer. `W` is
-- what the functions work on.
use simple_network.Base.{ℕ, Run}

pub record Io (W : Type 0) : Type 0 where
  pub on_read : W → Run W
  pub on_write : W → Run W
  pub on_close : W → Run W

pub record Timed (W : Type 0) : Type 0 where
  pub on_time : ℕ → W → Run W
