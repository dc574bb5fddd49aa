-- ===== src/Tcp/Lives.antt =====
-- The life of a TCP connector, and a reconnect: the theorems at concrete inputs.
use simple_network.Base.{ℕ, ◌-◌, ◌≡◌, refl, tt, true, false, List, [], ◌∷◌, ok, replicate}
use simple_network.Buffer.Circle.{Circle}
use simple_network.Connection.{World, Hooks, disconnected, connecting, with_state}
use simple_network.Tcp.{
  Link, make_link, socket, closed, connect, on_connect, on_readable, with_link,
}
use simple_network.Tcp.Lifecycle.{
  Callback, connects, answered, read_fails, disconnects, Follows, handle_all, handle_all-Follows,
}
use simple_network.Tcp.Reconnecting.{ended, opened, stale-closes}

abbrev empty : Circle
empty = record { block = record { mem = replicate 8 0; max_size = 4096 }; head = 0; tail = 0 }

abbrev fresh : World (Link (List Callback))
fresh = record {
  recv_buff = empty;
  out = record { state = disconnected; send_buff = empty; env = make_link [] };
}

fresh-Follows : Follows fresh
unfolding make_link
fresh-Follows = (refl, tt)

-- Connected, lost, refused, connected again, and left.
handle_all-Follows_example :
    (w' : World (Link (List Callback))) × (handle_all
        (connects
          ∷ answered false
          ∷ read_fails
          ∷ connects
          ∷ answered true
          ∷ connects
          ∷ answered false
          ∷ disconnects
          ∷ [])
        fresh
      ≡ ok w')
    × Follows w'
handle_all-Follows_example =
    handle_all-Follows
      (connects
        ∷ answered false
        ∷ read_fails
        ∷ connects
        ∷ answered true
        ∷ connects
        ∷ answered false
        ∷ disconnects
        ∷ [])
      fresh fresh-Follows

-- The application counts what it is told of ends.
abbrev counting : Hooks (Link ℕ)
counting = record {
  on_connected = ok;
  on_disconnected = λ w. ok (with_link w (record w.out.env { app = 1 }));
  on_recv = λ w r. ok w;
  open_socket = ok;
  close_socket = ok;
  do_write = ok;
}

abbrev waiting : Link ℕ
waiting = record { sending = false; writes = 0; reads = 1; is_open = false; sent = []; app = 0 }

stale-closes_example :
    let w = ended empty empty waiting in
    let w₁ = opened w in
    let w₂ = closed (with_link w₁ (record w₁.out.env { reads = w₁.out.env.reads - 1 })) in
    (connect (socket counting) w ≡ ok w₁)
    × (w₁.out.env.is_open ≡ true)
    × (on_readable (socket counting) 9 9 true [] w₁ ≡ ok w₂)
    × (w₂.out.env.is_open ≡ false)
    × (w₂.out.state ≡ connecting)
    × (on_connect (socket counting) true w₂
        ≡ counting.on_disconnected (closed (with_state w₂ disconnected)))
stale-closes_example = stale-closes counting empty empty waiting 9 9
