-- ===== src/Tcp/Lifecycle.antt =====
-- What the application of a TCP connector is told over its whole life.
use simple_network.Base.{
  ◌+◌, ◌≡◌, refl, sym, ap, subst, inl, inr, Bool, true, false, Bool-cases, List, [], ◌∷◌, Run, ok,
  ◌>>=◌, if◌then◌else◌, ltb,
}
use simple_network.Buffer.Circle.{Circle, get_count}
use simple_network.Connection.{
  World, Hooks, State, connected, connecting, disconnected, is_connected, on_close, disconnect,
  become_connected, start_connecting,
}
use simple_network.Tcp.{
  Link, with_link, socket, open_link, do_read, do_write, close, connect, on_connect, on_readable,
  on_writable,
}

-- The calls of `on_connected` and `on_disconnected`, the last one first.
pub data Callback : Type 0 where
  up : Callback
  down : Callback

-- What happens to a connector: the application calls `connect` or `disconnect`, asio answers to the
-- connecting, and a wait for reading or for writing fails.
pub data Event : Type 0 where
  connects : Event
  answered : Bool → Event
  read_fails : Event
  write_fails : Event
  disconnects : Event

abbrev pub tell : Callback → World (Link (List Callback)) → World (Link (List Callback))
tell c w = with_link w (record w.out.env { app = c ∷ w.out.env.app })

-- An application that keeps a log of what it is told, over a TCP socket.
abbrev pub watching : Hooks (Link (List Callback))
watching = socket (record {
  on_connected = λ w. ok (tell up w);
  on_disconnected = λ w. ok (tell down w);
  on_recv = λ w r. ok w;
  open_socket = ok;
  close_socket = ok;
  do_write = ok;
})

unfoldable pub handle : Event → World (Link (List Callback)) → Run (World (Link (List Callback)))
handle connects w = connect watching w
handle (answered error) w = on_connect watching error w
handle read_fails w = on_readable watching 0 0 true [] w
handle write_fails w = on_writable watching true [] w
handle disconnects w = disconnect watching w

unfoldable pub handle_all :
    List Event → World (Link (List Callback)) → Run (World (Link (List Callback)))
handle_all [] w = ok w
handle_all (e ∷ es) w = do w' ← handle e w; handle_all es w'

-- Whether the last thing the application was told is that it is connected.
abbrev pub is_up : List Callback → Bool
is_up [] = false
is_up (up ∷ log) = true
is_up (down ∷ log) = false

-- Between two calls of `on_connected` there is one of `on_disconnected`.
abbrev pub Alternates : List Callback → Type 0
Alternates [] = Unit
Alternates (up ∷ log) = (is_up log ≡ false) × Alternates log
Alternates (down ∷ log) = Alternates log

-- The application knows the state of the connection.
abbrev pub Follows : World (Link (List Callback)) → Type 0
Follows w = (is_up w.out.env.app ≡ is_connected w.out.state) × Alternates w.out.env.app

abbrev world : Circle → State → Circle → Link (List Callback) → World (Link (List Callback))
world recv s send l = record {
  recv_buff = recv;
  out = record { state = s; send_buff = send; env = l };
}

abbrev started : World (Link (List Callback)) → Bool → World (Link (List Callback))
started w more =
    if more
    then with_link w (record w.out.env { sending = true; writes = w.out.env.writes + 1 })
    else w

do_write-Follows : (w : World (Link (List Callback))) → Follows w → Follows (do_write w)
unfolding do_write
do_write-Follows w f = elim (Bool-cases w.out.env.sending) [
  | inl on ↦ subst Follows (sym (ap (λ b. if b then w else started w more) on)) f
  | inr off ↦
      subst Follows (sym (ap (λ b. if b then w else started w more) off)) (elim (Bool-cases more) [
        | inl m ↦ subst (λ b. Follows (started w b)) (sym m) f
        | inr m ↦ subst (λ b. Follows (started w b)) (sym m) f
      ])
]
  where
    more : Bool
    more = ltb 0 (get_count w.out.send_buff)

handle-Follows :
    (e : Event) (recv : Circle) (s : State) (send : Circle) (l : Link (List Callback))
    → Follows (world recv s send l)
    → (w' : World (Link (List Callback))) × (handle e (world recv s send l) ≡ ok w') × Follows w'
unfolding handle connect on_connect close on_close disconnect become_connected start_connecting
    on_readable on_writable open_link do_read socket
handle-Follows connects recv connected send l (told, alt) = (_, refl, (refl, alt))
handle-Follows connects recv connecting send l f = (_, refl, f)
handle-Follows connects recv disconnected send l f = (_, refl, f)
handle-Follows (answered false) recv connected send l f = (_, refl, f)
handle-Follows (answered false) recv connecting send l f =
    (_, refl, do_write-Follows (do_read (tell up (world recv connected send l))) (refl, f))
handle-Follows (answered false) recv disconnected send l f =
    (_, refl, do_write-Follows (do_read (tell up (world recv connected send l))) (refl, f))
handle-Follows (answered true) recv connected send l (told, alt) = (_, refl, (refl, alt))
handle-Follows (answered true) recv connecting send l (told, alt) = (_, refl, (refl, alt))
handle-Follows (answered true) recv disconnected send l f = (_, refl, f)
handle-Follows read_fails recv connected send l (told, alt) = (_, refl, (refl, alt))
handle-Follows read_fails recv connecting send l f = (_, refl, f)
handle-Follows read_fails recv disconnected send l f = (_, refl, f)
handle-Follows write_fails recv connected send l (told, alt) = (_, refl, (refl, alt))
handle-Follows write_fails recv connecting send l f = (_, refl, f)
handle-Follows write_fails recv disconnected send l f = (_, refl, f)
handle-Follows disconnects recv connected send l (told, alt) = (_, refl, (refl, alt))
handle-Follows disconnects recv connecting send l (told, alt) = (_, refl, (refl, alt))
handle-Follows disconnects recv disconnected send l f = (_, refl, f)

-- Whatever list of events happens to a connector, all handlers end; after them the last that the
-- application was told is `on_connected` exactly when the state is CONNECTED, and it has never been told
-- of a connection twice without `on_disconnected` in between, when both held before.
pub handle_all-Follows :
    (es : List Event) (w : World (Link (List Callback)))
    → Follows w
    → (w' : World (Link (List Callback))) × (handle_all es w ≡ ok w') × Follows w'
unfolding handle_all
handle_all-Follows [] w f = (w, refl, f)
handle_all-Follows (e ∷ es) w f =
    let (w₁, run, f₁) = handle-Follows e w.recv_buff w.out.state w.out.send_buff w.out.env f in
    let (w₂, rest, f₂) = handle_all-Follows es w₁ f₁ in (w₂, rw (run, rest), f₂)
