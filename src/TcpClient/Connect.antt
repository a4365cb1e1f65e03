-- ===== src/TcpClient/Connect.antt =====
-- `CTcpClient`: connecting and sending, up to the answer to the user.
use test_libuv.Common.{
  Option, not, ◌||◌, ap, ◌∙◌, if◌then◌else◌, ℕ, ◌≤◌, ◌<◌, ◌%◌, ◌^◌, ◌≡◌, ◌≢◌, ◌⊎◌, none, Bool, true,
  false, some, List, [], ◌∷◌, arith, length, take, slice_lem,
}
use test_libuv.Event.{UvEventType, plain_event, create_uv_event}
use test_libuv.TcpClient.{
  TcpClient, status_none, connecting, connected, connect_error, pushes, connect, send, send_as_int,
  is_connected, Run, Effect,
}

-- `Connect` on an attached object: it says yes exactly when no connection is there or under way,
-- the last one has not timed out, and no close is awaited. Then the object is connecting and one
-- connect event is pushed; otherwise nothing changes and nothing is pushed.
pub connect_lem :
    (ip : List ℕ) (port time_out : ℕ) (v6 : Bool) (c : TcpClient)
    → c.looper ≡ true
    → let (yes_no, (c', es)) = connect ip port time_out v6 c in
      (((c.status ≡ status_none) ⊎ (c.status ≡ connect_error))
        × (c.is_wait_closed ≡ false)
        × (yes_no ≡ true)
        × (c'.status ≡ connecting)
        × (c'.connect_ip ≡ ip)
        × (c'.connect_port ≡ port)
        × (es ≡ pushes (plain_event UvEventType.connect c.client_id) ∷ []))
      ⊎ (((c.is_wait_closed ≡ true) ⊎ ((c.status ≢ status_none) × (c.status ≢ connect_error)))
          × (yes_no ≡ false)
          × (c' ≡ c)
          × (es ≡ []))
unfolding connect
connect_lem ip port time_out v6 c attached = ground arith

-- What `Send` pushes for a size.
abbrev pub write_event : List ℕ → ℕ → TcpClient → Effect
write_event bytes size c = pushes (record (plain_event UvEventType.write c.client_id) {
  buff = some (take size bytes);
  size = size;
})

-- As an `int` the size is its remainder by 2 ^ 32: a negative one faults.
pub send_as_int_lem :
    (bytes : List ℕ) (size : ℕ) (c : TcpClient)
    → size ≤ length bytes
    → (send_as_int bytes size c ≡ some (size, (c, write_event bytes size c ∷ [])))
      ⊎ (send_as_int bytes size c ≡ none)
unfolding send_as_int create_uv_event
send_as_int_lem bytes size c fits = ground (arith, slice_lem bytes 0 size)

-- `Send` on an attached object that is connected and awaits no close.
pub send-send_as_int :
    (bytes : List ℕ) (size : ℕ) (c : TcpClient)
    → (c.is_wait_closed || not (is_connected c.status)) ≡ false
    → c.looper ≡ true
    → send bytes size c ≡ send_as_int bytes (size % 2 ^ 32) c
unfolding send
send-send_as_int bytes size c accepts on =
    let refused : Option (ℕ × Run) = some (0, (c, [])) in
    let accepted : Option (ℕ × Run) = send_as_int bytes (size % 2 ^ 32) c in
    ap (λ g. if g then refused else if c.looper then accepted else refused) accepts
    ∙ ap (λ l. if l then accepted else refused) on

-- `Send` on an attached object, of bytes that are there and fewer than 2 ^ 31: exactly when the
-- object is connected and no close is awaited it answers the size and pushes one write event with a
-- copy of the bytes; otherwise it answers 0 and pushes nothing. The object does not change.
pub send_lem :
    (bytes : List ℕ) (size : ℕ) (c : TcpClient)
    → c.looper ≡ true
    → size ≤ length bytes
    → size < 2 ^ 31
    → ((c.status ≡ connected)
        × (c.is_wait_closed ≡ false)
        × (send bytes size c ≡ some (size, (c, write_event bytes size c ∷ []))))
      ⊎ (((c.status ≢ connected) ⊎ (c.is_wait_closed ≡ true))
          × (send bytes size c ≡ some (0, (c, []))))
unfolding send send_as_int create_uv_event
send_lem bytes size c attached fits small =
    let as_int : size % 2 ^ 32 ≡ size = omega arith in
    ground (arith, as_int, slice_lem bytes 0 size)
