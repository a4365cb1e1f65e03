-- ===== src/TestClient/Rounds.antt =====
-- The loop of sends of `TestTcpClientFunc`: who sends, and what.
use test_libuv.Common.{
  ℕ, zero, suc, ◌+◌, ◌≤◌, ◌≡◌, refl, sym, ap, ◌∙◌, true, false, inl, inr, some, List, [], ◌∷◌, ◌++◌,
  arith, length, length-take, take, ◌<◌, ◌^◌, take_all, length-append, append_assoc, ap₂,
  if◌then◌else◌, Bool-cases,
}
use test_libuv.Event.{UvEventType, plain_event}
use test_libuv.Packet.{packet_bytes, header_bytes}
use test_libuv.Packet.Build.{client_packet, packet_data_lem, length-header_bytes}
use test_libuv.TcpClient.{TcpClient, Effect, pushes, send, is_connected, TcpStatus, connected}
use test_libuv.TcpClient.Connect.{send_lem}
use test_libuv.TestClient.{send_round, send_rounds, print_number}

-- The clients that are connected, in the order of the map.
unfoldable pub connected_ones : List TcpClient → List TcpClient
connected_ones [] = []
connected_ones (c ∷ cs) =
    let rest = connected_ones cs in if is_connected c.status then c ∷ rest else rest

-- The bytes of the packet that a client makes of a text.
abbrev pub packed : TcpClient → List ℕ → List ℕ
packed c text = packet_bytes (client_packet c.client_id text (length text))

-- The event of `Send` for it; a client that waits for its close pushes none.
abbrev pub sends_text : TcpClient → List ℕ → List Effect
sends_text c text =
    if c.is_wait_closed
    then []
    else pushes (record (plain_event UvEventType.write c.client_id) {
      buff = some (packed c text);
      size = length (packed c text);
    })
      ∷ []

-- The numbers behind `t` for these clients, one each.
unfoldable pub numbered : (ℕ → List ℕ) → ℕ → List TcpClient → List Effect
numbered print t [] = []
numbered print t (c ∷ cs) = sends_text c (print (suc t)) ++ numbered print (suc t) cs

abbrev pub AllAttached : List TcpClient → Type 0
AllAttached [] = Unit
AllAttached (c ∷ cs) = (c.looper ≡ true) × AllAttached cs

is_connected_lem : (s : TcpStatus) → is_connected s ≡ true → s ≡ connected
is_connected_lem s h = ground arith

sends_open :
    (c : TcpClient) (text : List ℕ)
    → c.is_wait_closed ≡ false
    → sends_text c text
      ≡ pushes (record (plain_event UvEventType.write c.client_id) {
        buff = some (take (length (packed c text)) (packed c text));
        size = length (packed c text);
      })
        ∷ []
sends_open c text w = rw (w, take_all (length (packed c text)) (packed c text) (omega arith)) refl

sends_none : (c : TcpClient) (text : List ℕ) → c.is_wait_closed ≡ true → sends_text c text ≡ []
sends_none c text w = rw (w) refl

-- A text of at most 255 bytes fits into the array, with its 0.
pub print_number_lem :
    (print : ℕ → List ℕ) (n : ℕ) → length (print n) ≤ 255 → print_number print n ≡ some (print n)
unfolding print_number
print_number_lem print n small = ground arith

packed_lem : (c : TcpClient) (text : List ℕ) → length text ≤ 255 → length (packed c text) < 2 ^ 31
unfolding packet_bytes
packed_lem c text small =
    let p = client_packet c.client_id text (length text) in
    omega (
      arith,
      length-header_bytes p,
      length-take (length text) text,
      length-append (header_bytes p) (take (length text) text),
    )

send-packed :
    (c : TcpClient) (text : List ℕ)
    → c.looper ≡ true
    → is_connected c.status ≡ true
    → length text ≤ 255
    → (n : ℕ) × (send (packed c text) (length (packed c text)) c ≡ some (n, (c, sends_text c text)))
send-packed c text on up small =
    elim (send_lem (packed c text) (length (packed c text)) c on (omega arith)
      (packed_lem c text small)) [
        | inl (s, w, e) ↦ (
          length (packed c text),
          e ∙ sym (ap (λ es. some (length (packed c text), (c, es))) (sends_open c text w)),
        )
        | inr (inl s, e) ↦ absurd (s (is_connected_lem c.status up))
        | inr (inr w, e) ↦ (0, e ∙ sym (ap (λ es. some (0, (c, es))) (sends_none c text w)))
      ]

-- One turn of the loop over attached clients, with numbers of at most 255 characters: every call
-- returns, the clients stay as they are, `call_time` goes up by one for each connected client, and
-- the k-th of them pushes, in the order of the map, one write event with the packet of the k-th
-- next number; only one that waits for its close pushes none, and its number is lost.
pub send_round_lem :
    (print : ℕ → List ℕ) (t : ℕ) (cs : List TcpClient)
    → ((k : ℕ) → length (print k) ≤ 255)
    → AllAttached cs
    → send_round print t cs
      ≡ some (t + length (connected_ones cs), cs, numbered print t (connected_ones cs))
unfolding send_round connected_ones numbered
send_round_lem print t [] h on = ap (λ n. some (n, [], [])) (omega arith)
send_round_lem print t (c ∷ cs) h (on, ons) = elim (Bool-cases (is_connected c.status)) [
  | inr off ↦ rw (off, send_round_lem print t cs h ons) refl
  | inl up ↦
      let text = print (suc t) in
      let short : length text ≤ 255 = h (suc t) in
      let (n, e) = send-packed c text on up short in
      rw
        (
          up,
          print_number_lem print (suc t) short,
          packet_data_lem c.client_id text (length text) (omega arith) (omega (arith, h (suc t))),
          e,
          send_round_lem print (suc t) cs h ons,
        )
        (ap (λ k. some (k, c ∷ cs, sends_text c text ++ numbered print (suc t) (connected_ones cs)))
          (omega arith))
]

-- Who sends in `n` turns, one after another, and what the clients are after the last `Sleep`.
unfoldable pub senders : (ℕ → List TcpClient → List TcpClient) → ℕ → List TcpClient → List TcpClient
unfolding connected_ones
senders sleep zero cs = []
senders sleep (suc n) cs = connected_ones (sleep (suc n) cs) ++ senders sleep n (sleep (suc n) cs)

unfoldable pub after : (ℕ → List TcpClient → List TcpClient) → ℕ → List TcpClient → List TcpClient
after sleep zero cs = sleep zero cs
after sleep (suc n) cs = after sleep n (sleep (suc n) cs)

-- The thread of the loop detaches no client.
abbrev pub KeepsAttached : (ℕ → List TcpClient → List TcpClient) → Type 0
KeepsAttached sleep = (n : ℕ) (cs : List TcpClient) → AllAttached cs → AllAttached (sleep n cs)

numbered-append :
    (print : ℕ → List ℕ) (t : ℕ) (cs ds : List TcpClient)
    → numbered print t cs ++ numbered print (t + length cs) ds ≡ numbered print t (cs ++ ds)
unfolding numbered
numbered-append print t [] ds = ap (λ k. numbered print k ds) (omega arith)
numbered-append print t (c ∷ cs) ds =
    append_assoc (sends_text c (print (suc t))) (numbered print (suc t) cs) _
    ∙ ap (λ es. sends_text c (print (suc t)) ++ es)
        (ap (λ k. numbered print (suc t) cs ++ numbered print k ds) (omega arith)
          ∙ numbered-append print (suc t) cs ds)

-- Any number of turns over attached clients, whatever the thread of the loop does to them in
-- between, as long as it detaches none: every call returns; the numbers go out in their order and
-- each at most once, the k-th of all that are sent to the k-th of all the clients that were found
-- connected; and `call_time` has gone up by how many those are.
pub send_rounds_lem :
    (print : ℕ → List ℕ) (sleep : ℕ → List TcpClient → List TcpClient) (n t : ℕ)
    (cs : List TcpClient)
    → ((k : ℕ) → length (print k) ≤ 255)
    → KeepsAttached sleep
    → AllAttached cs
    → send_rounds print sleep n t cs
      ≡ some
          (t + length (senders sleep n cs), after sleep n cs, numbered print t (senders sleep n cs))
unfolding send_rounds senders after numbered
send_rounds_lem print sleep zero t cs h keeps on =
    ap (λ n. some (n, sleep zero cs, [])) (omega arith)
send_rounds_lem print sleep (suc n) t cs h keeps on =
    let ds = sleep (suc n) cs in
    let now = connected_ones ds in
    let later = senders sleep n ds in
    rw
      (
        send_round_lem print t ds h (keeps (suc n) cs on),
        send_rounds_lem print sleep n (t + length now) ds h keeps (keeps (suc n) cs on),
      )
      (ap₂ (λ k es. some (k, after sleep n ds, es)) (omega (arith, length-append now later))
        (numbered-append print t now later))
