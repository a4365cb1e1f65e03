-- ===== src/RoundTrip/Datagram.antt =====
-- `TestUdpClientFunc` and `TestUdpSvrFunc` together: a number that the client sends, through both
-- loops and the echo, back to the client's callback. The network brings a datagram whole, if it
-- brings it.
use test_libuv.Common.{
  Bool, ℕ, suc, ◌≤◌, ◌≡◌, refl, ap, ◌∙◌, true, false, inl, inr, some, List, [], ◌∷◌, arith, length,
  take, take_all, slice_lem, copy_lem, pos, replicate, length-replicate, leb,
}
use test_libuv.PacketSync.{Allocator}
use test_libuv.Udp.{Udp, pushes, sends, calls_recv, send_to, do_event, after_recv}
use test_libuv.Udp
use test_libuv.Udp.Sending.{datagram, send_to_lem}
use test_libuv.TestServer
use test_libuv.TestClient.{send_datagram}
use test_libuv.TestClient.Rounds.{print_number_lem}
use test_libuv.TestClient

-- What `Send` of all of `bytes` does, up to `uv_udp_send`.
record Goes (a : Allocator) (trunc : ℕ → ℕ) (bytes : List ℕ) (addr : ℕ) (u : Udp) : Type 0 where
  answer :
      send_to trunc bytes (length bytes) addr u
      ≡ some (length bytes, pushes (datagram trunc bytes (length bytes) addr u) ∷ [])
  leaves :
      do_event a (datagram trunc bytes (length bytes) addr u) u
      ≡ some (sends (trunc addr) bytes ∷ [])

send_to-Goes :
    (a : Allocator) (trunc : ℕ → ℕ) (bytes : List ℕ) (addr : ℕ) (u : Udp)
    → u.loop ≡ true
    → length bytes ≤ 1400
    → Goes a trunc bytes addr u
send_to-Goes a trunc bytes addr u on small =
    elim (send_to_lem a trunc bytes (length bytes) addr u on (omega arith)) [
      | inl (l, answer, leaves) ↦ record {
        answer = answer;
        leaves =
            leaves
            ∙ ap (λ b. some (sends (trunc addr) b ∷ []))
                (take_all (length bytes) bytes (omega arith));
      }
      | inr (l, e) ↦ absurd (omega arith)
    ]

-- What `AfterRecv` tells the user of a datagram that stands in the read buffer.
after_recv_lem :
    (buf bytes : List ℕ) (n addr : ℕ) (u : Udp)
    → u.has_recv_cb ≡ true
    → length bytes ≡ suc n
    → suc n ≤ length buf
    → take (suc n) buf ≡ bytes
    → after_recv buf (pos (suc n)) addr u ≡ some (calls_recv bytes addr ∷ [])
unfolding after_recv
after_recv_lem buf bytes n addr u cb l fits e =
    rw (cb, slice_lem buf 0 (suc n) (omega arith), e) refl

-- The echo of a datagram that fits into its array is `Send` of all of it.
on_udp_recv_lem :
    (trunc : ℕ → ℕ) (bytes : List ℕ) (from : ℕ) (u : Udp)
    → length bytes ≤ 1024
    → TestServer.on_udp_recv trunc bytes from u ≡ send_to trunc bytes (length bytes) from u
unfolding TestServer.on_udp_recv
on_udp_recv_lem trunc bytes from u l =
    let array : List ℕ = replicate 1024 0 in
    let size : length array ≡ 1024 = length-replicate {A = ℕ} 1024 0 in
    rw (copy_lem array 0 bytes 0 (length bytes) (omega arith) (omega (arith, size))) refl

send-send_to :
    (trunc : ℕ → ℕ) (to_addr : List ℕ → ℕ → Bool → ℕ) (bytes ip : List ℕ) (size port : ℕ)
    (v6 : Bool) (u : Udp)
    → size ≤ 1400
    → Udp.send trunc to_addr bytes size ip port v6 u
      ≡ send_to trunc bytes size (to_addr ip port v6) u
unfolding Udp.send
send-send_to trunc to_addr bytes ip size port v6 u h =
    let fits : leb size 1400 ≡ true = ground arith in rw (fits) refl

-- A text of at least one and at most 255 bytes, which fits into the client's array, that it sends
-- as its next number goes out once, to the server's address as far as the event holds it; brought
-- into the server's read buffer, it is what the server's user gets, with the address it came from.
-- The echo sends it back to this address as far as its event holds it, once and byte for byte, and
-- brought into the client's read buffer the client's user gets it and copies it inside its array.
pub udp_round_trip :
    (a : Allocator) (trunc : ℕ → ℕ) (to_addr : List ℕ → ℕ → Bool → ℕ) (print : ℕ → List ℕ)
    (call_time n from back : ℕ) (ip text sbuf cbuf : List ℕ) (c s : Udp)
    → c.loop ≡ true
    → s.loop ≡ true
    → c.has_recv_cb ≡ true
    → s.has_recv_cb ≡ true
    → print (suc call_time) ≡ text
    → length text ≡ suc n
    → length text ≤ 255
    → suc n ≤ length sbuf
    → take (suc n) sbuf ≡ text
    → suc n ≤ length cbuf
    → take (suc n) cbuf ≡ text
    → let server = to_addr ip 6666 false in
      let e = datagram trunc text (length text) server c in
      let f = datagram trunc text (length text) from s in
      (send_datagram trunc to_addr print call_time ip c
        ≡ some (suc call_time, length text, pushes e ∷ []))
      × (do_event a e c ≡ some (sends (trunc server) text ∷ []))
      × (after_recv sbuf (pos (suc n)) from s ≡ some (calls_recv text from ∷ []))
      × (TestServer.on_udp_recv trunc text from s ≡ some (length text, pushes f ∷ []))
      × (do_event a f s ≡ some (sends (trunc from) text ∷ []))
      × (after_recv cbuf (pos (suc n)) back c ≡ some (calls_recv text back ∷ []))
      × ((array : List ℕ) × (TestClient.on_udp_recv text ≡ some array))
unfolding send_datagram TestClient.on_udp_recv
udp_round_trip a trunc to_addr print call_time n from back ip text sbuf cbuf c s con son ccb scb
      printed size small sfits sgot cfits cgot =
    let out = send_to-Goes a trunc text (to_addr ip 6666 false) c con (omega arith) in
    let answer = send_to-Goes a trunc text from s son (omega arith) in
    (
      rw
          (
            print_number_lem print (suc call_time) (omega (arith, small, ap length printed)),
            printed,
            send-send_to trunc to_addr text ip (length text) 6666 false c (omega arith),
            out.answer,
          )
          refl,
      out.leaves,
      after_recv_lem sbuf text n from s scb size sfits sgot,
      on_udp_recv_lem trunc text from s (omega arith) ∙ answer.answer,
      answer.leaves,
      after_recv_lem cbuf text n back c ccb size cfits cgot,
      (
        _,
        copy_lem (replicate 1024 0) 0 text 0 (length text) (omega arith)
            (omega (arith, length-replicate {A = ℕ} 1024 0)),
      ),
    )
