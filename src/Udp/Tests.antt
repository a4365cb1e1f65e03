-- ===== src/Udp/Tests.antt =====
-- Runs of `Send` and of its event. The address 5 is one that the event holds.
use test_libuv.Common.{◌≡◌, refl, true, false, none, some, [], ◌∷◌, replicate}
use test_libuv.Udp.{Udp, pushes, send_to}
use test_libuv.Udp.Sending.{datagram}

abbrev endpoint : Udp
endpoint = record { udp_id = 1; loop = true; errmsg = none; has_recv_cb = false }

two_bytes :
    send_to (λ x. x) (4 ∷ 2 ∷ []) 2 5 endpoint
    ≡ some (2, pushes (datagram (λ x. x) (4 ∷ 2 ∷ []) 2 5 endpoint) ∷ [])
unfolding send_to
two_bytes = refl

too_many : send_to (λ x. x) (replicate 1401 0) 1401 5 endpoint ≡ none
unfolding send_to
too_many = refl
