-- ===== src/TcpClient/Outbox/Handle.antt =====
-- What the queue of a `CTcpClient` writes when the loop handles it.
use test_libuv.Common.{
  ℕ, ◌≡◌, refl, sym, ap, ◌∙◌, Option, none, some, List, [], ◌∷◌, ◌++◌, append-nil, append_assoc,
  arith, ℤ, take, slice_lem, take_all,
}
use test_libuv.Event.{UvEventType, UvEvent}
use test_libuv.Looper.{handle_all}
use test_libuv.TcpClient.{
  TcpClient, Effect, writes, do_event, connectinl, closeinl, shutdowinl, sendinl,
}
use test_libuv.TcpClient.Outbox.{written, payload, pending, FitsIn, AllFit, handle}

connectinl-written :
    (addr_code connect_code : ℤ) (c : TcpClient)
    → written (connectinl addr_code connect_code c).1 ≡ []
unfolding written connectinl
connectinl-written addr_code connect_code c = ground arith

closeinl-written : (c : TcpClient) → written (closeinl c).1 ≡ []
unfolding written closeinl
closeinl-written c = ground arith

do_event_lem :
    (addr_code connect_code : ℤ) (type : UvEventType) (buff : Option (List ℕ)) (size : ℕ)
    (list : List ℕ) (addr target : ℕ) (c : TcpClient)
    → FitsIn buff size
    → (c' : TcpClient) × (es : List Effect) × (do_event addr_code connect_code
          (record {
            type = type;
            buff = buff;
            size = size;
            list = list;
            addr = addr;
            target = target;
          })
          c
        ≡ some (c', es))
      × (written es ≡ payload type buff)
unfolding do_event FitsIn payload written shutdowinl sendinl
do_event_lem ac conn UvEventType.connect buff size list addr target c h =
    (_, _, refl, connectinl-written ac conn c)
do_event_lem ac conn UvEventType.close buff size list addr target c h =
    (_, _, refl, closeinl-written c)
do_event_lem ac conn UvEventType.shutdown buff size list addr target c h = (_, _, refl, refl)
do_event_lem ac conn UvEventType.broadcast buff size list addr target c h = (_, _, refl, refl)
do_event_lem ac conn UvEventType.write none size list addr target c h = (_, _, refl, refl)
do_event_lem ac conn UvEventType.write (some bytes) size list addr target c h = (
  c,
  writes (take size bytes) ∷ [],
  rw (slice_lem bytes 0 size (omega arith)) refl,
  ap (λ l. l ∷ []) (take_all size bytes (omega arith)),
)

module _ (addr_code connect_code : UvEvent → ℤ) where
  pub handle_all-pending :
      (queue : List UvEvent) (c : TcpClient) (w : List (List ℕ))
      → AllFit queue
      → (c' : TcpClient) × (handle_all (handle addr_code connect_code) queue (some (c, w))
          ≡ some (c', w ++ pending queue))
  unfolding handle_all handle pending AllFit
  handle_all-pending [] c w h = (c, ap (λ l. some (c, l)) (sym (append-nil w)))
  handle_all-pending (e ∷ queue) c w (h, hs) =
      let (c1, es, ran, wrote) =
        do_event_lem (addr_code e) (connect_code e) e.type e.buff e.size e.list e.addr e.target c
          h in
      let (c2, rest) = handle_all-pending queue c1 (w ++ written es) hs in
      (
        c2,
        rw (ran, handle)
            (rest
              ∙ ap (λ l. some (c2, l))
                  (append_assoc w (written es) (pending queue)
                    ∙ ap (λ l. w ++ (l ++ pending queue)) wrote)),
      )
