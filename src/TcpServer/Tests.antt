-- ===== src/TcpServer/Tests.antt =====
-- Runs of `CTcpServer`, and its theorems at them.
use test_libuv.Common.{ℕ, ◌≡◌, refl, true, false, some, List, [], ◌∷◌, arith, pos}
use test_libuv.PacketSync.Plain.{plain}
use test_libuv.TcpServer.{
  HandleState, active, closing, SessionCtx, Session, WriteParam, TcpServer, Effect, ErrMsg,
  no_error, find,
}
use test_libuv.TcpServer.Accept.{accept_connection}
use test_libuv.TcpServer.Reuse.{accept_keeps_bytes, accept_lem, Answers}
use test_libuv.TcpServer.Sending.{broadcastinl}
use test_libuv.TcpServer.Writes.{IsPool, AllValid, with_pool}
use test_libuv.TcpServer.Broadcast.{broadcastinl-Reaches, Reaches, recipients}
use test_libuv.TcpServer.Maps.{IsMap}

-- A context in which a closed client has left three bytes.
abbrev ctx_at : ℕ → HandleState → ℕ → SessionCtx
ctx_at address handle id = record {
  address = address;
  handle = handle;
  packet = record {
    base = 0x32 ∷ 0xD5 ∷ 0x32 ∷ [];
    len = 3;
    real_packet_len = 3;
    head = 7;
    has_callback = true;
  };
  client_id = id;
  parent_session = some id;
}

abbrev session_at : ℕ → ℕ → Session
session_at address id = record { ctx = ctx_at address active id; is_closed = false; looper = true }

-- Sessions 1 and 3 are there, 2 has gone and its context waits.
abbrev busy : TcpServer
busy = record {
  packet_head = 7;
  is_closed = false;
  errmsg = no_error;
  looper = true;
  bind_ip = [];
  bind_port = 6666;
  has_new_conn_cb = true;
  has_close_cb = true;
  has_recv_cb = true;
  session_map = (1, session_at 0 1) ∷ (3, session_at 2 3) ∷ [];
  idle = ctx_at 1 closing 2 ∷ [];
  writeparams = record { base = 0 ∷ 0 ∷ []; len = 1 } ∷ [];
  last_id = 3;
  heap = 3;
  freed = [];
}

busy-IsMap : IsMap 1 4 busy.session_map
unfolding IsMap
busy-IsMap = (omega arith, refl, (omega arith, refl, omega arith))

busy-IsPool : IsPool busy.writeparams
unfolding IsPool AllValid
busy-IsPool = ((omega arith, tt), omega arith)

accept_lem_example :
    Answers true busy (accept_connection plain (pos 0) (pos 0) (pos 0) (pos 0) busy)
accept_lem_example = accept_lem plain (pos 0) (pos 0) (pos 0) (pos 0) busy

accept_keeps_bytes_example :
    let s' = (accept_connection plain (pos 0) (pos 0) (pos 0) (pos 0) busy).0 in
    (v : Session) × (find 4 s'.session_map ≡ some v)
    × (v.ctx.address ≡ 1)
    × (v.ctx.packet.base ≡ 0x32 ∷ 0xD5 ∷ 0x32 ∷ [])
    × (v.ctx.packet.real_packet_len ≡ 3)
accept_keeps_bytes_example = accept_keeps_bytes plain busy (ctx_at 1 closing 2) [] refl busy-IsMap

-- Session 1 is left out, twice.
broadcastinl-Reaches_example :
    (ps : List WriteParam) × (e : ErrMsg) × (es : List Effect) × (broadcastinl plain
        (λ x. pos 0)
        (5 ∷ 6 ∷ [])
        2
        (1 ∷ 1 ∷ [])
        busy
      ≡ some (with_pool ps e busy, es))
    × Reaches (5 ∷ 6 ∷ []) (ctx_at 2 active 3 ∷ []) es
    × IsPool ps
unfolding recipients
broadcastinl-Reaches_example =
    broadcastinl-Reaches plain (λ x. pos 0) (5 ∷ 6 ∷ []) 2 (1 ∷ 1 ∷ []) busy busy-IsMap busy-IsPool
      (omega arith)
