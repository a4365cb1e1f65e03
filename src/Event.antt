-- ===== src/Event.antt =====
-- `UvEvent` of uv/Packet.h, what other threads hand to the thread of a loop. `_buff` is `none` for
-- the null pointer; an address is a number that stands for a `sockaddr`; `_data`, the pointer to the
-- object that handles the event, is the number `target` of that object.
use test_libuv.Common.{ℕ, Option, none, some, List, [], slice, ◌>>=◌}

pub data UvEventType : Type 0 where
  connect write close shutdown broadcast : UvEventType

pub record UvEvent : Type 0 where
  pub type : UvEventType
  pub buff : Option (List ℕ)
  pub size : ℕ
  pub list : List ℕ
  pub addr : ℕ
  pub target : ℕ

-- The event for `this`, with nothing in it but its type.
abbrev pub plain_event : UvEventType → ℕ → UvEvent
plain_event type this = record {
  type = type;
  buff = none;
  size = 0;
  list = [];
  addr = 0;
  target = this;
}

-- `CreateUvEvent(type, pBuff, size)`, and `_data = this`: the bytes are copied.
unfoldable pub create_uv_event : UvEventType → Option (List ℕ) → ℕ → ℕ → Option UvEvent
unfolding slice
create_uv_event type none size this = some (plain_event type this)
create_uv_event type (some bytes) size this = do
  copied ← slice bytes 0 size
  some (record (plain_event type this) { buff = some copied; size = size })
