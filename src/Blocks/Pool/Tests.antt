-- ===== src/Blocks/Pool/Tests.antt =====
-- Three sends of a server: one that is under way, one that `uv_write` refuses, and one that takes
-- the request of that and needs a bigger block.
use test_libuv.Common.{ℕ, ◌≡◌, refl, true, false, some, [], ◌∷◌, pos, negsuc, count, take_out}
use test_libuv.Blocks.{free, alloc_write_param}
use test_libuv.Blocks.Pool.{
  PoolRequest, PoolSystem, realloc, take_request, widen_request, sendinl, after_send,
}
use test_libuv.Blocks.Pool.Steps.{here, next, sends, sent, start, IsKept, Reach-IsKept}

abbrev request : ℕ → ℕ → ℕ → PoolRequest
request address base len = record { block = record { address = address; base = base }; len = len }

abbrev one_sent : PoolSystem
one_sent = record {
  heap = record { next = 2; live = 1 ∷ 0 ∷ [] };
  available = [];
  writing = request 0 1 10 ∷ [];
}

abbrev one_refused : PoolSystem
one_refused = record {
  heap = record { next = 4; live = 3 ∷ 2 ∷ 1 ∷ 0 ∷ [] };
  available = request 2 3 20 ∷ [];
  writing = request 0 1 10 ∷ [];
}

abbrev two_sent : PoolSystem
two_sent = record {
  heap = record { next = 5; live = 4 ∷ 2 ∷ 1 ∷ 0 ∷ [] };
  available = [];
  writing = request 0 1 10 ∷ request 2 4 30 ∷ [];
}

abbrev first_back : PoolSystem
first_back = record {
  heap = record { next = 5; live = 4 ∷ 2 ∷ 1 ∷ 0 ∷ [] };
  available = request 0 1 10 ∷ [];
  writing = request 2 4 30 ∷ [];
}

sends_first : sendinl false (pos 0) 10 (start 0) ≡ some one_sent
unfolding sendinl take_request widen_request alloc_write_param count
sends_first = refl

refuses_second : sendinl false (negsuc 0) 20 one_sent ≡ some one_refused
unfolding sendinl take_request widen_request alloc_write_param count
refuses_second = refl

moves_third : sendinl true (pos 0) 30 one_refused ≡ some two_sent
unfolding sendinl take_request widen_request realloc free take_out count
moves_third = refl

calls_first : after_send (request 0 1 10) (request 2 4 30 ∷ []) two_sent ≡ some first_back
unfolding after_send
calls_first = refl

Reach-IsKept_example : IsKept first_back
Reach-IsKept_example = Reach-IsKept 0 first_back (
    next
      (next
        (next (next here (sends false (pos 0) 10 sends_first))
          (sends false (negsuc 0) 20 refuses_second))
        (sends true (pos 0) 30 moves_third))
      (sent (request 0 1 10) [] (request 2 4 30 ∷ []) refl calls_first))
