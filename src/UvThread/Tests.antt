-- ===== src/UvThread/Tests.antt =====
-- A thread that is started twice and stopped twice, and one that cannot be created.
use test_libuv.Common.{◌≡◌, false, List, [], ◌∷◌, ℤ, pos, negsuc}
use test_libuv.UvThread.{init, Call, starts, stops, life}
use test_libuv.UvThread.Life.{one_by_one, life-one_by_one}

abbrev calls : List Call
calls = starts (pos 0) ∷ starts (pos 0) ∷ stops ∷ stops ∷ starts (negsuc 10) ∷ []

life-one_by_one_example :
    (codes : List ℤ) × ((life calls init).1 ≡ one_by_one codes)
    × ((life calls init).0.is_running ≡ false)
life-one_by_one_example = life-one_by_one calls
