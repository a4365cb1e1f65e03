-- ===== src/UvThread/Life.antt =====
-- What a `CUVThread` does from its constructor to its destructor.
use test_libuv.Common.{◌≡◌, refl, ap, Bool, true, false, List, [], ◌∷◌, ℤ}
use test_libuv.UvThread.{UvThread, Effect, creates, joins, init, Call, starts, stops, call, life}

-- Each thread is joined before the next one is created.
unfoldable pub one_by_one : List ℤ → List Effect
one_by_one [] = []
one_by_one (code ∷ codes) = creates code ∷ joins ∷ one_by_one codes

-- From a state on: a running thread is joined first.
Ends : List Call → Bool → Type 0
Ends xs false = (codes : List ℤ) × ((life xs (record { is_running = false })).1 ≡ one_by_one codes)
Ends xs true =
    (codes : List ℤ) × ((life xs (record { is_running = true })).1 ≡ joins ∷ one_by_one codes)

life-Ends : (xs : List Call) (running : Bool) → Ends xs running
unfolding Ends life one_by_one
life-Ends [] false = ([], refl)
life-Ends [] true = ([], refl)
life-Ends (starts code ∷ xs) false =
    let (codes, e) = life-Ends xs true in (code ∷ codes, ap (λ es. creates code ∷ es) e)
life-Ends (starts code ∷ xs) true = life-Ends xs true
life-Ends (stops ∷ xs) false = life-Ends xs false
life-Ends (stops ∷ xs) true =
    let (codes, e) = life-Ends xs false in (codes, ap (λ es. joins ∷ es) e)

life_ends : (xs : List Call) (t : UvThread) → (life xs t).0.is_running ≡ false
unfolding life
life_ends [] t = refl
life_ends (x ∷ xs) t = life_ends xs (call x t).0

-- Whatever calls of `Start` and `Stop` come between the constructor and the destructor, and whatever
-- `uv_thread_create` returns: the threads are created one by one, each joined before the
-- next one and before the object goes, and the object ends as not running. The bug: that holds of a thread that could not
-- be created as well.
pub life-one_by_one :
    (xs : List Call)
    → (codes : List ℤ) × ((life xs init).1 ≡ one_by_one codes)
      × ((life xs init).0.is_running ≡ false)
unfolding init Ends
life-one_by_one xs = let (codes, e) = life-Ends xs false in (codes, e, life_ends xs init)
