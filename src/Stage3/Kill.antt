-- ===== src/Stage3/Kill.antt =====
-- src/stage3.c, `kill_all` and `stage3`: which signals go out, and in which order the stages run.
use peso.Base.{◌≡◌, ◌≢◌, List, ◌∷◌, arith}
use peso.Os.{Signal, Call, reap_all, returned, gone, Kernel, Outcome, Trace, call}
use peso.Stage3.Facts.{signals}

-- The kernel returns from every call.
unfoldable pub Returns : Kernel → Type 0
Returns k = (t : Trace) (c : Call) → k t c ≢ gone

-- A call on such a kernel.
pub call-Returns :
    (k : Kernel) (t : Trace) (c : Call) → Returns k → call k c t ≡ returned (k t c) (c ∷ t)
unfolding Returns
call-Returns k t c h = ground (arith, h t c)

-- What the calls of a part did to the signals: it returned, and sent these, the latest first.
unfoldable pub Sends : {A : Type 0} → Outcome A → List Signal → Type 0
Sends {A = A} o l = (a : A) × (u : Trace) × (o ≡ returned a (reap_all ∷ u)) × (signals u ≡ l)
