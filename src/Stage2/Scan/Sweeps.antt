-- ===== src/Stage2/Scan/Sweeps.antt =====
-- src/stage2.c, the last loop of `scan`: the services that it keeps.
use peso.Base.{ℕ, suc, ◌≡◌, refl, true, List, [], ◌∷◌, ◌++◌, ap}
use peso.Stage2.{Service}
use peso.Stage2.Reap.{split_last}
use peso.Stage2.Scan.{is_gone, sweep}

split_last-++ :
    (v : Service) (us : List Service) (l : Service) → split_last v (us ++ l ∷ []) ≡ (v ∷ us, l)
unfolding split_last
split_last-++ v [] l = refl
split_last-++ v (u ∷ us) l = ap (λ p. (v ∷ p.0, p.1)) (split_last-++ u us l)

pub sweep-skips :
    (n : ℕ) (v l : Service) (us : List Service)
    → is_gone v ≡ true
    → sweep (suc n) (v ∷ (us ++ l ∷ [])) ≡ l ∷ sweep n us
unfolding sweep split_last
sweep-skips n v l [] g = rw (g, sweep) refl
sweep-skips n v l (u ∷ us) g = rw (g, sweep) (ap (λ p. p.1 ∷ sweep n p.0) (split_last-++ u us l))
