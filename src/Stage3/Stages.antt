-- ===== src/Stage3/Stages.antt =====
-- src/stage3.c, `stage3`: which stages are run before the system goes down.
use peso.Base.{
  ◌*◌, ◌≡◌, refl, ◌∙◌, ap, sym, List, [], ◌∷◌, ◌++◌, inl, inr, Bool-cases, ltb, ℕ, arith,
}
use peso.Os.{
  Stage, stage3a, stage3b, Call, run_conf, announce, sync, setup_env, umask, set_rlimits, setsid,
  setpgid, chdir_root, setup_sigs, reap_some, reap_all, chvt, leave_stage2, killed_all, close, kill,
  everyone, sigterm, sighup, sigcont, sigkill, sleep, Answer, ok, returned, Kernel, M, Trace, ◌>>=◌,
  ◌>>◌, call,
}
use peso.Stage3.{
  Flags, none_left, pause_for, kill_more, kill_rest, kill_all, goal, enter_stage3, run_stages,
  last_words, sys_down, stage3,
}
use peso.Stage3.Kill.{Returns, call-Returns}

-- The stages that were run, latest first.
unfoldable pub stages : Trace → List Stage
stages [] = []
stages (run_conf s ∷ t) = s ∷ stages t
stages (c ∷ t) = stages t

-- The program returns, having run these stages, the latest first.
unfoldable pub Runs : M Answer → List Stage → Type 0
Runs m l =
    (t : Trace) → (a : Answer) × (u : Trace) × (m t ≡ returned a u) × (stages u ≡ l ++ stages t)

append_assoc : (a b c : List Stage) → (a ++ b) ++ c ≡ a ++ (b ++ c)
append_assoc [] b c = refl
append_assoc (x ∷ a) b c = ap (λ l. x ∷ l) (append_assoc a b c)

module _ (k : Kernel) (h : Returns k) where
  call-Runs :
      (c : Call) (l : List Stage)
      → ((t : Trace) → stages (c ∷ t) ≡ l ++ stages t)
      → Runs (call k c) l
  unfolding Runs
  call-Runs c l e t = (k t c, c ∷ t, call-Returns k t c h, e t)

  >>=-Runs :
      (m : M Answer) (f : Answer → M Answer) (l : List Stage)
      → Runs m []
      → ((a : Answer) → Runs (f a) l)
      → Runs (m >>= f) l
  unfolding Runs
  >>=-Runs m f l r q t =
      let (a, u, e, s) = r t in
      let (b, v, d, p) = q a u in (b, v, ground (arith, e, d), p ∙ ap (λ x. l ++ x) s)

  -- A call that runs no stage, and what follows it.
  quiet :
      (c : Call) (m : M Answer) (l : List Stage)
      → ((t : Trace) → stages (c ∷ t) ≡ stages t)
      → Runs m l
      → Runs (call k c >> m) l
  unfolding Runs
  quiet c m l s q t =
      let (b, v, d, p) = q (c ∷ t) in
      (b, v, ground (arith, call-Returns k t c h, d), p ∙ ap (λ x. l ++ x) (s t))

  pause_for-Runs : (n : ℕ) → Runs (pause_for k n) []
  unfolding pause_for stages Runs
  pause_for-Runs n t = elim (Bool-cases (ltb 0 n)) [
    | inl y ↦ (k t (sleep n), sleep n ∷ t, ground (arith, y, call-Returns k t (sleep n) h), refl)
    | inr y ↦ (ok 0, t, ground (arith, y), refl)
  ]

  >>-Runs : (m n : M Answer) (l q : List Stage) → Runs m l → Runs n q → Runs (m >> n) (q ++ l)
  unfolding Runs
  >>-Runs m n l q r w t =
      let (a, u, e, s) = r t in
      let (b, v, d, p) = w u in
      (b, v, ground (arith, e, d), p ∙ (ap (λ x. q ++ x) s ∙ sym (append_assoc q l (stages t))))

  kill_more-Runs : (n : ℕ) (b : Answer) → Runs (kill_more k n b) []
  unfolding kill_more stages
  kill_more-Runs n b = elim (Bool-cases (none_left b)) [
    | inl y ↦ rw y (call-Runs reap_all [] (λ t. refl))
    | inr y ↦ rw y (
        quiet (kill everyone sigcont) _ [] (λ t. refl)
          (>>-Runs (pause_for k n) _ [] [] (pause_for-Runs n) (
            quiet reap_some _ [] (λ t. refl)
              (quiet (kill everyone sigkill) _ [] (λ t. refl)
                (call-Runs reap_all [] (λ t. refl))))))
  ]

  kill_rest-Runs : (n : ℕ) (a : Answer) → Runs (kill_rest k n a) []
  unfolding kill_rest stages
  kill_rest-Runs n a = elim (Bool-cases (none_left a)) [
    | inl y ↦ rw y (call-Runs reap_all [] (λ t. refl))
    | inr y ↦ rw y (
        >>-Runs (pause_for k n) _ [] [] (pause_for-Runs n) (
          quiet reap_some _ [] (λ t. refl)
            (>>=-Runs (call k (kill everyone sighup)) (kill_more k n) []
              (call-Runs (kill everyone sighup) [] (λ t. refl)) (kill_more-Runs n))))
  ]

  kill_all-Runs : (n : ℕ) → Runs (kill_all k n) []
  unfolding kill_all stages
  kill_all-Runs n =
      quiet reap_some _ [] (λ t. refl)
        (>>=-Runs (call k (kill everyone sigterm)) (kill_rest k n) []
          (call-Runs (kill everyone sigterm) [] (λ t. refl)) (kill_rest-Runs n))

  -- `run_stages` from the second stage on
  second-Runs :
      Runs
        (call k (run_conf stage3b)
          >> (call k reap_some >> (kill_all k (100 * 1000) >> call k chdir_root)))
        (stage3b ∷ [])
  unfolding stages
  second-Runs =
      >>-Runs (call k (run_conf stage3b)) _ (stage3b ∷ []) []
        (call-Runs (run_conf stage3b) (stage3b ∷ []) (λ t. refl))
        (quiet reap_some _ [] (λ t. refl)
          (>>-Runs (kill_all k (100 * 1000)) _ [] [] (kill_all-Runs (100 * 1000))
            (call-Runs chdir_root [] (λ t. refl))))

  pub run_stages-Runs : Runs (run_stages k) (stage3b ∷ stage3a ∷ [])
  unfolding run_stages stages
  run_stages-Runs =
      >>-Runs (call k (run_conf stage3a)) _ (stage3a ∷ []) (stage3b ∷ [])
        (call-Runs (run_conf stage3a) (stage3a ∷ []) (λ t. refl))
        (quiet reap_some _ (stage3b ∷ []) (λ t. refl)
          (>>-Runs (kill_all k (400 * 1000)) _ [] (stage3b ∷ []) (kill_all-Runs (400 * 1000)) (
            quiet chdir_root _ (stage3b ∷ []) (λ t. refl)
              (quiet sync _ (stage3b ∷ []) (λ t. refl)
                (quiet (chvt 1) _ (stage3b ∷ []) (λ t. refl)
                  (quiet killed_all _ (stage3b ∷ []) (λ t. refl) second-Runs))))))

  enter_stage3-Runs : Runs (enter_stage3 k) []
  unfolding enter_stage3 stages
  enter_stage3-Runs =
      quiet setup_env _ [] (λ t. refl)
        (quiet umask _ [] (λ t. refl)
          (quiet set_rlimits _ [] (λ t. refl)
            (quiet sync _ [] (λ t. refl)
              (quiet setsid _ [] (λ t. refl)
                (quiet setpgid _ [] (λ t. refl)
                  (quiet chdir_root _ [] (λ t. refl)
                    (quiet setup_sigs _ [] (λ t. refl)
                      (quiet reap_some _ [] (λ t. refl)
                        (quiet sync _ [] (λ t. refl)
                          (quiet (chvt 1) _ [] (λ t. refl)
                            (call-Runs leave_stage2 [] (λ t. refl))))))))))))

  last_words-Runs : (f : Flags) → Runs (last_words k f) []
  unfolding last_words stages
  last_words-Runs f =
      quiet (chvt 1) _ [] (λ t. refl)
        (quiet (announce (goal f)) _ [] (λ t. refl)
          (quiet sync _ [] (λ t. refl)
            (quiet (close 0) _ [] (λ t. refl)
              (quiet (close 1) _ [] (λ t. refl) (call-Runs (close 2) [] (λ t. refl))))))

-- On a kernel that returns from every call, `stage3` comes to `sys_down` with the same flags,
-- and has run stage 3a and then stage 3b before it, once each and no other.
pub stage3-stages :
    (n : ℕ) (k : Kernel) (pid : ℕ) (f : Flags) (t : Trace)
    → Returns k
    → (u : Trace) × (stage3 n k pid f t ≡ sys_down n k pid f u)
      × (stages u ≡ stage3b ∷ stage3a ∷ stages t)
unfolding stage3 Runs
stage3-stages n k pid f t h =
    let (a, u, e, p) = enter_stage3-Runs k h t in
    let (b, v, d, q) = run_stages-Runs k h u in
    let (c, w, g, r) = last_words-Runs k h f v in
    (w, ground (arith, e, d, g), r ∙ (q ∙ ap (λ l. stage3b ∷ stage3a ∷ l) p))
