-- ===== src/Ui/Drawer/Listening.antt =====
-- The drawer's listener along every sequence of commits.
use bigfleet_web_dashboard.Prelude.{
  ℕ, ◌<◌, ◌≡◌, ◌⊎◌, refl, sym, ap, ◌∙◌, Bool, true, false, Option, none, some, List, [], ◌∷◌, ◌++◌,
  String, arith, if◌then◌else◌, str_eq, All, All-imp, Bool-cases, inl, inr,
}
use mathlib.Core.List.{append-nil}
use mathlib.Core.Path.{subst}
use bigfleet_web_dashboard.Ui.Drawer.{
  Listener, Props, Window, remove, run_effect, run_cleanup, press, Mounted, Step, mount, commit,
  commit_unchanged, unmount, Reach, here, next,
}

module _ (Close : Type 0) where
  -- The functions that the drawer has called on Escape.
  abbrev pub own : Option (Props Close) → List Close
  own none = []
  own (some p) = if p.is_open then p.on_close ∷ [] else []

  -- The window with the listeners of others alone, and with the drawer's behind them.
  abbrev IsQuiet : List (Listener Close) → Window Close → Type 0
  IsQuiet others w = (w.keydown ≡ others) × (w.cleanup ≡ none) × All (λ l. l.id < w.fresh) others

  abbrev IsListening : List (Listener Close) → Close → Window Close → Type 0
  IsListening others c w =
      (id : ℕ) × (w.keydown ≡ others ++ record { id = id; on_close = c } ∷ [])
      × (w.cleanup ≡ some id)
      × All (λ l. l.id < id) others
      × (id < w.fresh)

  abbrev Inv : List (Listener Close) → Mounted Close → Type 0
  Inv others (none, w) = IsQuiet others w
  Inv others (some p, w) =
      ((p.is_open ≡ true) × IsListening others p.on_close w)
      ⊎ ((p.is_open ≡ false) × IsQuiet others w)

  remove_own :
      (id : ℕ) (c : Close) (others : List (Listener Close))
      → All (λ l. l.id < id) others
      → remove Close id (others ++ record { id = id; on_close = c } ∷ []) ≡ others
  unfolding remove
  remove_own id c [] h = ground arith
  remove_own id c (l ∷ ls) h = ground (arith, remove_own id c ls)

  press-append :
      (key : String) (ls ks : List (Listener Close))
      → press Close key (ls ++ ks) ≡ press Close key ls ++ press Close key ks
  unfolding press
  press-append key [] ks = refl
  press-append key (l ∷ ls) ks = ground (arith, press-append key ls ks)

  run_effect-Inv :
      (others : List (Listener Close)) (p : Props Close) (w : Window Close)
      → IsQuiet others w
      → Inv others (some p, run_effect Close p w)
  unfolding run_effect
  run_effect-Inv others p w (e, c, h) = elim (Bool-cases p.is_open) [
    | inl o ↦ inl (
      o,
      rw o (
        w.fresh,
        ap (λ ls. ls ++ record { id = w.fresh; on_close = p.on_close } ∷ []) e,
        refl,
        h,
        ground arith,
      ),
    )
    | inr o ↦ inr (o, rw o (e, refl, h))
  ]

  listening_cleanup :
      (others : List (Listener Close)) (c : Close) (w : Window Close)
      → IsListening others c w
      → IsQuiet others (run_cleanup Close w)
  unfolding run_cleanup
  listening_cleanup others c w (id, e, k, h, lt) =
      rw (k, e) (remove_own id c others h, refl, All-imp others (λ l le. omega arith) h)

  run_cleanup-IsQuiet :
      (others : List (Listener Close)) (w : Window Close)
      → IsQuiet others w
      → IsQuiet others (run_cleanup Close w)
  unfolding run_cleanup
  run_cleanup-IsQuiet others w (e, k, h) = rw k (e, refl, h)

  cleanup-IsQuiet :
      (others : List (Listener Close)) (p : Props Close) (w : Window Close)
      → Inv others (some p, w)
      → IsQuiet others (run_cleanup Close w)
  cleanup-IsQuiet others p w (inl (o, l)) = listening_cleanup others p.on_close w l
  cleanup-IsQuiet others p w (inr (o, q)) = run_cleanup-IsQuiet others w q

  Step-Inv :
      (others : List (Listener Close)) {m n : Mounted Close}
      → Step Close m n
      → Inv others m
      → Inv others n
  Step-Inv others (mount p w) h = run_effect-Inv others p w h
  Step-Inv others (commit p q w) h =
      run_effect-Inv others q (run_cleanup Close w) (cleanup-IsQuiet others p w h)
  Step-Inv others (commit_unchanged p w) h = h
  Step-Inv others (unmount p w) h = cleanup-IsQuiet others p w h

  Reach-Inv :
      (others : List (Listener Close)) {m n : Mounted Close}
      → Reach Close m n
      → Inv others m
      → Inv others n
  Reach-Inv others here h = h
  Reach-Inv others (next r st) h = Step-Inv others st (Reach-Inv others r h)

  nothing : (b : Bool) (cs : List Close) → cs ≡ cs ++ (if b then [] else [])
  nothing true cs = sym (append-nil cs)
  nothing false cs = sym (append-nil cs)

  press_quiet :
      (key : String) (others : List (Listener Close)) (m : Mounted Close)
      → Inv others m
      → press Close key m.1.keydown
        ≡ press Close key others ++ (if str_eq key "Escape" then own m.0 else [])
  unfolding press
  press_quiet key others (none, w) h =
      ap (press Close key) h.0 ∙ nothing (str_eq key "Escape") (press Close key others)
  press_quiet key others (some p, w) (inl (o, (id, e, c, h, lt))) = rw o (
      ap (press Close key) e
      ∙ press-append key others (record { id = id; on_close = p.on_close } ∷ []))
  press_quiet key others (some p, w) (inr (o, q)) =
      rw o (ap (press Close key) q.0 ∙ nothing (str_eq key "Escape") (press Close key others))

  -- After every sequence of commits, from a window in which the drawer has no listener and no
  -- listener is the object that is made next or a later one, Escape calls what it called before
  -- and, exactly where the drawer is mounted and open, behind that once the `onClose` of the last
  -- commit; other keys call nothing more. The unmounted drawer leaves the window's listeners as
  -- they were.
  pub Reach-press :
      {o : Option (Props Close)} (w u : Window Close)
      → Reach Close (none, w) (o, u)
      → w.cleanup ≡ none
      → All (λ l. l.id < w.fresh) w.keydown
      → ((key : String)
          → press Close key u.keydown
            ≡ press Close key w.keydown ++ (if str_eq key "Escape" then own o else []))
        × (o ≡ none → u.keydown ≡ w.keydown)
  Reach-press {o} w u r c h =
      let inv = Reach-Inv w.keydown r (refl, c, h) in
      (
        λ key. press_quiet key w.keydown (o, u) inv,
        λ e. (subst (λ x. Inv w.keydown (x, u)) e inv).0,
      )
