-- ===== src/Ui/Drawer.antt =====
-- ui/src/components/Drawer.tsx: the panel's listener for the Escape key. React, a third-party
-- library, decides when the effect runs: after a commit in which `open` or `onClose` changed its
-- cleanup and then the effect, at any other commit either that or nothing. `Close` stands for the
-- functions that are passed as `onClose`.
pub mod Listening
use bigfleet_web_dashboard.Prelude.{
  ℕ, ◌+◌, ◌≡◌, Bool, true, false, not, Option, none, some, List, [], ◌∷◌, ◌++◌, String,
  if◌then◌else◌, ◌==◌, filter, str_eq,
}

module _ (Close : Type 0) where
  -- A function `onKey`, an object of its own, and the `onClose` that it calls.
  pub record Listener : Type 0 where
    pub id : ℕ
    pub on_close : Close

  pub record Props : Type 0 where
    pub is_open : Bool
    pub on_close : Close

  -- `keydown` holds the listeners of the window, `cleanup` what the last run of the effect left to
  -- be removed, and `fresh` is the next new object.
  pub record Window : Type 0 where
    pub keydown : List Listener
    pub cleanup : Option ℕ
    pub fresh : ℕ

  -- `window.removeEventListener`
  unfoldable pub remove : ℕ → List Listener → List Listener
  remove id ls = filter (λ l. not (l.id == id)) ls

  unfoldable pub run_effect : Props → Window → Window
  run_effect p w = if not p.is_open then record w { cleanup = none } else record {
    keydown = w.keydown ++ record { id = w.fresh; on_close = p.on_close } ∷ [];
    cleanup = some w.fresh;
    fresh = w.fresh + 1;
  }

  unfoldable pub run_cleanup : Window → Window
  unfolding remove
  run_cleanup w = elim w.cleanup [
    | none ↦ w
    | some id ↦ record w { keydown = remove id w.keydown; cleanup = none }
  ]

  -- What the listeners call when a key is pressed.
  unfoldable pub press : String → List Listener → List Close
  press key [] = []
  press key (l ∷ ls) =
      let rest = press key ls in if str_eq key "Escape" then l.on_close ∷ rest else rest

  -- The component with the props of its last commit, while it is mounted.
  abbrev pub Mounted : Type 0
  Mounted = Option Props × Window

  pub data Step : Mounted → Mounted → Type 0 where
    mount : (p : Props) (w : Window) → Step (none, w) (some p, run_effect p w)
    commit : (p q : Props) (w : Window) → Step (some p, w) (some q, run_effect q (run_cleanup w))
    commit_unchanged : (p : Props) (w : Window) → Step (some p, w) (some p, w)
    unmount : (p : Props) (w : Window) → Step (some p, w) (none, run_cleanup w)

  pub data Reach (m : Mounted) : Mounted → Type 0 where
    here : Reach m m
    next : {n k : Mounted} → Reach m n → Step n k → Reach m k
