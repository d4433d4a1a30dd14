-- ===== src/Needs/Walk/Keys.antt =====
-- The keys of the walk's items, by which React tells the items apart.
pub mod Cohorts
pub mod Items
use Prim.Native.Char.{Char, code}
use text.Mathlib.TextLemmas.{nil-append, cons-append, append_assoc, append_cancel_left}
use bigfleet_web_dashboard.Prelude.{
  ℕ, ◌+◌, ◌-◌, ◌*◌, ◌≤◌, ◌≡◌, ◌≢◌, refl, sym, ap, ◌∙◌, ◌⊎◌, inl, inr, Bool, true, false, Option,
  none, some, List, [], ◌∷◌, ◌++◌, String, arith, if◌then◌else◌, ◌==◌, ◌<>◌, Bool-cases, length,
  All, All-imp, All-append, All-of_forall, Ordered, Ordered-filter, filter, str_eq, str_eq_iff,
}
use bigfleet_web_dashboard.Prelude.Show.{show, show_ℤ}
use bigfleet_web_dashboard.Prelude.Show.Digits.{
  all_chars, is_numeral, show_numerals, show_inj, last_inj, read_from, read-show,
}
use bigfleet_web_dashboard.Prelude.Dict.{Dict, keys, Distinct, All-ne_of_has}
use bigfleet_web_dashboard.Prelude.Sort.{sort_by, sort_by-Ordered_symm}
use bigfleet_web_dashboard.Api.Demand.{NeedView}
use bigfleet_web_dashboard.Needs.Walk.{
  WalkItem, header, cutline, row, Group, is_at, is_cohort, leads, cohorts, cohort_rows,
  cohort_items, contested, pool, all_cohort_items, flat_rows, flat_tail, grouping, build_walk,
  find_cut,
}
use bigfleet_web_dashboard.Needs.Walk.Groups.{grouping-Invariant}

abbrev pub key_of : WalkItem → String
key_of (header key fp count contested supply) = key
key_of (cutline key below) = key
key_of (row key n) = key

abbrev pub Differ : WalkItem → WalkItem → Type 0
Differ a b = key_of a ≢ key_of b

-- The kind of a key: its first character.
abbrev pub kind : String → ℕ
kind String.[] = 0
kind (String.◌∷◌ c s) = code c

pub kind-append : (c : Char) (s t : String) → kind (String.◌∷◌ c s <> t) ≡ code c
kind-append c s t = rw (cons-append c s t) refl

not_colon :
    (s : String)
    → all_chars is_numeral s ≡ true
    → all_chars (λ d. if d == b':' then false else true) s ≡ true
not_colon String.[] h = refl
not_colon (String.◌∷◌ c s) h = ground (arith, not_colon s)

abbrev pub row_key : String → ℕ → String
row_key fp i = "r:" <> fp <> ":" <> show i

colon : (s t : String) → s <> ":" <> t ≡ s <> String.◌∷◌ ":" t
colon s t = ap (λ u. s <> u) (cons-append ":" "" t ∙ ap (String.◌∷◌ ":") (nil-append t))

-- The key of a row gives back its fingerprint and its place.
pub row_key_inj : (fp gp : String) (i j : ℕ) → row_key fp i ≡ row_key gp j → (fp ≡ gp) × (i ≡ j)
row_key_inj fp gp i j e =
    let tail = append_cancel_left "r:" (fp <> ":" <> show i) (gp <> ":" <> show j) e in
    let parts =
      last_inj ":" fp gp (show i) (show j) (not_colon (show i) (show_numerals i))
        (not_colon (show j) (show_numerals j))
        (sym (colon fp (show i)) ∙ tail ∙ colon gp (show j)) in
    (parts.0, show_inj i j parts.1)

pub tags_differ :
    (c d : Char) (s t x y : String)
    → (code c == code d) ≡ false
    → String.◌∷◌ c s <> x ≢ String.◌∷◌ d t <> y
tags_differ c d s t x y h e =
    let tag = ap kind e in ground (arith, kind-append c s x, kind-append d t y)

-- The number that a text begins with.
abbrev pub lead : ℕ → String → ℕ
lead acc String.[] = acc
lead acc (String.◌∷◌ c s) = if is_numeral (code c) then lead (acc * 10 + (code c - b'0')) s else acc

lead-append :
    (acc : ℕ) (s t : String)
    → all_chars is_numeral s ≡ true
    → lead acc (s <> String.◌∷◌ ":" t) ≡ read_from acc s
lead-append acc String.[] t h = rw (nil-append (String.◌∷◌ ":" t)) refl
lead-append acc (String.◌∷◌ c s) t h =
    rw (cons-append c s (String.◌∷◌ ":" t))
      (ground (arith, lead-append (acc * 10 + (code c - b'0')) s t))

pub lead-show : (i : ℕ) (t : String) → lead 0 (show i <> ":" <> t) ≡ i
lead-show i t =
    ap (lead 0) (colon (show i) t) ∙ lead-append 0 (show i) t (show_numerals i) ∙ read-show i
