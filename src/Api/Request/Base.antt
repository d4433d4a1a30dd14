-- ===== src/Api/Request/Base.antt =====
-- The base that the application is served below, and the base that its requests go to.
use Prim.Native.Char.{Char, code}
use text.Mathlib.TextLemmas.{nil-append, cons-append, append_assoc}
use bigfleet_web_dashboard.Prelude.{
  ℕ, ◌==◌, ◌≡◌, refl, ap, ◌∙◌, Bool, true, false, not, ◌||◌, ◌&&◌, Option, none, some, String,
  arith, ◌<>◌, truthy, Bool-cases, inl, inr, str_eq,
}
use bigfleet_web_dashboard.Engine.Text.{cons, drop_end, drop_slashes, drop_while}
use bigfleet_web_dashboard.Api.Request.{normalize_base, api_base}

module _ (p : ℕ → Bool) where
  drop_end-again : (s : String) → drop_end p (drop_end p s) ≡ drop_end p s
  unfolding drop_end
  drop_end-again String.[] = refl
  drop_end-again (String.◌∷◌ c s) = elim (Bool-cases (p (code c) && not (truthy (drop_end p s)))) [
    | inl e ↦ rw e refl
    | inr e ↦ rw e (rw (drop_end-again s, e) refl)
  ]

  drop_end-append :
      (s : String) (c : Char) → p (code c) ≡ true → drop_end p (s <> cons c "") ≡ drop_end p s
  unfolding drop_end
  drop_end-append String.[] c h = rw (nil-append (cons c "")) (ground arith)
  drop_end-append (String.◌∷◌ d s) c h =
      rw (cons-append d s (cons c ""), drop_end-append s c h) refl

abbrev is_slash : ℕ → Bool
is_slash c = c == b'/'

abbrev slash : Char
slash = "/"

slash-append : (s : String) → "/" <> s ≡ cons slash s
slash-append s = cons-append slash "" s ∙ ap (cons slash) (nil-append s)

drop_slashes-between :
    (x : String)
    → drop_end is_slash x ≡ x
    → truthy x ≡ true
    → drop_slashes ("/" <> x <> "/") ≡ "/" <> x
unfolding drop_slashes drop_end
drop_slashes-between x h t =
    rw (slash-append (x <> "/"), slash-append x, drop_end-append is_slash x slash refl, h, t) refl

framed :
    (x : String)
    → drop_end is_slash x ≡ x
    → str_eq ("/" <> x <> "/") "//" ≡ false
    → drop_slashes ("/" <> x <> "/") <> "/" ≡ "/" <> x <> "/"
unfolding str_eq
framed String.[] h k = ground arith
framed (String.◌∷◌ c s) h k =
    rw (drop_slashes-between (String.◌∷◌ c s) h refl) (append_assoc "/" (String.◌∷◌ c s) "/")

-- Where the base is not "//", it ends in one slash, and the requests go to the base without it.
pub api_base-normalize_base :
    (b : Option String)
    → str_eq (normalize_base b) "//" ≡ false
    → api_base (normalize_base b) <> "/" ≡ normalize_base b
unfolding api_base normalize_base drop_slashes
api_base-normalize_base none h = refl
api_base-normalize_base (some b) h = elim (Bool-cases (not (truthy b) || str_eq b "/")) [
  | inl e ↦ rw e refl
  | inr e ↦ rw e (
      framed (drop_end is_slash (drop_while is_slash b))
        (drop_end-again is_slash (drop_while is_slash b)) (rw e at h))
]
