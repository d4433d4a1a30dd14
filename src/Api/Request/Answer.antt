-- ===== src/Api/Request/Answer.antt =====
-- What a request settles to.
use text.Mathlib.TextLemmas.{nil-append, cons-append}
use bigfleet_web_dashboard.Prelude.{
  ◌≡◌, refl, true, false, Option, none, some, String, arith, ◌<>◌, truthy, truthy?, if◌then◌else◌,
  or_else, sym, ◌∙◌, ap,
}
use bigfleet_web_dashboard.Prelude.Show.{show}
use bigfleet_web_dashboard.Api.Request.{Response, Outcome, answer, failure, get_json}

truthy-append : (s t : String) → truthy t ≡ true → truthy (s <> t) ≡ true
truthy-append String.[] t h = rw (nil-append t) h
truthy-append (String.◌∷◌ c s) t h = rw (cons-append c s t) refl

status_line-truthy : (status text : String) → truthy (status <> " " <> text) ≡ true
status_line-truthy status text =
    truthy-append status (" " <> text) (rw (cons-append " " "" text) refl)

failure_text :
    (own : Option String) (other : String)
    → truthy other ≡ true
    → truthy (if truthy? own then or_else own "" else other) ≡ true
failure_text own other h = ground arith

abbrev failure_of : {A : Type 0} → Response A → String
failure_of res =
    if truthy? res.error then or_else res.error "" else show res.status <> " " <> res.status_text

failure_inj : {A : Type 0} (s t : String) → ◌≡◌ {A = Outcome A} (failure s) (failure t) → s ≡ t
failure_inj s t e = ground arith

own_text :
    (own : Option String) (other m : String)
    → (if truthy? own then or_else own "" else other) ≡ m
    → truthy? own ≡ true
    → own ≡ some m
own_text own other m e h = ground arith

-- An answer is the body of a response that is ok. A failure comes of a response that is not, and
-- its text is never empty: it is the server's own, where it sent one that is not empty.
pub get_json_lem :
    {A : Type 0} (r : Option (Response A))
    → ((a : A)
        → get_json r ≡ answer a
        → (res : Response A) × (r ≡ some res) × (res.ok ≡ true) × (res.body ≡ some a))
      × ((m : String)
          → get_json r ≡ failure m
          → (res : Response A) × (r ≡ some res)
            × (res.ok ≡ false)
            × (truthy m ≡ true)
            × (truthy? res.error ≡ true → res.error ≡ some m))
unfolding get_json
get_json_lem none = (λ a e. ground arith, λ m e. ground arith)
get_json_lem {A} (some res) = (
  λ a e. (res, refl, ground arith, ground arith),
  λ m e.
      let refused : res.ok ≡ false = ground arith in
      let text = failure_inj {A = A} (failure_of res) m (rw refused at e) in
      (
        res,
        refl,
        refused,
        sym (ap truthy text)
            ∙ failure_text res.error (show res.status <> " " <> res.status_text)
                (status_line-truthy (show res.status) res.status_text),
        own_text res.error (show res.status <> " " <> res.status_text) m text,
      ),
)
