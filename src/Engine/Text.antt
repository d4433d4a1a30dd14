-- ===== src/Engine/Text.antt =====
-- The operations on text and the regular expressions that ui/src/lib uses, over native strings.
use Prim.Native.Char.{Char, code}
use Prim.Native.String.{String}
use bigfleet_web_dashboard.Prelude.{
  ℕ, zero, suc, Bool, true, false, not, ◌&&◌, ◌||◌, if◌then◌else◌, leb, ◌==◌, truthy,
}

abbrev pub cons : Char → String → String
cons c s = String.◌∷◌ c s

-- `[0-9]`, `[a-zA-Z]`, `\s` and `[0-9.]`
abbrev pub is_digit : ℕ → Bool
is_digit c = leb b'0' c && leb c b'9'

abbrev pub is_letter : ℕ → Bool
is_letter c = (leb b'a' c && leb c b'z') || (leb b'A' c && leb c b'Z')

abbrev pub is_space : ℕ → Bool
is_space c =
    c == b' '
    || (leb 9 c && leb c 13)
    || c == 0xa0
    || c == 0x1680
    || (leb 0x2000 c && leb c 0x200a)
    || c == 0x2028
    || c == 0x2029
    || c == 0x202f
    || c == 0x205f
    || c == 0x3000
    || c == 0xfeff

abbrev pub is_decimal : ℕ → Bool
is_decimal c = is_digit c || c == b'.'

-- Every character passes the test.
unfoldable pub all_text : (ℕ → Bool) → String → Bool
all_text p String.[] = true
all_text p (String.◌∷◌ c s) = p (code c) && all_text p s

-- The longest beginning whose characters pass, and the rest.
unfoldable pub take_while : (ℕ → Bool) → String → String
take_while p String.[] = ""
take_while p (String.◌∷◌ c s) = if p (code c) then cons c (take_while p s) else ""

unfoldable pub drop_while : (ℕ → Bool) → String → String
drop_while p String.[] = ""
drop_while p (String.◌∷◌ c s) = if p (code c) then drop_while p s else cons c s

-- Without the last characters that pass.
unfoldable pub drop_end : (ℕ → Bool) → String → String
drop_end p String.[] = ""
drop_end p (String.◌∷◌ c s) =
    let rest = drop_end p s in if p (code c) && not (truthy rest) then "" else cons c rest

-- `s.replace(/[^...]/g, "")`
unfoldable pub keep : (ℕ → Bool) → String → String
keep p String.[] = ""
keep p (String.◌∷◌ c s) = if p (code c) then cons c (keep p s) else keep p s

-- `s.trim()`
unfoldable pub trim : String → String
unfolding drop_while drop_end
trim s = drop_end is_space (drop_while is_space s)

-- `s.startsWith(t)`
unfoldable pub has_prefix : String → String → Bool
has_prefix s String.[] = true
has_prefix String.[] (String.◌∷◌ d t) = false
has_prefix (String.◌∷◌ c s) (String.◌∷◌ d t) = code c == code d && has_prefix s t

unfoldable pub drop_prefix : String → String → String
drop_prefix s String.[] = s
drop_prefix String.[] (String.◌∷◌ d t) = ""
drop_prefix (String.◌∷◌ c s) (String.◌∷◌ d t) = drop_prefix s t

-- `s.replace(/^t/, "")` for a literal t
unfoldable pub remove_prefix : String → String → String
unfolding has_prefix drop_prefix
remove_prefix t s = if has_prefix s t then drop_prefix s t else s

-- `s.includes(t)`
unfoldable pub includes : String → String → Bool
unfolding has_prefix
includes String.[] t = has_prefix "" t
includes (String.◌∷◌ c s) t = has_prefix (cons c s) t || includes s t

-- `s.endsWith(t)`, for a t that is not empty
unfoldable pub ends_with : String → String → Bool
unfolding has_prefix
ends_with String.[] t = false
ends_with (String.◌∷◌ c s) t =
    (has_prefix (cons c s) t && not (truthy (drop_prefix (cons c s) t))) || ends_with s t

-- `s.slice(0, n)`, on a text whose characters are one code unit each
unfoldable pub first_chars : ℕ → String → String
first_chars zero s = ""
first_chars (suc n) String.[] = ""
first_chars (suc n) (String.◌∷◌ c s) = cons c (first_chars n s)

-- `s.replace(/^.*\//, "")` on a text of one line: what follows the last slash.
unfoldable pub after_last_slash : String → String
unfolding all_text
after_last_slash String.[] = ""
after_last_slash (String.◌∷◌ c s) =
    let rest = after_last_slash s in
    if not (all_text (λ d. not (d == b'/')) (cons c s)) then rest else cons c s

-- `s.replace(/\.0+$/, "")`
unfoldable pub drop_zero_fraction : String → String
unfolding all_text
drop_zero_fraction String.[] = ""
drop_zero_fraction (String.◌∷◌ c s) =
    let rest = drop_zero_fraction s in
    if code c == b'.' && truthy s && all_text (λ d. d == b'0') s then "" else cons c rest

-- `s.replace(/(\.[0-9]*?)0+$/, "$1")`
unfoldable pub drop_trailing_zeros : String → String
unfolding all_text drop_end ends_with
drop_trailing_zeros String.[] = ""
drop_trailing_zeros (String.◌∷◌ c s) =
    let rest = drop_trailing_zeros s in
    if code c == b'.' && all_text is_digit s && ends_with s "0"
    then cons c (drop_end (λ d. d == b'0') s)
    else cons c rest

-- `s.replace(/\/+$/, "")`
unfoldable pub drop_slashes : String → String
unfolding drop_end
drop_slashes s = drop_end (λ d. d == b'/') s

-- `s.replace(t, "")`: the first occurrence of t is taken out.
unfoldable pub remove_first : String → String → String
unfolding has_prefix drop_prefix
remove_first t String.[] = ""
remove_first t (String.◌∷◌ c s) =
    let rest = remove_first t s in
    if has_prefix (cons c s) t then drop_prefix (cons c s) t else cons c rest
