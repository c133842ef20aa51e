-- ===== src/Text.antt =====
-- Text as the program's regular expressions and `str` methods read it: by code points.
use Prim.Native.Char.{code}
use homelab_registry_mcp.Prelude.{
  ==_iff, Bool, Bool-cases, List, String, [], ap, arith, false, inl, inr, leb, refl, true, ℕ, ◌&&◌,
  ◌==◌, ◌||◌, ◌∷◌, ◌≡◌, Option, if◌then◌else◌, none, reverse, some, ◌*◌, ◌+◌, ◌-◌, str_eq, suc,
  zero,
}

-- The code points of a text.
abbrev pub codes : String → List ℕ
codes String.[] = []
codes (String.◌∷◌ c s) = code c ∷ codes s

abbrev pub is_digit : ℕ → Bool
is_digit c = leb b'0' c && leb c b'9'

abbrev pub is_letter : ℕ → Bool
is_letter c = (leb b'a' c && leb c b'z') || (leb b'A' c && leb c b'Z')

-- Whether every code point passes.
unfoldable pub every : (ℕ → Bool) → List ℕ → Bool
every p [] = true
every p (c ∷ cs) = p c && every p cs

unfoldable pub has_code : ℕ → List ℕ → Bool
has_code k [] = false
has_code k (c ∷ cs) = c == k || has_code k cs

-- A code point that no allowed one is does not occur in an allowed text.
pub has_code-every :
    (k : ℕ) (p : ℕ → Bool) (cs : List ℕ) → p k ≡ false → every p cs ≡ true → has_code k cs ≡ false
unfolding every has_code
has_code-every k p [] h e = refl
has_code-every k p (c ∷ cs) h e = elim (Bool-cases (c == k)) [
  | inl same ↦ ground (arith, h, e, same, ap p ((==_iff c k).0 same))
  | inr apart ↦ ground (arith, e, has_code-every k p cs h)
]

-- The blanks of `\s` and of the `str` methods.
abbrev pub is_blank : ℕ → Bool
is_blank c =
    (leb 9 c && leb c 13)
    || (leb 28 c && leb c 32)
    || c == 133
    || c == 160
    || c == 5760
    || (leb 8192 c && leb c 8202)
    || (leb 8232 c && leb c 8233)
    || c == 8239
    || c == 8287
    || c == 12288

-- `str.lstrip`
unfoldable pub skip_blanks : List ℕ → List ℕ
skip_blanks [] = []
skip_blanks (c ∷ cs) = let rest = skip_blanks cs in if is_blank c then rest else c ∷ cs

-- `str.strip`
unfoldable pub strip : List ℕ → List ℕ
unfolding skip_blanks
strip cs = reverse (skip_blanks (reverse (skip_blanks cs)))

-- What follows a fixed text.
unfoldable pub after_prefix : List ℕ → List ℕ → Option (List ℕ)
after_prefix [] cs = some cs
after_prefix (p ∷ ps) [] = none
after_prefix (p ∷ ps) (c ∷ cs) = let rest = after_prefix ps cs in if c == p then rest else none

-- `(\d+)`: the number that the digits read on from `n`, and what follows them.
unfoldable pub read_digits : ℕ → List ℕ → ℕ × List ℕ
read_digits n [] = (n, [])
read_digits n (c ∷ cs) =
    let more = read_digits (n * 10 + (c - b'0')) cs in if is_digit c then more else (n, c ∷ cs)

-- Two texts are the same.
unfoldable pub same_codes : List ℕ → List ℕ → Bool
same_codes [] [] = true
same_codes (a ∷ xs) (b ∷ bs) = a == b && same_codes xs bs
same_codes _ _ = false

pub same_codes-eq : (xs ys : List ℕ) → same_codes xs ys ≡ true → xs ≡ ys
unfolding same_codes
same_codes-eq [] [] h = refl
same_codes-eq [] (y ∷ ys) h = cc
same_codes-eq (x ∷ xs) [] h = cc
same_codes-eq (x ∷ xs) (y ∷ ys) h = ground (arith, ==_iff x y, same_codes-eq xs ys)

-- A word put before others, if there is one.
unfoldable pub push_word : String → List String → List String
push_word String.[] ws = ws
push_word (String.◌∷◌ c w) ws = String.◌∷◌ c w ∷ ws

-- The word that a text begins with, and the words behind it.
unfoldable pub first_word : String → String × List String
unfolding push_word
first_word String.[] = ("", [])
first_word (String.◌∷◌ c s) =
    let (w, ws) = first_word s in
    if is_blank (code c) then ("", push_word w ws) else (String.◌∷◌ c w, ws)

-- `str.split()`
unfoldable pub split_words : String → List String
unfolding first_word push_word
split_words s = let (w, ws) = first_word s in push_word w ws

-- `str.lstrip` and `str.rstrip`
unfoldable pub lstrip : String → String
lstrip String.[] = ""
lstrip (String.◌∷◌ c s) = let rest = lstrip s in if is_blank (code c) then rest else String.◌∷◌ c s

unfoldable pub rstrip : String → String
rstrip String.[] = ""
rstrip (String.◌∷◌ c s) =
    let rest = rstrip s in if is_blank (code c) && str_eq rest "" then "" else String.◌∷◌ c rest

-- `str.strip`, of a text that is a text again.
unfoldable pub strip_text : String → String
unfolding lstrip rstrip
strip_text s = rstrip (lstrip s)

-- `len`
unfoldable pub text_length : String → ℕ
text_length String.[] = 0
text_length (String.◌∷◌ c s) = text_length s + 1

-- `s[:n]` and `s[n:]`
unfoldable pub take_text : ℕ → String → String
take_text zero s = ""
take_text (suc n) String.[] = ""
take_text (suc n) (String.◌∷◌ c s) = String.◌∷◌ c (take_text n s)

unfoldable pub drop_text : ℕ → String → String
drop_text zero s = s
drop_text (suc n) String.[] = ""
drop_text (suc n) (String.◌∷◌ c s) = drop_text n s

-- `x in texts`
unfoldable pub member : String → List String → Bool
member x [] = false
member x (y ∷ ys) = str_eq y x || member x ys
