-- ===== src/Webhooks/Common.antt =====
-- The request helpers of src/registry_mcp/webhooks/common.py.
pub mod Bounds
use mathlib.Core.Option
use Prim.Native.Char.{Char, char, code}
use homelab_registry_mcp.Prelude.{
  Bool, List, Option, String, [], false, if◌then◌else◌, leb, length, ltb, none, not, some, str_eq,
  suc, zero, ℕ, ◌&&◌, ◌++◌, ◌+◌, ◌==◌, ◌||◌, ◌∷◌,
}
use homelab_registry_mcp.Text.{take_text, split_words, is_digit, every, text_length, read_digits}

-- `_UNSAFE_TEXT_RE`
abbrev pub is_unsafe : ℕ → Bool
is_unsafe c =
    leb c 31
    || (leb 127 c && leb c 159)
    || (leb 8206 c && leb c 8207)
    || (leb 8232 c && leb c 8233)
    || (leb 8234 c && leb c 8238)
    || (leb 8294 c && leb c 8297)

abbrev pub space : Char
space = char 32 tt

-- `"…"`
abbrev pub ellipsis : Char
ellipsis = char 8230 tt

-- `_UNSAFE_TEXT_RE.sub(" ", s)`
unfoldable pub blank_unsafe : String → String
blank_unsafe String.[] = ""
blank_unsafe (String.◌∷◌ c s) =
    String.◌∷◌ (if is_unsafe (code c) then space else c) (blank_unsafe s)

-- `t + s`
unfoldable pub append : String → String → String
append String.[] s = s
append (String.◌∷◌ c t) s = String.◌∷◌ c (append t s)

-- `" ".join(words)`
unfoldable pub join_words : List String → String
unfolding append
join_words [] = ""
join_words (w ∷ []) = w
join_words (w ∷ v ∷ ws) = append w (String.◌∷◌ space (join_words (v ∷ ws)))

-- `s[:-1]`
unfoldable pub drop_last : String → String
drop_last String.[] = ""
drop_last (String.◌∷◌ c s) = let rest = drop_last s in if str_eq s "" then "" else String.◌∷◌ c rest

-- `text[: limit - 1]`, which counts from the end where the limit is 0.
unfoldable pub cut_before : ℕ → String → String
unfolding take_text drop_last
cut_before zero s = drop_last s
cut_before (suc n) s = take_text n s

-- `one_line`, of the text of a value.
unfoldable pub one_line : String → ℕ → String
unfolding blank_unsafe split_words join_words text_length cut_before append
one_line value limit =
    let line = join_words (split_words (blank_unsafe value)) in
    if leb (text_length line) limit
    then line
    else append (cut_before limit line) (String.◌∷◌ ellipsis "")

-- `read_capped`, from the bytes that were read so far.
unfoldable pub read_from : (size : ℕ) → (limit : ℕ) → List (List ℕ) → Option (List ℕ)
read_from size limit [] = some []
read_from size limit (chunk ∷ chunks) =
    let rest = read_from (size + length chunk) limit chunks in
    if ltb limit (size + length chunk) then none else Option.map (λ bytes. chunk ++ bytes) rest

unfoldable pub read_capped : (chunks : List (List ℕ)) → (limit : ℕ) → Option (List ℕ)
unfolding read_from
read_capped chunks limit = read_from 0 limit chunks

-- `str.isdigit` of a header's code point: a header is Latin-1, which has three raised digits.
abbrev pub counts_as_digit : ℕ → Bool
counts_as_digit c = is_digit c || c == 178 || c == 179 || c == 185

-- `declared_too_large`, or none where `int` raises.
unfoldable pub declared_too_large : Option (List ℕ) → (limit : ℕ) → Option Bool
unfolding every read_digits
declared_too_large none limit = some false
declared_too_large (some []) limit = some false
declared_too_large (some (c ∷ cs)) limit =
    if not (every counts_as_digit (c ∷ cs))
    then some false
    else if not (every is_digit (c ∷ cs))
    then none
    else some (ltb limit (read_digits 0 (c ∷ cs)).0)
