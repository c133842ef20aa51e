-- ===== src/Webhooks/Common/Bounds.antt =====
-- What a line of sender-supplied text, and a body, are held to.
use Prim.Native.Char.{code}
use homelab_registry_mcp.Prelude.{
  Bool, Bool-cases, List, String, [], arith, if◌then◌else◌, inl, inr, leb, length, none, not, refl,
  some, suc, true, zero, ℕ, ◌&&◌, ◌+◌, ◌∷◌, ◌≡◌, ◌≤◌, and_elim, and_intro, if_lem, ltb, ◌++◌, false,
  ◌==◌, ◌||◌,
}
use homelab_registry_mcp.Webhooks.Common.{
  append, blank_unsafe, cut_before, ellipsis, is_unsafe, join_words, one_line, read_from, space,
  read_capped,
}
use homelab_registry_mcp.Text.{push_word, first_word, split_words, take_text, text_length, is_blank}

-- The control characters of Unicode: up to U+001F, and U+007F to U+009F. All the line breaks below
-- U+2028 are among them.
abbrev pub is_control : ℕ → Bool
is_control c = ltb c 32 || (leb 127 c && ltb c 160)

-- The line separator and the paragraph separator.
abbrev pub is_separator : ℕ → Bool
is_separator c = c == 8232 || c == 8233

-- The marks U+200E and U+200F, the embeddings and overrides U+202A to U+202E, and the isolates U+2066
-- to U+2069, one by one.
abbrev pub is_bidi : ℕ → Bool
is_bidi c =
    c == 8206
    || c == 8207
    || c == 8234
    || c == 8235
    || c == 8236
    || c == 8237
    || c == 8238
    || c == 8294
    || c == 8295
    || c == 8296
    || c == 8297

-- A code point that is none of these.
unfoldable pub is_safe : ℕ → Bool
is_safe c = not (is_control c || is_separator c || is_bidi c)

-- What the pattern lets through is none of these.
unsafe-is_safe : (c : ℕ) → is_unsafe c ≡ false → is_safe c ≡ true
unfolding is_safe
unsafe-is_safe c h = ground (arith, h)

unfoldable pub is_line : String → Bool
unfolding is_safe
is_line String.[] = true
is_line (String.◌∷◌ c s) = is_safe (code c) && is_line s

all_lines : List String → Bool
all_lines [] = true
all_lines (w ∷ ws) = is_line w && all_lines ws

is_line-append : (s t : String) → is_line (append s t) ≡ (is_line s && is_line t)
unfolding is_line append
is_line-append String.[] t = refl
is_line-append (String.◌∷◌ c s) t = ground (arith, is_line-append s t)

is_line-blank_unsafe : (s : String) → is_line (blank_unsafe s) ≡ true
unfolding is_line blank_unsafe is_safe
is_line-blank_unsafe String.[] = refl
is_line-blank_unsafe (String.◌∷◌ c s) =
    and_intro _ _
      (if_lem (λ d. is_safe (code d) ≡ true) (is_unsafe (code c)) (λ _. refl)
        (λ safe. unsafe-is_safe (code c) safe))
      (is_line-blank_unsafe s)

all_lines-push_word :
    (w : String) (ws : List String)
    → is_line w ≡ true
    → all_lines ws ≡ true
    → all_lines (push_word w ws) ≡ true
unfolding all_lines push_word is_line
all_lines-push_word String.[] ws h k = k
all_lines-push_word (String.◌∷◌ c w) ws h k = ground (arith, h, k)

first_word-is_line :
    (s : String)
    → is_line s ≡ true
    → (is_line (first_word s).0 ≡ true) × (all_lines (first_word s).1 ≡ true)
unfolding first_word is_line all_lines
first_word-is_line String.[] h = (refl, refl)
first_word-is_line (String.◌∷◌ c s) h =
    let (safe, more) = and_elim _ _ h in
    let (k, l) = first_word-is_line s more in
    if_lem {A = String × List String} (λ p. (is_line p.0 ≡ true) × (all_lines p.1 ≡ true))
      (is_blank (code c)) (λ _. (refl, all_lines-push_word (first_word s).0 (first_word s).1 k l))
      (λ _. (and_intro _ _ safe k, l))

split_words-all_lines : (s : String) → is_line s ≡ true → all_lines (split_words s) ≡ true
unfolding split_words
split_words-all_lines s h = let (k, l) = first_word-is_line s h in all_lines-push_word _ _ k l

join_words-is_line : (ws : List String) → all_lines ws ≡ true → is_line (join_words ws) ≡ true
unfolding join_words all_lines is_line
join_words-is_line [] h = refl
join_words-is_line (w ∷ []) h = ground (arith, h)
join_words-is_line (w ∷ v ∷ ws) h = ground (
  arith,
  h,
  is_line-append w (String.◌∷◌ space (join_words (v ∷ ws))),
  join_words-is_line (v ∷ ws),
)

take_text-is_line : (n : ℕ) (s : String) → is_line s ≡ true → is_line (take_text n s) ≡ true
unfolding take_text is_line
take_text-is_line zero s h = refl
take_text-is_line (suc n) String.[] h = refl
take_text-is_line (suc n) (String.◌∷◌ c s) h = ground (arith, h, take_text-is_line n s)

text_length-append : (s t : String) → text_length (append s t) ≡ text_length s + text_length t
unfolding text_length append
text_length-append String.[] t = omega arith
text_length-append (String.◌∷◌ c s) t = let h = text_length-append s t in omega arith

text_length-take_text : (n : ℕ) (s : String) → text_length (take_text n s) ≤ n
unfolding text_length take_text
text_length-take_text zero s = omega arith
text_length-take_text (suc n) String.[] = omega arith
text_length-take_text (suc n) (String.◌∷◌ c s) = let h = text_length-take_text n s in omega arith

cut_lem :
    (n : ℕ) (s : String)
    → is_line s ≡ true
    → let cut = append (cut_before (suc n) s) (String.◌∷◌ ellipsis "") in
      (text_length cut ≤ suc n) × (is_line cut ≡ true)
unfolding cut_before is_line text_length
cut_lem n s h =
    let end = String.◌∷◌ ellipsis "" in
    ground (
      arith,
      text_length-append (take_text n s) end,
      text_length-take_text n s,
      is_line-append (take_text n s) end,
      take_text-is_line n s h,
    )

-- Whatever the sender put there, the text that `one_line` makes of it has at most `limit` code
-- points, where the limit is positive, and none of them is a control character (up to U+001F, and
-- U+007F to U+009F), a line or paragraph separator (U+2028, U+2029), or one of the bidirectional
-- controls U+200E, U+200F, U+202A to U+202E and U+2066 to U+2069.
pub one_line-bounded :
    (value : String) (limit : ℕ)
    → 1 ≤ limit
    → (text_length (one_line value limit) ≤ limit) × (is_line (one_line value limit) ≡ true)
unfolding one_line
one_line-bounded value zero positive = ground arith
one_line-bounded value (suc n) positive =
    let line = join_words (split_words (blank_unsafe value)) in
    let safe = join_words-is_line _ (split_words-all_lines _ (is_line-blank_unsafe value)) in
    elim (Bool-cases (leb (text_length line) (suc n))) [
      | inl fits ↦ ground (arith, fits, safe)
      | inr long ↦ ground (arith, long, cut_lem n line safe)
    ]

-- The chunks, one after another.
unfoldable pub joined : List (List ℕ) → List ℕ
joined [] = []
joined (chunk ∷ chunks) = chunk ++ joined chunks

length-append : (xs ys : List ℕ) → length (xs ++ ys) ≡ length xs + length ys
length-append [] ys = omega arith
length-append (x ∷ xs) ys = let h = length-append xs ys in omega arith

read_from-eq :
    (size limit : ℕ) (chunks : List (List ℕ))
    → size ≤ limit
    → read_from size limit chunks
      ≡ (if leb (size + length (joined chunks)) limit then some (joined chunks) else none)
unfolding read_from joined
read_from-eq size limit [] fits = ground (arith, fits)
read_from-eq size limit (chunk ∷ chunks) fits =
    elim (Bool-cases (ltb limit (size + length chunk))) [
      | inl over ↦ ground (arith, over, length-append chunk (joined chunks))
      | inr under ↦ ground (
        arith,
        under,
        length-append chunk (joined chunks),
        read_from-eq (size + length chunk) limit chunks (ground (arith, under)),
      )
    ]

-- However the body is cut into chunks, `read_capped` gives all of it in order where it has at most
-- `limit` bytes, and nothing where it has more.
pub read_capped-eq :
    (chunks : List (List ℕ)) (limit : ℕ)
    → read_capped chunks limit
      ≡ (if leb (length (joined chunks)) limit then some (joined chunks) else none)
unfolding read_capped
read_capped-eq chunks limit = ground (arith, read_from-eq 0 limit chunks (omega arith))
