-- ===== src/Startup/Secrets.antt =====
-- Secrets as `--static-auth-secret` gives them, read back.
use uturn.Common.{
  le→ltb, ltb→le, Bool-cases, if_true, if_false, All-append, ℕ, ◌≤◌, ◌≡◌, refl, sym, ap, ◌∙◌, inl,
  inr, true, none, some, List, [], ◌∷◌, ◌++◌, map, length, All, ltb, arith,
}
use uturn.Common.Bytes.{Str}
use uturn.Startup.{
  is_ascii_space, space_width, words_from, keep_word, split_whitespace, split_all, find_short,
  parse_auth_secrets,
}

-- A secret of printable ASCII other than the space; a comma is such a character.
abbrev pub IsSecret : Str → Type 0
IsSecret s = (16 ≤ length s) × All (λ b. (33 ≤ b) × (b ≤ 126)) s

-- ASCII spaces, tabs and ends of lines
abbrev pub IsBlank : Str → Type 0
IsBlank = All (λ b. is_ascii_space b ≡ true)

-- Secrets, each with what stands behind it, as one value.
unfoldable pub text : List (Str × Str) → Str
text [] = []
text ((secret, gap) ∷ rest) = secret ++ (gap ++ text rest)

-- Something stands between two secrets; behind the last there may be nothing.
abbrev pub IsText : List (Str × Str) → Type 0
IsText [] = Unit
IsText ((secret, gap) ∷ []) = IsSecret secret × IsBlank gap
IsText ((secret, gap) ∷ (next ∷ rest)) =
    IsSecret secret × (IsBlank gap × ((1 ≤ length gap) × IsText (next ∷ rest)))

space_width_printable : (b : ℕ) (rest : Str) → 33 ≤ b → b ≤ 126 → space_width b rest ≡ 0
unfolding space_width
space_width_printable b [] low high = ground arith
space_width_printable b (c ∷ []) low high = ground arith
space_width_printable b (c ∷ d ∷ rest) low high = ground arith

words_from_secret :
    (secret rest : Str)
    → All (λ b. (33 ≤ b) × (b ≤ 126)) secret
    → words_from 0 (secret ++ rest) ≡ (secret ++ (words_from 0 rest).0, (words_from 0 rest).1)
unfolding words_from
words_from_secret [] rest h = refl
words_from_secret (b ∷ secret) rest ((low, high), h) =
    rw
      (
        words_from,
        space_width_printable b (secret ++ rest) low high,
        words_from_secret secret rest h,
      )
      refl

space_width_blank : (b : ℕ) (rest : Str) → is_ascii_space b ≡ true → space_width b rest ≡ 1
unfolding space_width
space_width_blank b rest h = rw h refl

words_from_gap :
    (gap rest : Str)
    → IsBlank gap
    → 1 ≤ length gap
    → words_from 0 (gap ++ rest) ≡ ([], split_whitespace rest)
unfolding words_from split_whitespace
words_from_gap [] rest h some_gap = elim some_gap [ ]
words_from_gap (b ∷ []) rest (here, h) some_gap =
    rw (words_from, space_width_blank b rest here) refl
words_from_gap (b ∷ c ∷ gap) rest (here, h) some_gap =
    rw
      (
        words_from,
        space_width_blank b (c ∷ gap ++ rest) here,
        words_from_gap (c ∷ gap) rest h (omega arith),
      )
      refl

keep_word_filled :
    (word : Str) (words : List Str) → 1 ≤ length word → keep_word word words ≡ word ∷ words
keep_word_filled [] words h = elim h [ ]
keep_word_filled (b ∷ word) words h = refl

append_nil : (s : Str) → s ++ [] ≡ s
append_nil [] = refl
append_nil (b ∷ s) = ap (λ r. b ∷ r) (append_nil s)

words_from_end : (gap : Str) → IsBlank gap → words_from 0 (gap ++ []) ≡ ([], [])
unfolding words_from split_whitespace
words_from_end [] h = refl
words_from_end (b ∷ gap) h = words_from_gap (b ∷ gap) [] h (omega arith)

split_whitespace_word :
    (secret rest : Str) (words : List Str)
    → IsSecret secret
    → words_from 0 rest ≡ ([], words)
    → split_whitespace (secret ++ rest) ≡ secret ∷ words
unfolding split_whitespace
split_whitespace_word secret rest words (long, plain) e =
    rw (words_from_secret secret rest plain, e, append_nil secret)
      (keep_word_filled secret words (omega arith))

split_whitespace-text :
    (l : List (Str × Str)) → IsText l → split_whitespace (text l) ≡ map (λ p. p.0) l
unfolding text split_whitespace words_from
split_whitespace-text [] h = refl
split_whitespace-text ((secret, gap) ∷ []) (sound, blank) =
    split_whitespace_word secret (gap ++ []) [] sound (words_from_end gap blank)
split_whitespace-text ((secret, gap) ∷ (next ∷ rest)) (sound, (blank, (some_gap, h))) =
    split_whitespace_word secret (gap ++ text (next ∷ rest)) _ sound
      (words_from_gap gap (text (next ∷ rest)) blank some_gap)
    ∙ ap (λ words. secret ∷ words) (split_whitespace-text (next ∷ rest) h)

-- The secrets of several values, in their order
abbrev pub secrets_of : List (List (Str × Str)) → List Str
secrets_of [] = []
secrets_of (l ∷ values) = map (λ p. p.0) l ++ secrets_of values

split_all-text :
    (values : List (List (Str × Str)))
    → All IsText values
    → split_all (map text values) ≡ secrets_of values
unfolding split_all
split_all-text [] h = refl
split_all-text (l ∷ values) (here, h) =
    rw (split_whitespace-text l here, split_all-text values h) refl

IsText-long : (l : List (Str × Str)) → IsText l → All (λ s. 16 ≤ length s) (map (λ p. p.0) l)
IsText-long [] h = tt
IsText-long ((secret, gap) ∷ []) ((long, _), _) = (long, tt)
IsText-long ((secret, gap) ∷ (next ∷ rest)) ((long, _), (_, (_, h))) =
    (long, IsText-long (next ∷ rest) h)

secrets_of-long :
    (values : List (List (Str × Str)))
    → All IsText values
    → All (λ s. 16 ≤ length s) (secrets_of values)
secrets_of-long [] h = tt
secrets_of-long (l ∷ values) (here, h) =
    All-append (λ s. 16 ≤ length s) (map (λ p. p.0) l) (secrets_of values) (IsText-long l here)
      (secrets_of-long values h)

find_short-long : (l : List Str) → All (λ s. 16 ≤ length s) l → find_short l ≡ none
unfolding find_short
find_short-long [] h = refl
find_short-long (s ∷ l) (long, h) = rw (le→ltb (length s) 16 long) (find_short-long l h)

pub find_short-All : (l : List Str) → find_short l ≡ none → All (λ s. 16 ≤ length s) l
unfolding find_short
find_short-All [] e = tt
find_short-All (s ∷ l) e = elim (Bool-cases (ltb (length s) 16)) [
  | inl short ↦ ground (arith, sym (if_true (some s) (find_short l) _ short) ∙ e)
  | inr long ↦ (ltb→le (length s) 16 long, find_short-All l (sym (if_false _ _ _ long) ∙ e))
]

pub parse_auth_secrets-text :
    (values : List (List (Str × Str)))
    → All IsText values
    → parse_auth_secrets (map text values) ≡ inr (secrets_of values)
unfolding parse_auth_secrets
parse_auth_secrets-text values h =
    rw (split_all-text values h, find_short-long (secrets_of values) (secrets_of-long values h))
      refl
