-- ===== src/Rules/Detect.antt =====
-- rules.rs: the parts of `detect`. A position in a text counts its UTF-8 bytes.
mod Accounts
pub mod Detectors
pub mod Mandatory
use ai_data_hackathon.Prelude.{
  ℕ, zero, suc, ◌+◌, ◌-◌, String, Bool, true, false, not, ◌&&◌, Option, none, some, List, [], ◌∷◌,
  ◌++◌, ltb, leb, ◌==◌, if◌then◌else◌, length, get_elem?, keep, add_u64,
}
use Prim.Native.String.{compare}
use Prim.Native.Nat.{Ordering}
use ai_data_hackathon.Transcript.{
  Word, word_display_text, SensitiveSpan, SensitiveCategory, drop_sentence, DetectionSource,
  new_span,
}
use ai_data_hackathon.Prelude.Results.{Result, ok, err}
use ai_data_hackathon.Prelude.Text.{Text, utf8, is_whitespace}
use ai_data_hackathon.Rules.{RuleHit}
use ai_data_hackathon.Rules.Numbers.{iban_valid}

-- The regular expressions; `injection` has an index.
pub data Pattern : Type 0 where
  email url ipv4 us_ssn fi_hetu secret_like street postcode : Pattern
  token_candidate iban_candidate card digit_run : Pattern
  injection : ℕ → Pattern

pub record Match : Type 0 where
  pub start : ℕ
  pub end : ℕ
  pub as_str : Text

pub record TokenView : Type 0 where
  pub text : Text
  pub offsets : List (ℕ × ℕ)

abbrev pub len_utf8 : Text → ℕ
len_utf8 t = length (utf8 t)

abbrev spaced : Text → Text
spaced [] = []
spaced (c ∷ cs) = (c ∷ cs) ++ (b' ' ∷ [])

-- The loop of `build`, with the text so far.
unfoldable pub view_from : Text → List Word → TokenView
unfolding utf8
view_from text [] = record { text = text; offsets = [] }
view_from text (w ∷ ws) =
    let begun = spaced text in
    let next = begun ++ word_display_text w in
    let rest = view_from next ws in
    record rest { offsets = (len_utf8 begun, len_utf8 next) ∷ rest.offsets }

unfoldable pub token_view : List Word → TokenView
unfolding view_from
token_view words = view_from [] words

abbrev widen : Option (ℕ × ℕ) → ℕ → Option (ℕ × ℕ)
widen none id = some (id, add_u64 id 1)
widen (some (first, last)) id = some (first, add_u64 id 1)

-- The loop of `word_range`, over the words with their offsets.
unfoldable pub range_from : ℕ → ℕ → Option (ℕ × ℕ) → List (ℕ × ℕ) → List Word → Option (ℕ × ℕ)
range_from start end found ((begin, finish) ∷ offsets) (w ∷ ws) =
    range_from start end (if ltb start finish && ltb begin end then widen found w.id else found)
      offsets ws
range_from start end found _ _ = found

unfoldable pub word_range : TokenView → List Word → ℕ → ℕ → Option (ℕ × ℕ)
unfolding range_from
word_range view words start end = range_from start end none view.offsets words

-- The characters of the first `n` bytes, and those after them.
abbrev pub before : ℕ → Text → Text
before n [] = []
before n (c ∷ cs) =
    let rest = before (n - len_utf8 (c ∷ [])) cs in
    if leb (len_utf8 (c ∷ [])) n then c ∷ rest else []

abbrev pub after : ℕ → Text → Text
after n [] = []
after n (c ∷ cs) =
    let rest = after (n - len_utf8 (c ∷ [])) cs in
    if leb (len_utf8 (c ∷ [])) n then rest else c ∷ cs

abbrev none_or : (ℕ → Bool) → Option ℕ → Bool
none_or p none = true
none_or p (some c) = p c

abbrev first_char : Text → Option ℕ
first_char [] = none
first_char (c ∷ cs) = some c

-- `&candidate[..candidate.rfind(' ')?]`.
unfoldable pub before_last_space : Text → Option Text
before_last_space [] = none
before_last_space (c ∷ cs) = elim (before_last_space cs) [
  | some front ↦ some (c ∷ front)
  | none ↦ if c == b' ' then some [] else none
]

abbrev compact : Text → Text
compact cs = keep (λ c. not (is_whitespace c)) cs

-- `compact.len() >= 15 && iban_valid(&compact)`.
abbrev pub is_account : Text → Option Bool
is_account candidate =
    let checked = iban_valid (compact candidate) in
    if leb 15 (len_utf8 (compact candidate)) then checked else some false

-- The inner loop of `iban_ranges`, on fuel: each round makes the candidate shorter. The outer `none`
-- is the panic of `iban_valid`, the inner one a candidate with no account number.
unfoldable pub iban_prefix : ℕ → Text → Option (Option ℕ)
unfolding before_last_space iban_valid utf8
iban_prefix zero candidate = some none
iban_prefix (suc fuel) candidate =
    let shorter : Option (Option ℕ) = elim (before_last_space candidate) [
      | none ↦ some none
      | some front ↦ iban_prefix fuel front
    ] in
    elim (is_account candidate) [
      | none ↦ none
      | some true ↦ some (some (len_utf8 candidate))
      | some false ↦ shorter
    ]

-- `sort_by_key`, which keeps the order of equal keys.
abbrev is_less_text : Ordering → Bool
is_less_text Ordering.lt = true
is_less_text _ = false

abbrev pub hit_before : RuleHit → RuleHit → Bool
hit_before a b =
    if a.span.start_word_id == b.span.start_word_id
    then if a.span.end_word_id_exclusive == b.span.end_word_id_exclusive
      then is_less_text (compare a.detector b.detector)
      else ltb a.span.end_word_id_exclusive b.span.end_word_id_exclusive
    else ltb a.span.start_word_id b.span.start_word_id

unfoldable pub insert_hit : RuleHit → List RuleHit → List RuleHit
insert_hit h [] = h ∷ []
insert_hit h (x ∷ xs) =
    let later = insert_hit h xs in if hit_before x h then x ∷ later else h ∷ x ∷ xs

unfoldable pub sort_hits : List RuleHit → List RuleHit
unfolding insert_hit
sort_hits [] = []
sort_hits (h ∷ hs) = insert_hit h (sort_hits hs)

-- The closure `add`.
abbrev pub hit_of : Result String SensitiveSpan → String → List RuleHit
hit_of (err e) detector = []
hit_of (ok span) detector = record { span = span; detector = detector } ∷ []

unfoldable pub add : Option (ℕ × ℕ) → SensitiveCategory → DetectionSource → String → List RuleHit
unfolding new_span
add none category source detector = []
add (some (start, end)) category source detector =
    hit_of (new_span start end category drop_sentence source) detector

abbrev pub concat_hits : {A : Type 0} → (A → List RuleHit) → List A → List RuleHit
concat_hits f [] = []
concat_hits f (a ∷ as') = f a ++ concat_hits f as'

abbrev pub id_at : List Word → ℕ → Option ℕ
id_at words i = elim (get_elem? words i) [ none ↦ none | some w ↦ some w.id ]

abbrev pub between : Option ℕ → Option ℕ → Option (ℕ × ℕ)
between (some first) (some last) = some (first, add_u64 last 1)
between _ _ = none

-- The ids of two positions as a range; `none` is an index out of range.
abbrev pub range_at : List Word → ℕ → ℕ → Option (ℕ × ℕ)
range_at words first last = between (id_at words first) (id_at words last)
