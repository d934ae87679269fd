-- ===== src/Rules.antt =====
-- crates/dictation-core/src/rules.rs: the deterministic detectors. The regular expressions of the crate
-- regex, the tables of Unicode and the lower case are arguments of the definitions that use them.
pub mod Numbers
pub mod Runs
pub mod Detect
use ai_data_hackathon.Prelude.{
  ℕ, zero, ◌-◌, String, Bool, true, false, not, ◌&&◌, List, [], ◌∷◌, map,
}
use Prim.Native.String.{compare}
use Prim.Native.Nat.{Ordering}
use ai_data_hackathon.Transcript.{
  SensitiveCategory, direct_identifier, contact, address, account_identifier, government_id,
  financial, credential_secret, SensitiveSpan,
}

abbrev pub min_digit_run : ℕ
min_digit_run = 6

abbrev pub digit_words : List String
digit_words =
    "zero" ∷ "oh" ∷ "nought" ∷ "one" ∷ "two" ∷ "three" ∷ "four" ∷ "five" ∷ "six" ∷ "seven" ∷ "eight"
    ∷ "nine" ∷ "ten" ∷ "eleven" ∷ "twelve" ∷ "thirteen" ∷ "fourteen" ∷ "fifteen" ∷ "sixteen"
    ∷ "seventeen" ∷ "eighteen" ∷ "nineteen" ∷ "twenty" ∷ "thirty" ∷ "forty" ∷ "fifty" ∷ "sixty"
    ∷ "seventy" ∷ "eighty" ∷ "ninety" ∷ "hundred" ∷ "thousand" ∷ "double" ∷ "triple" ∷ []

abbrev pub spoken_symbols : List String
spoken_symbols = "dot" ∷ "at" ∷ "dash" ∷ "slash" ∷ "underscore" ∷ "hyphen" ∷ []

pub record Trigger : Type 0 where
  pub phrase : List String
  pub category : SensitiveCategory
  pub window : ℕ
  pub detector : String

abbrev pub trigger : List String → SensitiveCategory → ℕ → String → Trigger
trigger phrase category window detector = record {
  phrase = phrase;
  category = category;
  window = window;
  detector = detector;
}

abbrev pub triggers : List Trigger
triggers =
    trigger ("my" ∷ "name" ∷ "is" ∷ []) direct_identifier 3 "name_introduction"
    ∷ trigger ("this" ∷ "is" ∷ []) direct_identifier 2 "name_introduction_weak"
    ∷ trigger ("call" ∷ "me" ∷ []) direct_identifier 2 "name_introduction_weak"
    ∷ trigger ("phone" ∷ "number" ∷ []) contact 14 "phone_trigger"
    ∷ trigger ("mobile" ∷ "number" ∷ []) contact 14 "phone_trigger"
    ∷ trigger ("email" ∷ "address" ∷ []) contact 14 "email_trigger"
    ∷ trigger ("my" ∷ "email" ∷ []) contact 14 "email_trigger"
    ∷ trigger ("my" ∷ "address" ∷ []) address 16 "address_trigger"
    ∷ trigger ("home" ∷ "address" ∷ []) address 16 "address_trigger"
    ∷ trigger ("postal" ∷ "code" ∷ []) address 8 "address_trigger"
    ∷ trigger ("post" ∷ "code" ∷ []) address 8 "address_trigger"
    ∷ trigger ("zip" ∷ "code" ∷ []) address 8 "address_trigger"
    ∷ trigger ("account" ∷ "number" ∷ []) account_identifier 16 "account_trigger"
    ∷ trigger ("customer" ∷ "number" ∷ []) account_identifier 16 "account_trigger"
    ∷ trigger ("invoice" ∷ "number" ∷ []) account_identifier 16 "account_trigger"
    ∷ trigger ("order" ∷ "number" ∷ []) account_identifier 16 "account_trigger"
    ∷ trigger ("reference" ∷ "number" ∷ []) account_identifier 16 "account_trigger"
    ∷ trigger ("social" ∷ "security" ∷ "number" ∷ []) government_id 14 "government_id_trigger"
    ∷ trigger ("national" ∷ "identification" ∷ []) government_id 14 "government_id_trigger"
    ∷ trigger ("personal" ∷ "identity" ∷ "code" ∷ []) government_id 14 "government_id_trigger"
    ∷ trigger ("passport" ∷ "number" ∷ []) government_id 14 "government_id_trigger"
    ∷ trigger ("driver's" ∷ "licence" ∷ []) government_id 14 "government_id_trigger"
    ∷ trigger ("drivers" ∷ "license" ∷ []) government_id 14 "government_id_trigger"
    ∷ trigger ("date" ∷ "of" ∷ "birth" ∷ []) direct_identifier 10 "dob_trigger"
    ∷ trigger ("born" ∷ "on" ∷ []) direct_identifier 8 "dob_trigger"
    ∷ trigger ("credit" ∷ "card" ∷ []) financial 20 "card_trigger"
    ∷ trigger ("debit" ∷ "card" ∷ []) financial 20 "card_trigger"
    ∷ trigger ("card" ∷ "number" ∷ []) financial 20 "card_trigger"
    ∷ trigger ("security" ∷ "code" ∷ []) financial 8 "card_trigger"
    ∷ trigger ("bank" ∷ "account" ∷ []) financial 20 "bank_trigger"
    ∷ trigger ("iban" ∷ []) financial 20 "iban_trigger"
    ∷ trigger ("sort" ∷ "code" ∷ []) financial 10 "bank_trigger"
    ∷ trigger ("routing" ∷ "number" ∷ []) financial 12 "bank_trigger"
    ∷ trigger ("my" ∷ "password" ∷ []) credential_secret 12 "credential_trigger"
    ∷ trigger ("password" ∷ "is" ∷ []) credential_secret 12 "credential_trigger"
    ∷ trigger ("passphrase" ∷ []) credential_secret 12 "credential_trigger"
    ∷ trigger ("pin" ∷ "code" ∷ []) credential_secret 8 "credential_trigger"
    ∷ trigger ("pin" ∷ "is" ∷ []) credential_secret 8 "credential_trigger"
    ∷ trigger ("api" ∷ "key" ∷ []) credential_secret 16 "credential_trigger"
    ∷ trigger ("access" ∷ "token" ∷ []) credential_secret 16 "credential_trigger"
    ∷ trigger ("secret" ∷ "key" ∷ []) credential_secret 16 "credential_trigger"
    ∷ trigger ("private" ∷ "key" ∷ []) credential_secret 16 "credential_trigger"
    ∷ trigger ("two" ∷ "factor" ∷ "code" ∷ []) credential_secret 8 "credential_trigger"
    ∷ trigger ("verification" ∷ "code" ∷ []) credential_secret 8 "credential_trigger"
    ∷ trigger ("one" ∷ "time" ∷ "code" ∷ []) credential_secret 8 "credential_trigger"
    ∷ []

abbrev pub health_words : List String
health_words =
    "diagnosis" ∷ "diagnosed" ∷ "prescription" ∷ "prescribed" ∷ "chemotherapy" ∷ "cancer" ∷ "tumour"
    ∷ "tumor" ∷ "hiv" ∷ "aids" ∷ "diabetes" ∷ "depression" ∷ "depressed" ∷ "anxiety"
    ∷ "psychiatrist" ∷ "psychiatric" ∷ "therapist" ∷ "therapy" ∷ "antidepressants" ∷ "medication"
    ∷ "miscarriage" ∷ "pregnant" ∷ "pregnancy" ∷ "disability" ∷ "disabled" ∷ "hospitalised"
    ∷ "hospitalized" ∷ "overdose" ∷ "addiction" ∷ "relapse" ∷ "symptoms" ∷ "biopsy" ∷ []

abbrev pub political_religious_words : List String
political_religious_words =
    "voted" ∷ "voting" ∷ "communist" ∷ "socialist" ∷ "conservative" ∷ "liberal" ∷ "muslim"
    ∷ "christian" ∷ "jewish" ∷ "hindu" ∷ "buddhist" ∷ "atheist" ∷ "church" ∷ "mosque" ∷ "synagogue"
    ∷ "baptised" ∷ "baptized" ∷ "converted" ∷ "union" ∷ "unionised" ∷ "unionized" ∷ "activist" ∷ []

abbrev pub sexuality_words : List String
sexuality_words =
    "gay" ∷ "lesbian" ∷ "bisexual" ∷ "transgender" ∷ "queer" ∷ "asexual" ∷ "heterosexual"
    ∷ "homosexual" ∷ "coming-out" ∷ []

pub record RuleHit : Type 0 where
  pub span : SensitiveSpan
  pub detector : String

pub record RuleFindings : Type 0 where
  pub hits : List RuleHit
  pub injection_suspected : Bool

unfoldable pub spans : RuleFindings → List SensitiveSpan
spans f = map (λ h. h.span) f.hits

abbrev add_by : Ordering → String → String → List String → List String → List String
add_by Ordering.lt name other set later = name ∷ other ∷ set
add_by Ordering.eq name other set later = other ∷ set
add_by Ordering.gt name other set later = other ∷ later

-- A set of texts, in order.
unfoldable pub add_name : String → List String → List String
add_name name [] = name ∷ []
add_name name (other ∷ set) = add_by (compare name other) name other set (add_name name set)

unfoldable pub collect : List String → List String
unfolding add_name
collect [] = []
collect (name ∷ names) = add_name name (collect names)

-- The names of the detectors, in the order of a set.
unfoldable pub detectors : RuleFindings → List String
unfolding collect
detectors f = collect (map (λ h. h.detector) f.hits)

abbrev no_hits : List RuleHit → Bool
no_hits [] = true
no_hits (h ∷ hs) = false

unfoldable pub is_clean : RuleFindings → Bool
is_clean f = no_hits f.hits && not f.injection_suspected
