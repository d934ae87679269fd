-- ===== src/Package/Validate/Clips.antt =====
-- package.rs: the files and the durations of the clips of a package that is accepted.
use ai_data_hackathon.Prelude.{
  ℕ, zero, suc, ◌+◌, ◌*◌, ◌/◌, ◌≤◌, ◌<◌, min, String, ◌≡◌, refl, sym, ap, ◌∙◌, subst, ◌⊎◌, inl, inr,
  Bool, true, false, ◌&&◌, ◌||◌, Option, none, some, List, [], ◌∷◌, arith, str_eq, str_eq_iff, ◌==◌,
  ==_iff, Bool-cases, any, All, u64_max, saturating_add,
}
use ai_data_hackathon.ClassifierSchema.{Values, no_values, value_then, count, get, as_array, Value}
use ai_data_hackathon.Prelude.Results.{Result, ok, err, bind_ok}
use ai_data_hackathon.Package.Wav.{validate_wav}
use ai_data_hackathon.Package.Json.{ValidatedPackage, subset, same_set, PackageLimits}
use ai_data_hackathon.Package.Header.{
  ManifestHeader, names_of, Payloads, payload, clip_name, clip_duration,
}
use ai_data_hackathon.Package.Validate.{
  ClipTotals, clips_from, validate_clips, validate_package, ClipEntry, validate_clip,
}
use ai_data_hackathon.Package.Validate.Clip.{validate_clip_ok}
use ai_data_hackathon.Package.Validate.Passed.{validate_package-Stages, require_ok, ok_or_ok}

-- The name of the audio or of the text of one of the first `n` clips.
pub record IsClipFile (n : ℕ) (name : String) : Type 0 where
  pub index : ℕ
  pub below : index < n
  pub named : (name ≡ clip_name index ".wav") ⊎ (name ≡ clip_name index ".txt")

abbrev read : Option (List ℕ) → (List ℕ → Option ℕ) → Option ℕ
read none go_on = none
read (some bytes) go_on = go_on bytes

abbrev sampled : Result String ℕ → (ℕ → Option ℕ) → Option ℕ
sampled (err code) go_on = none
sampled (ok n) go_on = go_on n

-- Samples at a rate as milliseconds, to the nearest, in 64 bits.
abbrev pub nearest_ms : ℕ → ℕ → ℕ
nearest_ms samples sample_rate =
    min (min (samples * 1000) u64_max + sample_rate / 2) u64_max / sample_rate

clip_duration-nearest_ms :
    (samples sample_rate : ℕ) → clip_duration samples sample_rate ≡ nearest_ms samples sample_rate
unfolding clip_duration
clip_duration-nearest_ms samples sample_rate = refl

-- The total duration of `n` clips from the clip `index` on, read from their audio files.
unfoldable pub audio_duration : Payloads → ℕ → ℕ → ℕ → ℕ → Option ℕ
audio_duration payloads sample_rate zero index total = some total
audio_duration payloads sample_rate (suc n) index total =
    read (payload payloads (clip_name index ".wav")) (λ audio.
      sampled (validate_wav audio sample_rate) (λ samples.
        audio_duration payloads sample_rate n (suc index)
          (saturating_add total (nearest_ms samples sample_rate))))

any-All :
    (P : String → Type 0) (k : String) (names : List String)
    → any (str_eq k) names ≡ true
    → All P names
    → P k
any-All P k [] e h = cc
any-All P k (n ∷ names) e h = elim (Bool-cases (str_eq k n)) [
  | inl same ↦ subst P (sym ((str_eq_iff k n).0 same)) h.0
  | inr differs ↦ any-All P k names (later (str_eq k n) _ differs e) h.1
]
  where
    later : (x y : Bool) → x ≡ false → (x || y) ≡ true → y ≡ true
    later x y d e = ground arith

subset-All :
    (P : String → Type 0) (ks names : List String) → subset ks names ≡ true → All P names → All P ks
subset-All P [] names e h = tt
subset-All P (k ∷ ks) names e h =
    let b = both (any (str_eq k) names) (subset ks names) e in
    (any-All P k names b.0 h, subset-All P ks names b.1 h)
  where
    both : (x y : Bool) → (x && y) ≡ true → (x ≡ true) × (y ≡ true)
    both true y e = (refl, e)
    both false y e = cc

module _ (sha256_hex : List ℕ → String) where
  clips_from_ok :
      (payloads : Payloads) (sample_rate : ℕ) (limits : PackageLimits) (n index : ℕ)
      (clips : Values) (totals result : ClipTotals)
      → index + count clips ≤ n
      → clips_from sha256_hex payloads sample_rate limits index clips totals ≡ ok result
      → All (IsClipFile n) totals.referenced
      → (audio_duration payloads sample_rate (count clips) index totals.duration
          ≡ some result.duration)
        × All (IsClipFile n) result.referenced
  unfolding clips_from audio_duration
  clips_from_ok payloads sample_rate limits n index no_values totals result le e h =
      let same : totals ≡ result = ok_eq totals result e in
      (
        ap (λ (t : ClipTotals). some t.duration) same,
        subst (λ (t : ClipTotals). All (IsClipFile n) t.referenced) same h,
      )
    where
      ok_eq : (x y : ClipTotals) → Path (Result String ClipTotals) (ok x) (ok y) → x ≡ y
      ok_eq x y e = cc
  clips_from_ok payloads sample_rate limits n index (value_then clip clips) totals result le e h =
      let b =
        bind_ok (validate_clip sha256_hex clip index payloads sample_rate limits) _ result e in
      let entry : ClipEntry = b.0 in
      let a = validate_clip_ok sha256_hex clip index payloads sample_rate limits entry b.1 in
      let next : ClipTotals = record {
        duration = saturating_add totals.duration entry.duration;
        words = saturating_add totals.words entry.words;
        referenced = entry.audio_name ∷ entry.text_name ∷ totals.referenced;
      } in
      let rest =
        clips_from_ok payloads sample_rate limits n (suc index) clips next result
          (omega (arith, le)) b.2
          (
            record { index = index; below = omega (arith, le); named = inl a.audio_named },
            (record { index = index; below = omega (arith, le); named = inr a.text_named }, h),
          ) in
      (
        ap
              (λ o. read o (λ audio. sampled (validate_wav audio sample_rate) (λ samples.
                audio_duration payloads sample_rate (count clips) (suc index)
                  (saturating_add totals.duration (nearest_ms samples sample_rate)))))
              a.has_audio
            ∙ ap
                (λ r. sampled r (λ samples.
                  audio_duration payloads sample_rate (count clips) (suc index)
                    (saturating_add totals.duration (nearest_ms samples sample_rate))))
                a.heard
            ∙ ap
                (λ d.
                  audio_duration payloads sample_rate (count clips) (suc index)
                    (saturating_add totals.duration d))
                (sym (a.lasts ∙ clip_duration-nearest_ms a.samples sample_rate))
            ∙ rest.0,
        rest.1,
      )

  -- The loop over the clips of a package that is accepted.
  record Looped (payloads : Payloads) (v : ValidatedPackage) : Type 0 where
    referenced : List String
    lasts : audio_duration payloads v.sample_rate v.clip_count 0 0 ≡ some v.duration_ms
    files : All (IsClipFile v.clip_count) referenced
    all : subset (names_of payloads) referenced ≡ true

  looped :
      (manifest : Value) (payloads : Payloads) (known : List ℕ) (limits : PackageLimits)
      (v : ValidatedPackage)
      → validate_package sha256_hex manifest payloads known limits ≡ ok v
      → Looped payloads v
  unfolding validate_clips
  looped manifest payloads known limits v e =
      let s = validate_package-Stages sha256_hex manifest payloads known limits v e in
      let header : ManifestHeader = s.header in
      let totals : ClipTotals = s.totals in
      let a = ok_or_ok (as_array (get s.entries "clips")) "invalid_clips" _ totals s.clips in
      let b = require_ok (count a.0 == header.clip_count) "clip_count_mismatch" _ totals a.2 in
      let c =
        bind_ok
          (clips_from sha256_hex payloads header.sample_rate limits 0 a.0
            (record { duration = 0; words = 0; referenced = [] }))
          _ totals b.1 in
      let found : ClipTotals = c.0 in
      let d =
        require_ok (same_set found.referenced (names_of payloads)) "package_unreferenced_payload" _
          totals c.2 in
      let counted : count a.0 ≡ header.clip_count = (==_iff (count a.0) header.clip_count).0 b.0 in
      let f =
        clips_from_ok payloads header.sample_rate limits header.clip_count 0 a.0
          (record { duration = 0; words = 0; referenced = [] }) found (omega (arith, counted)) c.1
          tt in
      let same : found ≡ totals = ok_eq found totals d.1 in
      let lasts : audio_duration payloads header.sample_rate header.clip_count 0 0
          ≡ some header.duration_ms =
        ap (λ n. audio_duration payloads header.sample_rate n 0 0) (sym counted)
        ∙ f.0
        ∙ ap (λ (t : ClipTotals). some t.duration) same
        ∙ sym (ap (λ n. some n) s.duration) in
      of_header v header (sym s.gives) (record {
        referenced = found.referenced;
        lasts = lasts;
        files = f.1;
        all = second (subset found.referenced (names_of payloads)) _ d.0;
      })
    where
      ok_eq : (x y : ClipTotals) → Path (Result String ClipTotals) (ok x) (ok y) → x ≡ y
      ok_eq x y e = cc

      second : (x y : Bool) → (x && y) ≡ true → y ≡ true
      second true y e = e
      second false y e = cc

      of_header :
          (v : ValidatedPackage) (header : ManifestHeader)
          → record {
            sample_id = header.sample_id;
            eligibility_version = header.eligibility_version;
            sample_rate = header.sample_rate;
            language = header.language;
            duration_ms = header.duration_ms;
            clip_count = header.clip_count;
          }
            ≡ v
          → Looped payloads (record {
            sample_id = header.sample_id;
            eligibility_version = header.eligibility_version;
            sample_rate = header.sample_rate;
            language = header.language;
            duration_ms = header.duration_ms;
            clip_count = header.clip_count;
          })
          → Looped payloads v
      of_header v header e l = subst (λ (x : ValidatedPackage). Looped payloads x) e l

  -- The duration that an accepted package declares is that of its audio: the sum of the durations of
  -- the WAV files of its clips, read again at its rate.
  pub declared_duration :
      (manifest : Value) (payloads : Payloads) (known : List ℕ) (limits : PackageLimits)
      (v : ValidatedPackage)
      → validate_package sha256_hex manifest payloads known limits ≡ ok v
      → audio_duration payloads v.sample_rate v.clip_count 0 0 ≡ some v.duration_ms
  declared_duration manifest payloads known limits v e =
      (looped manifest payloads known limits v e).lasts

  -- Each file of an accepted package is the audio or the text of one of its clips.
  pub files_are_clips :
      (manifest : Value) (payloads : Payloads) (known : List ℕ) (limits : PackageLimits)
      (v : ValidatedPackage)
      → validate_package sha256_hex manifest payloads known limits ≡ ok v
      → All (IsClipFile v.clip_count) (names_of payloads)
  files_are_clips manifest payloads known limits v e =
      let l = looped manifest payloads known limits v e in
      subset-All (IsClipFile v.clip_count) (names_of payloads) l.referenced l.all l.files
