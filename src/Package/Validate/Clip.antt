-- ===== src/Package/Validate/Clip.antt =====
-- package.rs: what `validate_clip` has checked of a clip that it accepts.
use ai_data_hackathon.Prelude.{
  ℕ, String, ◌≡◌, refl, sym, ap, ◌∙◌, Bool, true, false, not, ◌&&◌, some, List, str_eq, str_eq_iff,
  leb, ◌==◌, length,
}
use ai_data_hackathon.ClassifierSchema.{Value, as_object}
use ai_data_hackathon.Prelude.Text.{trim, is_empty_text, count_words}
use ai_data_hackathon.Prelude.Utf8.{from_utf8}
use ai_data_hackathon.Prelude.Results.{Result, ok, bind_ok}
use ai_data_hackathon.Package.Wav.{validate_wav}
use ai_data_hackathon.Package.Json.{
  PackageLimits, require_exact_keys, required_u64, clip_keys, required_string,
}
use ai_data_hackathon.Package.Header.{Payloads, payload, clip_name, clip_duration}
use ai_data_hackathon.Package.Validate.{ClipEntry, validate_clip}
use ai_data_hackathon.Package.Validate.Passed.{require_ok, ok_or_ok}

module _ (sha256_hex : List ℕ → String) where
  -- A clip that is accepted.
  pub record Accepted (index : ℕ) (payloads : Payloads) (sample_rate : ℕ) (entry : ClipEntry)
      : Type 0 where
    pub audio : List ℕ
    pub samples : ℕ
    pub audio_named : entry.audio_name ≡ clip_name index ".wav"
    pub text_named : entry.text_name ≡ clip_name index ".txt"
    pub has_audio : payload payloads (clip_name index ".wav") ≡ some audio
    pub heard : validate_wav audio sample_rate ≡ ok samples
    pub lasts : entry.duration ≡ clip_duration samples sample_rate

  pub validate_clip_ok :
      (value : Value) (index : ℕ) (payloads : Payloads) (sample_rate : ℕ) (limits : PackageLimits)
      (entry : ClipEntry)
      → validate_clip sha256_hex value index payloads sample_rate limits ≡ ok entry
      → Accepted index payloads sample_rate entry
  unfolding validate_clip
  validate_clip_ok value index payloads sample_rate limits entry e =
      let a = ok_or_ok (as_object value) "invalid_clip" _ entry e in
      let b = bind_ok (require_exact_keys a.0 clip_keys) _ entry a.2 in
      let c = bind_ok (required_string a.0 "audio") _ entry b.2 in
      let d = bind_ok (required_string a.0 "text") _ entry c.2 in
      let f =
        require_ok (str_eq c.0 (clip_name index ".wav") && str_eq d.0 (clip_name index ".txt"))
          "unsafe_clip_filename" _ entry d.2 in
      let g = ok_or_ok (payload payloads c.0) "package_missing_file" _ entry f.1 in
      let h = ok_or_ok (payload payloads d.0) "package_missing_file" _ entry g.2 in
      let k = bind_ok (required_string a.0 "sha256") _ entry h.2 in
      let l = require_ok (str_eq k.0 (sha256_hex g.0)) "package_checksum_mismatch" _ entry k.2 in
      let m = bind_ok (validate_wav g.0 sample_rate) _ entry l.1 in
      let n = bind_ok (required_u64 a.0 "duration_ms") _ entry m.2 in
      let o =
        require_ok (n.0 == clip_duration m.0 sample_rate) "clip_duration_mismatch" _ entry n.2 in
      let p = ok_or_ok (from_utf8 h.0) "clip_text_not_utf8" _ entry o.1 in
      let q =
        require_ok (not (is_empty_text (trim p.0)) && leb (length h.0) limits.max_text_bytes)
          "invalid_clip_text" _ entry p.2 in
      let r = bind_ok (required_u64 a.0 "word_count") _ entry q.1 in
      let s = require_ok (r.0 == count_words false p.0) "clip_word_count_mismatch" _ entry r.2 in
      let made = ok_eq _ entry s.1 in
      let named =
        both (str_eq c.0 (clip_name index ".wav")) (str_eq d.0 (clip_name index ".txt")) f.0 in
      let audio_named : c.0 ≡ clip_name index ".wav" =
        (str_eq_iff c.0 (clip_name index ".wav")).0 named.0 in
      record {
        audio = g.0;
        samples = m.0;
        audio_named = ap (λ (x : ClipEntry). x.audio_name) made ∙ audio_named;
        text_named =
            ap (λ (x : ClipEntry). x.text_name) made
            ∙ (str_eq_iff d.0 (clip_name index ".txt")).0 named.1;
        has_audio = ap (λ (name : String). payload payloads name) (sym audio_named) ∙ g.1;
        heard = m.1;
        lasts = ap (λ (x : ClipEntry). x.duration) made;
      }
    where
      ok_eq : (x y : ClipEntry) → Path (Result String ClipEntry) (ok x) (ok y) → y ≡ x
      ok_eq x y e = cc

      both : (x y : Bool) → (x && y) ≡ true → (x ≡ true) × (y ≡ true)
      both true y e = (refl, e)
      both false y e = cc
