-- ===== src/Lib.antt =====
-- Local Dictation: the core of the Rust workspace, crates/dictation-core/src, which is pure: it does
-- no I/O. A dictation session is recorded under a state machine and an epoch token, and its frozen
-- transcript is delivered. A training copy is made on the side: rules and a classifier find what is
-- sensitive, a plan of cuts removes the words and the audio around them, and what is left may be
-- contributed under a consent.
--
-- The parts, and how they stand on each other:
--   TimeMap           time_map.rs: half-open intervals of samples, `normalize`, padding, complement,
--                     and the maps to a shortened and to a resampled recording.
--   Transcript        transcript.rs: `Word`, `FrozenTranscript`, `SensitiveSpan`; uses TimeMap.
--   Removal           removal.rs: `sentences_from_words`, `expand_to_sentences`, `plan_removals`;
--                     uses TimeMap and Transcript.
--   ClassifierSchema  classifier_schema.rs: `validate_output` for the answers of the classifier.
--   Privacy           privacy.rs: `build_windows`, `validate_alignment`; Privacy.Analysis has
--                     `analyze`, which uses Removal and ClassifierSchema.
--   Recording         recording.rs: `RecordingStateMachine::handle` and `tick`.
--   Shortcuts         shortcuts.rs: `ShortcutInterpreter`, which gives the events of Recording.
--   Coordinator       coordinator.rs: `CaptureCoordinator`; Coordinator.Training has the
--                     `TrainingSupervisor`, whose threads are interleaved steps.
--   Rules             rules.rs: `detect`; Rules.Numbers has the checksums, Rules.Runs the detectors that
--                     walk the words, Rules.Detect the others and the whole.
--   Quality           quality.rs: the gates. Vad: vad.rs, the voice activity. Wer: wer.rs.
--   Audio             audio.rs: the capture buffer; Audio.Frames is about what it holds.
--   Asr               asr.rs: Asr has `freeze` and `LiveReconciler`, where the id `segment-{n}` is n;
--                     Asr.Live is about its passes, Asr.Freezing about the frozen words.
--   Dataset           dataset.rs: Dataset has the loop over the retained intervals, Dataset.Build
--                     `build_dataset`, which composes Privacy, Removal, Quality and Vad;
--                     Dataset.Build.Lexicon goes from Rules through all of these to the clips.
--   Package           package.rs: Package.Wav, the checks of a manifest in Package.Json, Header and
--                     Validate, `build_package` in Build and the archive in Archive.
--   Contribution      contribution.rs: `recheck`, `check_session`, `JobState`, `retry_delay`.
--   Prelude           shared names: Boolean tests, lists, machine words, sets, texts, results.
-- A parent has the definitions, its children the theorems, and its Examples the tests. Functions,
-- types and fields have the names of the source. A method that borrows mutably takes the value and
-- returns the new one; `Result` is `Result` of Prelude.Results, and a panic is `none`.
--
-- Numbers: `u64` and `usize` are natural numbers, with the saturation and the wrapping of the source
-- written out in Prelude.Words; `i64` is the ℤ of Prelude.Int; an `f32` is an exact multiple of
-- 2^-149 in Prelude.F32, as it is only tested and compared, and an `f64` of a manifest one of 2^-1074.
-- Sums, products and logarithms of floats are the operations of the interface `Floats`, on a type of
-- the caller's, and nothing is said of how they round. A text that the code walks is the list
-- of its code points, other texts are strings. A `BTreeSet` is an increasing list, and `word_by_id`
-- is the search that the binary search implements on increasing ids.
--
-- Loops: the loop of `plan_removals` is run on fuel, one round for each word and one more, since each
-- round but the last selects a word; the loop of `build_windows` on the number of words and one, since
-- each window starts after the one before. The chunks of a WAV
-- file take 8 bytes each at least, and the fuel is the length of the file and one; the candidates of
-- an account number lose a character each. All other loops are structural.
--
-- Arguments in place of code outside the sources: serde_json's parser and printer, the classifier's
-- answers, the digest of sha2, tar's builder and reader, the matches of the crate regex, the recheck of
-- the retained text. The tables of Unicode and `to_lowercase` of the standard library are arguments too.
-- Not modelled: platform.rs and the chords of shortcuts.rs;
-- the crates of storage, workers, engine, API, server, models and platform, src-tauri and ui, which are
-- mostly I/O.
-- Texts of errors, of the prompts and of the disclosure are left out.
pub mod Prelude
pub mod TimeMap
pub mod Transcript
pub mod Removal
pub mod Recording
pub mod Rules
pub mod Shortcuts
pub mod Coordinator
pub mod Contribution
pub mod Asr
pub mod Audio
pub mod ClassifierSchema
pub mod Package
pub mod Quality
pub mod Vad
pub mod Wer
pub mod Dataset
pub mod Privacy
