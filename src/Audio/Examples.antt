-- ===== src/Audio/Examples.antt =====
-- audio.rs: frames of a capture of one second at 4 Hz; the second of them does not fit.
use ai_data_hackathon.Prelude.{◌≤◌, ◌≡◌, refl, true, false, not, List, [], ◌∷◌, length}
use ai_data_hackathon.Prelude.Int.{ℤ, pos, negsuc}
use ai_data_hackathon.Prelude.Results.{ok}
use ai_data_hackathon.Audio.{new_buffer, duration_ms, push}
use ai_data_hackathon.Audio.Frames.{push_all, fitting, all_fit, holding, push_all-new_buffer}

abbrev frames : List (List ℤ)
frames = (pos 1 ∷ negsuc 0 ∷ pos 3 ∷ []) ∷ (pos 4 ∷ pos 5 ∷ []) ∷ (pos 6 ∷ []) ∷ []

pushed_frames :
    push_all (holding 4 4 [] false) frames ≡ holding 4 4 (pos 1 ∷ negsuc 0 ∷ pos 3 ∷ []) true
unfolding push
pushed_frames = refl

made : new_buffer 4 1 ≡ ok (holding 4 4 [] false)
unfolding new_buffer
made = refl

push_all-new_buffer_example :
    ((push_all (holding 4 4 [] false) frames).samples ≡ fitting 4 frames)
    × ((push_all (holding 4 4 [] false) frames).overflowed ≡ not (all_fit 4 frames))
    × (length (push_all (holding 4 4 [] false) frames).samples ≤ 4)
    × (duration_ms (push_all (holding 4 4 [] false) frames) ≤ 1000)
push_all-new_buffer_example = push_all-new_buffer 4 1 (holding 4 4 [] false) frames made
