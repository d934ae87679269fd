-- ===== src/Wer/Examples.antt =====
-- wer.rs: the distance of short texts.
use ai_data_hackathon.Prelude.{ℕ, ◌≡◌, some, List, [], ◌∷◌}
use ai_data_hackathon.Prelude.Text.{Text, codes}
use ai_data_hackathon.Wer.{edit_distance}
use ai_data_hackathon.Wer.Scripts.{IsDistance, edit_distance-IsDistance}

abbrev said : List Text
said = codes "the" ∷ codes "cat" ∷ codes "sat" ∷ []

abbrev heard : List Text
heard = codes "the" ∷ codes "bat" ∷ []

edit_distance-IsDistance_example :
    (n : ℕ) × (edit_distance said heard ≡ some n) × IsDistance said heard n
edit_distance-IsDistance_example = edit_distance-IsDistance said heard
