-- ===== src/Domain/Tests.antt =====
-- Times of day at concrete texts.
use troute.Prelude.{ℕ, ◌≡◌, refl, ok, err, List, [], ◌∷◌, arith}
use troute.Domain.Time.{TimeOfDay, TimeParseError, IsInDay}
use troute.Domain.TimeText.{display, from_str, from_str-display, from_str-IsInDay}

abbrev nine_oh_five : TimeOfDay
nine_oh_five = record { minutes = 545 }

abbrev nine_oh_five_text : List ℕ
nine_oh_five_text = b'0' ∷ b'9' ∷ b':' ∷ b'0' ∷ b'5' ∷ []

displays : display nine_oh_five ≡ nine_oh_five_text
unfolding display
displays = refl

parses : from_str nine_oh_five_text ≡ ok nine_oh_five
unfolding from_str
parses = refl

-- The number parser of the standard library takes a sign, so this text is a time too.
parses_signs : from_str (b'+' ∷ b'9' ∷ b':' ∷ b'+' ∷ b'5' ∷ []) ≡ ok nine_oh_five
unfolding from_str
parses_signs = refl

one_digit_hour : from_str (b'9' ∷ b':' ∷ b'0' ∷ b'5' ∷ []) ≡ err TimeParseError.invalid_format
unfolding from_str
one_digit_hour = refl

from_str-display_example : from_str (display nine_oh_five) ≡ ok nine_oh_five
from_str-display_example = from_str-display nine_oh_five (omega arith)

from_str-IsInDay_example : IsInDay nine_oh_five
from_str-IsInDay_example = from_str-IsInDay nine_oh_five_text parses
