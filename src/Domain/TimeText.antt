-- ===== src/Domain/TimeText.antt =====
-- src/domain.rs, `Display` and `FromStr` of `TimeOfDay`, over the bytes of the text.
-- `u16::from_str` is the standard library's: an optional `+`, then at least one digit, checked
-- against the range of `u16`.
use troute.Prelude.{
  ℕ, ◌+◌, ◌-◌, ◌*◌, ◌/◌, ◌%◌, ◌^◌, ◌<◌, ◌≡◌, ltb, leb, ◌==◌, if◌then◌else◌, Bool, not, ◌&&◌, ◌||◌,
  Option, none, some, Result, ok, err, ok_or, List, [], ◌∷◌, ◌++◌, length, arith,
}
use troute.Prelude.Results.{◌>>=◌}
use troute.Domain.Time.{TimeOfDay, TimeParseError, IsInDay}

-- `{:02}` of a number below 100, which hours and minutes of a `TimeOfDay` are.
two_digits : ℕ → List ℕ
two_digits n = (48 + n / 10) ∷ (48 + n % 10) ∷ []

unfoldable pub display : TimeOfDay → List ℕ
unfolding two_digits
display t = two_digits (t.minutes / 60) ++ (b':' ∷ two_digits (t.minutes % 60))

-- `str::split_once(':')`.
split_once : List ℕ → Option (List ℕ × List ℕ)
split_once [] = none
split_once (c ∷ cs) =
    if c == b':'
    then some ([], cs)
    else elim (split_once cs) [ none ↦ none | some (before, after) ↦ some (c ∷ before, after) ]

is_digit : ℕ → Bool
is_digit c = leb b'0' c && leb c b'9'

parse_digits : ℕ → List ℕ → Option ℕ
unfolding is_digit
parse_digits acc [] = some acc
parse_digits acc (c ∷ cs) =
    let next = acc * 10 + (c - 48) in
    let rest = parse_digits next cs in if is_digit c && ltb next (2 ^ 16) then rest else none

parse_u16 : List ℕ → Option ℕ
unfolding parse_digits
parse_u16 [] = none
parse_u16 (c ∷ []) = parse_digits 0 (c ∷ [])
parse_u16 (c ∷ (d ∷ ds)) =
    if c == b'+' then parse_digits 0 (d ∷ ds) else parse_digits 0 (c ∷ (d ∷ ds))

unfoldable pub from_str : List ℕ → Result TimeOfDay TimeParseError
unfolding split_once parse_u16
from_str value = do
  (hours_text, minutes_text) ← ok_or (split_once value) TimeParseError.invalid_format
  if not (length hours_text == 2) || not (length minutes_text == 2)
      then err TimeParseError.invalid_format
      else do
        hours ← ok_or (parse_u16 hours_text) TimeParseError.invalid_format
        minutes ← ok_or (parse_u16 minutes_text) TimeParseError.invalid_format
        if leb 24 hours || leb 60 minutes
            then err TimeParseError.out_of_range
            else ok (record { minutes = hours * 60 + minutes })

parse_digits_two : (h : ℕ) → h < 100 → parse_digits 0 ((48 + h / 10) ∷ (48 + h % 10) ∷ []) ≡ some h
unfolding parse_digits
parse_digits_two h lt = ground arith

parse_u16-two_digits : (h : ℕ) → h < 100 → parse_u16 (two_digits h) ≡ some h
unfolding parse_u16 two_digits
parse_u16-two_digits h lt = ground (arith, parse_digits_two h lt)

-- Reading back a printed time gives the time: for every minute of the day, `from_str` of
-- `display` is that minute.
pub from_str-display : (t : TimeOfDay) → IsInDay t → from_str (display t) ≡ ok t
unfolding from_str display
from_str-display t day = ground (
  arith,
  parse_digits_two (t.minutes / 60) (omega arith),
  parse_digits_two (t.minutes % 60) (omega arith),
)

-- What `from_str` accepts is a time of the single day, whatever the text.
pub from_str-IsInDay : (value : List ℕ) {t : TimeOfDay} → from_str value ≡ ok t → IsInDay t
unfolding from_str
from_str-IsInDay value h = ground arith
