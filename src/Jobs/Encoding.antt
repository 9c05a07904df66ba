-- ===== src/Jobs/Encoding.antt =====
-- src/storage.rs, `encode_job_id`: a job id as the name of a directory.
use troute.Prelude.{
  ℕ, ◌+◌, ◌-◌, ◌/◌, ◌%◌, ◌<◌, Bool, false, ◌&&◌, ◌||◌, if◌then◌else◌, leb, ◌==◌, List, [], ◌∷◌, ◌≡◌,
  refl, ap₂, arith,
}

is_alphanumeric : ℕ → Bool
is_alphanumeric b =
    (leb b'0' b && leb b b'9') || (leb b'A' b && leb b b'Z') || (leb b'a' b && leb b b'z')

is_plain : ℕ → Bool
unfolding is_alphanumeric
is_plain b = is_alphanumeric b || (b == b'-') || (b == b'_')

upper_hex_digit : ℕ → ℕ
upper_hex_digit d = if leb d 9 then b'0' + d else b'A' + (d - 10)

unfoldable pub encode_job_id : List ℕ → List ℕ
unfolding is_plain upper_hex_digit
encode_job_id [] = []
encode_job_id (b ∷ bs) =
    let rest = encode_job_id bs in
    if is_plain b
    then b ∷ rest
    else b'%' ∷ (upper_hex_digit (b / 16) ∷ (upper_hex_digit (b % 16) ∷ rest))

abbrev pub AllBytes : List ℕ → Type 0
AllBytes [] = Unit
AllBytes (b ∷ bs) = (b < 256) × AllBytes bs

upper_hex_digit_inj : (a b : ℕ) → a < 16 → b < 16 → upper_hex_digit a ≡ upper_hex_digit b → a ≡ b
unfolding upper_hex_digit
upper_hex_digit_inj a b f g e = ground arith

percent_escaped : is_plain b'%' ≡ false
unfolding is_plain is_alphanumeric
percent_escaped = refl

-- Two bytes whose encodings begin alike are one, and the encodings go on alike.
encode-uncons :
    (x y : ℕ) (xs ys : List ℕ)
    → x < 256
    → y < 256
    → encode_job_id (x ∷ xs) ≡ encode_job_id (y ∷ ys)
    → (x ≡ y) × (encode_job_id xs ≡ encode_job_id ys)
unfolding encode_job_id
encode-uncons x y xs ys f g e = ground (
  arith,
  percent_escaped,
  upper_hex_digit_inj (x / 16) (y / 16),
  upper_hex_digit_inj (x % 16) (y % 16),
)

-- Different job ids have different directories.
pub encode_job_id_inj :
    (xs ys : List ℕ) → AllBytes xs → AllBytes ys → encode_job_id xs ≡ encode_job_id ys → xs ≡ ys
unfolding encode_job_id
encode_job_id_inj [] [] f g e = refl
encode_job_id_inj [] (y ∷ ys) f g e = ground arith
encode_job_id_inj (x ∷ xs) [] f g e = ground arith
encode_job_id_inj (x ∷ xs) (y ∷ ys) f g e =
    let (same, rest) = encode-uncons x y xs ys f.0 g.0 e in
    ap₂ (λ b bs. b ∷ bs) same (encode_job_id_inj xs ys f.1 g.1 rest)
