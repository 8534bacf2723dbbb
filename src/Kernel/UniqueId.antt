-- ===== src/Kernel/UniqueId.antt =====
-- packages/shared-kernel/src/domain/unique-id.ts. A unique id is its text; `randomUUID` is an argument
-- where ids are drawn.
use order_to_cash_nestjs.Base.{
  ℕ, ◌+◌, Bool, false, ◌&&◌, ◌||◌, not, List, [], ◌∷◌, ◌++◌, leb, ◌==◌, if◌then◌else◌, is_empty,
  map, replicate, ◌≡◌, true, refl, Bool-cases, inl, sym, inr,
}
use order_to_cash_nestjs.Base.Text.{Text}
use order_to_cash_nestjs.Errors.{invalid_unique_id}
use order_to_cash_nestjs.Result.{Result, ok, ◌>>◌, throw_if, ok-injective}

-- `[0-9a-f]` under the flag `i`.
abbrev is_hex : ℕ → Bool
is_hex c = (leb b'0' c && leb c b'9') || (leb b'a' c && leb c b'f') || (leb b'A' c && leb c b'F')

-- `[89ab]` under the flag `i`.
abbrev is_variant : ℕ → Bool
is_variant c = c == b'8' || c == b'9' || c == b'a' || c == b'b' || c == b'A' || c == b'B'

-- A text that has one character of each class, in order.
unfoldable pub matches : List (ℕ → Bool) → Text → Bool
matches [] s = is_empty s
matches (p ∷ ps) [] = false
matches (p ∷ ps) (c ∷ cs) = p c && matches ps cs

-- UUID_V4_PATTERN
abbrev uuid_v4_pattern : List (ℕ → Bool)
uuid_v4_pattern =
    let hexes = λ (n : ℕ). replicate n is_hex in
    let dash = λ (c : ℕ). c == b'-' in
    hexes 8
    ++ dash ∷ hexes 4
    ++ dash ∷ (λ c. c == b'4') ∷ hexes 3
    ++ dash ∷ is_variant ∷ hexes 3
    ++ dash ∷ hexes 12

unfoldable pub is_uuid_v4 : Text → Bool
unfolding matches
is_uuid_v4 value = matches uuid_v4_pattern value

-- `toLowerCase` on the characters of the pattern.
unfoldable pub to_lower_case : Text → Text
to_lower_case = map (λ c. if leb b'A' c && leb c b'Z' then c + 32 else c)

-- `UniqueId.from`
unfoldable pub unique_id : Text → Result Text
unfolding is_uuid_v4 to_lower_case
unique_id value = do throw_if (not (is_uuid_v4 value)) invalid_unique_id; ok (to_lower_case value)

-- A text of the shape of a UUID v4 is accepted.
pub unique_id-accepts :
    (value : Text) → is_uuid_v4 value ≡ true → unique_id value ≡ ok (to_lower_case value)
unfolding unique_id
unique_id-accepts value h = rw h refl

pub unique_id-value :
    (value : Text) {id : Text} → unique_id value ≡ ok id → id ≡ to_lower_case value
unfolding unique_id
unique_id-value value h = elim (Bool-cases (is_uuid_v4 value)) [
  | inl valid ↦ let h' = rw valid at h in λ i. ok-injective (sym h') i
  | inr bad ↦ let h' = rw bad at h in cc
]
