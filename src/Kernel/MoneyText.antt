-- ===== src/Kernel/MoneyText.antt =====
-- packages/shared-kernel/src/domain/currency-exponent.ts and money-text.ts: an amount of minor units
-- as a text for readers. `toString` of a safe integer is its decimal numeral (21 rounds serve every
-- number below 10^21). `trim` takes off the white space of JavaScript.
pub mod Grouping
pub mod ReadBack
use order_to_cash_nestjs.Base.{
  ℕ, ◌+◌, ◌-◌, ◌%◌, Bool, ◌&&◌, ◌||◌, not, List, [], ◌∷◌, ◌++◌, leb, ltb, ◌==◌, if◌then◌else◌,
  length, take, drop, is_empty, any,
}
use order_to_cash_nestjs.Base.Int.{ℤ, pos_part, neg_part, pos, ltb_ℤ}
use order_to_cash_nestjs.Base.Text.{Text, codes, ◌=t◌}
use order_to_cash_nestjs.Kernel.Money.{to_upper_case}
use order_to_cash_nestjs.Kernel.Reference.{decimal, pad_start}

-- WhiteSpace and LineTerminator.
unfoldable pub is_space : ℕ → Bool
is_space c =
    (leb 9 c && leb c 13)
    || c == 32
    || c == 0xa0
    || c == 0x1680
    || (leb 0x2000 c && leb c 0x200a)
    || c == 0x2028
    || c == 0x2029
    || c == 0x202f
    || c == 0x205f
    || c == 0x3000
    || c == 0xfeff

unfoldable pub trim_start : Text → Text
trim_start [] = []
trim_start (c ∷ cs) = let rest = trim_start cs in if is_space c then rest else c ∷ cs

unfoldable pub trim_end : Text → Text
trim_end [] = []
trim_end (c ∷ cs) = let rest = trim_end cs in if is_space c && is_empty rest then [] else c ∷ rest

-- NON_DEFAULT_EXPONENTS
abbrev pub zero_decimals : List Text
zero_decimals =
    codes "BIF"
    ∷ codes "CLP"
    ∷ codes "DJF"
    ∷ codes "GNF"
    ∷ codes "ISK"
    ∷ codes "JPY"
    ∷ codes "KMF"
    ∷ codes "KRW"
    ∷ codes "PYG"
    ∷ codes "RWF"
    ∷ codes "UGX"
    ∷ codes "VND"
    ∷ codes "VUV"
    ∷ codes "XAF"
    ∷ codes "XOF"
    ∷ codes "XPF"
    ∷ codes "UYI"
    ∷ []

abbrev pub three_decimals : List Text
three_decimals =
    codes "BHD"
    ∷ codes "IQD"
    ∷ codes "JOD"
    ∷ codes "KWD"
    ∷ codes "LYD"
    ∷ codes "OMR"
    ∷ codes "TND"
    ∷ []

abbrev pub four_decimals : List Text
four_decimals = codes "CLF" ∷ codes "UYW" ∷ []

unfoldable pub exponent_of : Text → ℕ
exponent_of code =
    if any (λ k. k =t code) zero_decimals
    then 0
    else if any (λ k. k =t code) three_decimals
    then 3
    else if any (λ k. k =t code) four_decimals
    then 4
    else 2

-- `currencyExponent`
unfoldable pub currency_exponent : Text → ℕ
unfolding exponent_of trim_start trim_end is_space
currency_exponent currency = exponent_of (to_upper_case (trim_end (trim_start currency)))

-- `replace(/\B(?=(\d{3})+(?!\d))/g, ' ')` on a text of digits.
unfoldable pub group_thousands : Text → Text
group_thousands [] = []
group_thousands (d ∷ ds) =
    d
    ∷ (let rest = group_thousands ds in
        if (length ds % 3 == 0) && not (is_empty ds) then b' ' ∷ rest else rest)

-- `toString` of a safe integer that is not negative.
unfoldable pub decimal_text : ℕ → Text
unfolding decimal
decimal_text n = decimal 21 n []

-- `digits`, padded so that the integer part has a digit.
unfoldable pub padded_digits : ℕ → ℕ → Text
unfolding decimal_text
padded_digits n exponent =
    let digits = decimal_text n in
    if leb (length digits) exponent then pad_start (exponent + 1) b'0' digits else digits

unfoldable pub with_fraction : ℕ → Text → Text
unfolding group_thousands
with_fraction exponent digits =
    let split_at = length digits - exponent in
    group_thousands (take split_at digits)
    ++ (if ltb 0 exponent then b'.' ∷ drop split_at digits else [])

-- `formatMoney`
unfoldable pub format_money : ℤ → Text → Text
unfolding currency_exponent padded_digits with_fraction
format_money minor_units currency =
    let exponent = currency_exponent currency in
    (if ltb_ℤ minor_units (pos 0) then b'-' ∷ [] else [])
    ++ (with_fraction exponent
          (padded_digits (pos_part minor_units + neg_part minor_units) exponent)
        ++ b' ' ∷ currency)
