-- ===== src/Prelude/Runes.antt =====
-- What the program uses of packages strings and fmt, on lists of code points.
use ssh_arena.Prelude.{
  ℕ, zero, suc, ◌+◌, ◌-◌, ◌*◌, ◌/◌, ◌%◌, ◌^◌, Bool, true, false, not, ◌&&◌, ◌||◌, Option, none,
  some, List, [], ◌∷◌, ◌++◌, ltb, leb, ◌==◌, if◌then◌else◌,
}
use ssh_arena.Prelude.Int.{ℤ, pos, negsuc, sub_ℕ}
pub mod Words

-- `unicode.IsSpace`.
abbrev pub is_space : ℕ → Bool
is_space c =
    leb 9 c && leb c 13
    || c == 32
    || c == 0x85
    || c == 0xA0
    || c == 0x1680
    || leb 0x2000 c && leb c 0x200A
    || c == 0x2028
    || c == 0x2029
    || c == 0x202F
    || c == 0x205F
    || c == 0x3000

abbrev pub is_nil {ℓ} : {A : Type ℓ} → List A → Bool
is_nil [] = true
is_nil (x ∷ xs) = false

unfoldable pub trim_left : List ℕ → List ℕ
trim_left [] = []
trim_left (c ∷ cs) = let rest = trim_left cs in if is_space c then rest else c ∷ cs

unfoldable pub trim_right : List ℕ → List ℕ
trim_right [] = []
trim_right (c ∷ cs) = let rest = trim_right cs in if is_nil rest && is_space c then [] else c ∷ rest

-- `strings.TrimSpace`.
unfoldable pub trim_space : List ℕ → List ℕ
unfolding trim_left trim_right
trim_space cs = trim_right (trim_left cs)

-- Put a code point in front of the first word, or start a word with it.
abbrev pub grow : ℕ → List (List ℕ) → List (List ℕ)
grow c [] = (c ∷ []) ∷ []
grow c (w ∷ ws) = (c ∷ w) ∷ ws

abbrev pub next_is_space : List ℕ → Bool
next_is_space [] = true
next_is_space (c ∷ cs) = is_space c

-- `strings.Fields`: the words between runs of white space.
unfoldable pub fields : List ℕ → List (List ℕ)
fields [] = []
fields (c ∷ cs) =
    let rest = fields cs in
    if is_space c then rest else if next_is_space cs then (c ∷ []) ∷ rest else grow c rest

-- `strings.Join(words, " ")`.
unfoldable pub join_words : List (List ℕ) → List ℕ
join_words [] = []
join_words (w ∷ []) = w
join_words (w ∷ v ∷ vs) = w ++ 32 ∷ join_words (v ∷ vs)

unfoldable pub replace_all : ℕ → ℕ → List ℕ → List ℕ
replace_all a b [] = []
replace_all a b (c ∷ cs) = (if c == a then b else c) ∷ replace_all a b cs

abbrev pub is_digit : ℕ → Bool
is_digit c = leb b'0' c && leb c b'9'

-- The number that the leading digits spell, after those that spelled `n`.
unfoldable pub digits_from : ℕ → List ℕ → ℕ
digits_from n [] = n
digits_from n (c ∷ cs) =
    let rest = digits_from (10 * n + (c - b'0')) cs in if is_digit c then rest else n

unfoldable pub scan_number : List ℕ → Option ℕ
unfolding digits_from
scan_number [] = none
scan_number (c ∷ cs) = if is_digit c then some (digits_from 0 (c ∷ cs)) else none

abbrev pub positive_int : Option ℕ → Option ℤ
positive_int none = none
positive_int (some n) = if ltb n (2 ^ 63) then some (pos n) else none

abbrev pub negative_int : Option ℕ → Option ℤ
negative_int none = none
negative_int (some n) = if leb n (2 ^ 63) then some (sub_ℕ 0 n) else none

-- `fmt.Sscanf(value, "%d", &out)` for an int64, where the value does not start with a space; what
-- follows the digits is not read.
unfoldable pub scan_int : List ℕ → Option ℤ
unfolding scan_number
scan_int [] = none
scan_int (c ∷ cs) =
    if c == b'-'
    then negative_int (scan_number cs)
    else if c == b'+'
    then positive_int (scan_number cs)
    else positive_int (scan_number (c ∷ cs))

-- The last digits of a number, in front of what is already printed; 20 are enough for an int64.
unfoldable pub print_digits : ℕ → ℕ → List ℕ → List ℕ
print_digits zero n out = out
print_digits (suc k) n out =
    let digit = (n % 10 + b'0') ∷ out in
    let more = print_digits k (n / 10) digit in if n / 10 == 0 then digit else more

-- `fmt.Sprintf("%d", z)`.
unfoldable pub print_int : ℤ → List ℕ
unfolding print_digits
print_int (pos n) = print_digits 20 n []
print_int (negsuc n) = b'-' ∷ print_digits 20 (suc n) []
