-- ===== src/Relay/Bytes.antt =====
-- Python's `bytes` and the `str` values that the relay makes of them: lists of numbers, those of
-- `bytes` below 256, those of `str` code points.
use voidz.Prelude.{
  ℕ, ◌+◌, ◌-◌, ◌*◌, ◌/◌, ◌%◌, ◌<◌, ◌≡◌, ap, Bool, true, not, ◌==◌, nat_eq, list_eq, ◌&&◌, ◌||◌,
  List, [], ◌∷◌, ◌++◌, Option, none, some, arith, ltb, leb, eqb, if◌then◌else◌, take, drop,
  get_elem?, get_elem?-drop, drop-drop, ◌∙◌,
}
use voidz.Prelude.Result.{Result, ok, raise, value_error, overflow_error, type_error, fail_if, ◌>>◌}

abbrev pub Bytes : Type 0
Bytes = List ℕ

abbrev pub Text : Type 0
Text = List ℕ

-- `chunk[pos:pos + n]`
abbrev pub slice : List ℕ → ℕ → ℕ → List ℕ
slice xs pos n = take n (drop pos xs)

-- `sep.join(parts)`
unfoldable pub join : ℕ → List Text → Text
join sep [] = []
join sep (x ∷ []) = x
join sep (x ∷ y ∷ rest) = x ++ (sep ∷ join sep (y ∷ rest))

-- `int.from_bytes(xs, "big")`
unfoldable pub from_big : ℕ → Bytes → ℕ
from_big acc [] = acc
from_big acc (b ∷ bs) = from_big (acc * 256 + b) bs

-- `n.to_bytes(2, "big")`
unfoldable pub to_big2 : ℕ → Result Bytes
to_big2 n = if ltb n 65536 then ok (n / 256 ∷ n % 256 ∷ []) else raise overflow_error

-- `bytes([n])`
unfoldable pub one_byte : ℕ → Result Bytes
one_byte n = if ltb n 256 then ok (n ∷ []) else raise value_error

-- `str(b)` of a byte
unfoldable pub str_byte : ℕ → Text
str_byte b =
    if ltb b 10
    then (48 + b) ∷ []
    else if ltb b 100
    then (48 + b / 10) ∷ (48 + b % 10) ∷ []
    else (48 + b / 100) ∷ (48 + b / 10 % 10) ∷ (48 + b % 10) ∷ []

unfoldable pub hex_digit : ℕ → ℕ
hex_digit d = if ltb d 10 then 48 + d else 87 + d

-- `f"{b:02x}"` of a byte
unfoldable pub hex2 : ℕ → Text
unfolding hex_digit
hex2 b = hex_digit (b / 16) ∷ hex_digit (b % 16) ∷ []

-- the value of a hexadecimal digit, in either case
unfoldable pub hex_value : ℕ → Option ℕ
hex_value c =
    if leb 48 c && leb c 57
    then some (c - 48)
    else if leb 97 c && leb c 102
    then some (c - 87)
    else if leb 65 c && leb c 70
    then some (c - 55)
    else none

-- `s.replace("-", "")`
unfoldable pub without_dashes : Text → Text
without_dashes [] = []
without_dashes (c ∷ cs) = let rest = without_dashes cs in if eqb c 45 then rest else c ∷ rest

unfoldable pub is_space : ℕ → Bool
is_space c = eqb c 32 || (leb 9 c && leb c 13)

-- `bytes.fromhex(s)`: pairs of digits, with white space allowed between the pairs
unfoldable pub fromhex : Text → Option Bytes
unfolding hex_value is_space
fromhex [] = some []
fromhex (c ∷ []) = if is_space c then some [] else none
fromhex (c ∷ d ∷ cs) =
    let after_space = fromhex (d ∷ cs) in
    let after_pair = fromhex cs in
    if is_space c then after_space else elim (hex_value c) [
      | none ↦ none
      | some h ↦ elim (hex_value d) [
        | none ↦ none
        | some l ↦ elim after_pair [ none ↦ none | some bs ↦ some ((h * 16 + l) ∷ bs) ]
      ]
    ]

-- `bytes.decode("ascii", errors="ignore")`
unfoldable pub decode_ascii : Bytes → Text
decode_ascii [] = []
decode_ascii (b ∷ bs) = let rest = decode_ascii bs in if ltb b 128 then b ∷ rest else rest

-- `str.lower()` of an ASCII text
unfoldable pub lower : Text → Text
lower [] = []
lower (c ∷ cs) = (if leb 65 c && leb c 90 then c + 32 else c) ∷ lower cs

-- The positions of a chunk behind a part that is known.
module _ (xs : List ℕ) {ys : List ℕ} (k : ℕ) (cut : drop k xs ≡ ys) where
  pub at_offset : (i : ℕ) → get_elem? xs (k + i) ≡ get_elem? ys i
  at_offset i = get_elem?-drop k xs i ∙ ap (λ (t : List ℕ). get_elem? t i) cut

  pub drop_offset : (i : ℕ) → drop (k + i) xs ≡ drop i ys
  drop_offset i = drop-drop k i xs ∙ ap (drop i) cut

-- Two bytes in network order give the number back.
pub to_big2-eq_ok : (n : ℕ) → n < 65536 → to_big2 n ≡ ok (n / 256 ∷ n % 256 ∷ [])
unfolding to_big2
to_big2-eq_ok n h = ground arith

pub from_big-to_big2 : (n : ℕ) → from_big 0 (n / 256 ∷ n % 256 ∷ []) ≡ n
unfolding from_big
from_big-to_big2 n = omega arith

unfoldable pub is_ascii : Text → Bool
is_ascii [] = true
is_ascii (c ∷ cs) = ltb c 128 && is_ascii cs

-- `secrets.compare_digest` of texts raises `TypeError` on a text that is not ASCII.
unfoldable pub compare_digest : Text → Text → Result Bool
compare_digest a b = do fail_if (not (is_ascii a && is_ascii b)) type_error; ok (a == b)
