-- ===== src/Transport/Address.antt =====
-- A host and a port in one text (rathole/src/helper.rs: host_port_pair).
use rathole_with_proxy.Base.{
  ℕ, zero, suc, ◌+◌, ◌-◌, ◌*◌, ◌/◌, ◌%◌, ◌<◌, ◌≡◌, refl, ◌&&◌, Bool, Option, none, some, [], ◌∷◌,
  ◌++◌, Text, eqb, leb, ltb, if◌then◌else◌, arith, ◌≢◌,
}
use rathole_with_proxy.Transport.{Outcome, ok, ◌>>=◌, or_err, or_panic}

abbrev pub at_colon : ℕ → Text → Option (Text × Text)
at_colon c s = if eqb c b':' then some ([], s) else none

-- `rfind(':')` and the two slices around it.
abbrev pub cut_last : ℕ → Text → Option (Text × Text) → Option (Text × Text)
cut_last c s none = at_colon c s
cut_last c s (some (before, after)) = some (c ∷ before, after)

unfoldable pub split_last_colon : Text → Option (Text × Text)
split_last_colon [] = none
split_last_colon (c ∷ s) = cut_last c s (split_last_colon s)

abbrev pub is_digit : ℕ → Bool
is_digit c = leb b'0' c && leb c b'9'

-- The digits after a value so far, each sum checked.
unfoldable pub parse_digits : ℕ → Text → Option ℕ
parse_digits n [] = some n
parse_digits n (c ∷ s) =
    let rest = parse_digits (n * 10 + (c - b'0')) s in
    if is_digit c && leb (n * 10 + (c - b'0')) 65535 then rest else none

abbrev pub parse_some : Text → Option ℕ
parse_some [] = none
parse_some (c ∷ s) = parse_digits 0 (c ∷ s)

-- `str::parse::<u16>`
unfoldable pub parse_u16 : Text → Option ℕ
unfolding parse_digits
parse_u16 [] = none
parse_u16 (c ∷ s) = if eqb c b'+' then parse_some s else parse_digits 0 (c ∷ s)

unfoldable pub host_port_pair : Text → Outcome (Text × ℕ)
unfolding split_last_colon parse_u16
host_port_pair s = do
  parts ← or_panic (split_last_colon s)
  port ← or_err (parse_u16 parts.1)
  ok (parts.0, port)

-- A number in decimal, before a text; the first argument bounds the number of digits.
unfoldable pub print_digits : ℕ → ℕ → Text → Text
print_digits zero n rest = rest
print_digits (suc f) n rest =
    let more = print_digits f (n / 10) ((b'0' + n % 10) ∷ rest) in
    if ltb n 10 then (b'0' + n) ∷ rest else more

abbrev pub print_u16 : ℕ → Text
print_u16 n = print_digits 5 n []

abbrev power10 : ℕ → ℕ
power10 zero = 1
power10 (suc f) = 10 * power10 f

parse_digits-print_digits :
    (f n : ℕ) (rest : Text)
    → n < 65536
    → n < power10 (suc f)
    → parse_digits 0 (print_digits (suc f) n rest) ≡ parse_digits n rest
unfolding parse_digits print_digits
parse_digits-print_digits zero n rest h b = ground arith
parse_digits-print_digits (suc f) n rest h b =
    ground (arith, parse_digits-print_digits f (n / 10) ((b'0' + n % 10) ∷ rest))

split_last_colon-append :
    (host d : Text)
    → split_last_colon d ≡ none
    → split_last_colon (host ++ b':' ∷ d) ≡ some (host, d)
unfolding split_last_colon
split_last_colon-append [] d h = ground arith
split_last_colon-append (c ∷ host) d h = ground (arith, split_last_colon-append host d h)

split_last_colon-print_digits :
    (f n : ℕ) (rest : Text)
    → split_last_colon rest ≡ none
    → split_last_colon (print_digits f n rest) ≡ none
unfolding split_last_colon print_digits
split_last_colon-print_digits zero n rest h = h
split_last_colon-print_digits (suc f) n rest h =
    ground (arith, split_last_colon-print_digits f (n / 10) ((b'0' + n % 10) ∷ rest))

-- A text that is not empty and whose digits parse has no sign.
parse_u16-parse_digits :
    (s : Text) (n : ℕ) → s ≢ [] → parse_digits 0 s ≡ some n → parse_u16 s ≡ some n
unfolding parse_u16 parse_digits
parse_u16-parse_digits [] n h e = absurd (h refl)
parse_u16-parse_digits (c ∷ s) n h e = ground arith

print_digits-ne_nil : (f n c : ℕ) (rest : Text) → print_digits f n (c ∷ rest) ≢ []
unfolding print_digits
print_digits-ne_nil zero n c rest e = cc
print_digits-ne_nil (suc f) n c rest e =
    ground (arith, print_digits-ne_nil f (n / 10) (b'0' + n % 10) (c ∷ rest))

print_u16-ne_nil : (n : ℕ) → print_u16 n ≢ []
unfolding print_digits
print_u16-ne_nil n e = ground (arith, print_digits-ne_nil 4 (n / 10) (b'0' + n % 10) [])

parse_u16-print_u16 : (n : ℕ) → n < 65536 → parse_u16 (print_u16 n) ≡ some n
unfolding parse_digits
parse_u16-print_u16 n h =
    parse_u16-parse_digits (print_u16 n) n (print_u16-ne_nil n)
      (parse_digits-print_digits 4 n [] h (omega arith))

-- A host and a port in decimal after a colon come back, also where the host has colons.
pub host_port_pair-print_u16 :
    (host : Text) (port : ℕ)
    → port < 65536
    → host_port_pair (host ++ b':' ∷ print_u16 port) ≡ ok (host, port)
unfolding host_port_pair split_last_colon
host_port_pair-print_u16 host port h =
    rw
      (
        split_last_colon-append host (print_u16 port)
            (split_last_colon-print_digits 5 port [] refl),
        parse_u16-print_u16 port h,
      )
      refl
