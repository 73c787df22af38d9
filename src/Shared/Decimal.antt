-- ===== src/Shared/Decimal.antt =====
-- `std::to_string` and `std::stoi`, by which error codes are written and read.
use remote_backup_m.Prelude.{
  ℕ, zero, suc, ◌+◌, ◌-◌, ◌*◌, ◌/◌, ◌%◌, ◌^◌, ◌<◌, ◌≡◌, Bool, true, false, ◌&&◌, ◌||◌, [], ◌∷◌,
  Bytes, Outcome, ok, err, invalid_argument, out_of_range, arith, ltb, leb, ◌==◌, if◌then◌else◌,
  Bool-cases, inl, inr,
}

-- `int`; `negsuc n` is -(n + 1).
pub data ℤ : Type 0 where
  pos : ℕ → ℤ
  negsuc : ℕ → ℤ

-- `a == b` for an `int` and a code that is not negative.
abbrev pub is_code : ℤ → ℕ → Bool
is_code (pos n) k = n == k
is_code (negsuc n) k = false

digits_from : ℕ → ℕ → Bytes → Bytes
digits_from zero n acc = acc
digits_from (suc fuel) n acc =
    let more = digits_from fuel (n / 10) ((48 + n % 10) ∷ acc) in
    if ltb n 10 then (48 + n) ∷ acc else more

unfoldable pub to_string : ℕ → Bytes
unfolding digits_from
to_string n = digits_from (suc n) n []

is_digit : ℕ → Bool
is_digit c = leb 48 c && leb c 57

is_space : ℕ → Bool
is_space c = c == 32 || (leb 9 c && leb c 13)

-- The number that the leading digits write.
digits_value : ℕ → Bytes → ℕ
unfolding is_digit
digits_value acc [] = acc
digits_value acc (c ∷ cs) = if is_digit c then digits_value (acc * 10 + (c - 48)) cs else acc

skip_spaces : Bytes → Bytes
unfolding is_space
skip_spaces [] = []
skip_spaces (c ∷ cs) = if is_space c then skip_spaces cs else c ∷ cs

in_range : Bool → ℕ → Outcome ℤ
in_range false n = if ltb n (2 ^ 31) then ok (pos n) else err out_of_range
in_range true n =
    if n == 0 then ok (pos 0) else if leb n (2 ^ 31) then ok (negsuc (n - 1)) else err out_of_range

unsigned : Bool → Bytes → Outcome ℤ
unfolding in_range digits_value is_digit
unsigned negative [] = err invalid_argument
unsigned negative (c ∷ cs) =
    if is_digit c then in_range negative (digits_value 0 (c ∷ cs)) else err invalid_argument

signed : Bytes → Outcome ℤ
unfolding unsigned
signed [] = err invalid_argument
signed (c ∷ cs) =
    if c == b'-'
    then unsigned true cs
    else if c == b'+'
    then unsigned false cs
    else unsigned false (c ∷ cs)

unfoldable pub stoi : Bytes → Outcome ℤ
unfolding signed skip_spaces
stoi s = signed (skip_spaces s)

digits_value_digit :
    (acc d : ℕ) (cs : Bytes)
    → d < 10
    → digits_value acc ((48 + d) ∷ cs) ≡ digits_value (acc * 10 + d) cs
unfolding digits_value
digits_value_digit acc d cs h =
    let e : 48 + d - 48 ≡ d = omega arith in
    let t : is_digit (48 + d) ≡ true = ground arith in rw (t, e)

digits_value-digits_from :
    (fuel n : ℕ) (acc : Bytes)
    → n < fuel
    → digits_value 0 (digits_from fuel n acc) ≡ digits_value n acc
unfolding digits_from
digits_value-digits_from zero n acc h = elim h [ ]
digits_value-digits_from (suc fuel) n acc h = elim (Bool-cases (ltb n 10)) [
  | inl small ↦
      let e : 0 * 10 + n ≡ n = omega arith in
      rw (small, digits_value_digit 0 n acc (ground arith), e)
  | inr large ↦
      let e : n / 10 * 10 + n % 10 ≡ n = omega arith in
      rw (
        large,
        digits_value-digits_from fuel (n / 10) ((48 + n % 10) ∷ acc) (ground arith),
        digits_value_digit (n / 10) (n % 10) acc (omega arith),
        e,
      )
]

-- A text that begins with a digit, as `stoi` sees it.
Leads : Bytes → Type 0
Leads [] = ⊥
Leads (c ∷ cs) = is_digit c ≡ true

digits_from-Leads : (fuel n : ℕ) (acc : Bytes) → n < fuel → Leads (digits_from fuel n acc)
unfolding digits_from Leads is_digit
digits_from-Leads zero n acc h = elim h [ ]
digits_from-Leads (suc fuel) n acc h = elim (Bool-cases (ltb n 10)) [
  | inl small ↦ rw small (ground arith)
  | inr large ↦ rw large (digits_from-Leads fuel (n / 10) ((48 + n % 10) ∷ acc) (ground arith))
]

stoi-Leads : (s : Bytes) → Leads s → stoi s ≡ in_range false (digits_value 0 s)
unfolding stoi Leads
stoi-Leads [] h = absurd h
stoi-Leads (c ∷ cs) h = ground arith

-- A number below 2 ^ 31 that std::to_string writes is read back by std::stoi.
pub stoi-to_string : (n : ℕ) → n < 2 ^ 31 → stoi (to_string n) ≡ ok (pos n)
unfolding to_string in_range digits_value
stoi-to_string n h =
    rw
      (
        stoi-Leads (digits_from (suc n) n []) (digits_from-Leads (suc n) n [] (omega arith)),
        digits_value-digits_from (suc n) n [] (omega arith),
      )
      (ground arith)
