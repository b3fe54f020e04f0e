-- ===== src/LiveRoom/Timer/RoundTrip.antt =====
-- client/src/components/room/live-room-page.tsx: reading back the duration that is shown.
use Prim.Native.Char.{code}
use Prim.Native.String.{String, [], ◌∷◌, ◌++◌}
use mathlib.Core.List as L
use text.Mathlib.TextLemmas.{nil-append, cons-append}
use wave_cast.Common.{
  ℕ, zero, suc, ◌+◌, ◌*◌, ◌-◌, ◌/◌, ◌%◌, ◌<◌, ◌≡◌, refl, ap, ◌∙◌, true, some, arith, eqb, ltb,
  utf16_length, trim_start, split, Bool-cases, inl, inr, split_from,
}
use wave_cast.Common.Split.{Free, split_from-first, split_from-end}
use wave_cast.Common.Decimal.{digit_char, show_from, show}
use wave_cast.Common.Int.{pos}
use wave_cast.LiveRoom.Timer.{
  is_digit, digits_from, begins_with_digit, parse_int, pad_start_two, format_timer, parse_duration,
  combine,
}

digit_code : (d : ℕ) → d < 10 → code (digit_char d) ≡ d + 48
digit_code zero h = refl
digit_code (suc zero) h = refl
digit_code (suc (suc zero)) h = refl
digit_code (suc (suc (suc zero))) h = refl
digit_code (suc (suc (suc (suc zero)))) h = refl
digit_code (suc (suc (suc (suc (suc zero))))) h = refl
digit_code (suc (suc (suc (suc (suc (suc zero)))))) h = refl
digit_code (suc (suc (suc (suc (suc (suc (suc zero))))))) h = refl
digit_code (suc (suc (suc (suc (suc (suc (suc (suc zero)))))))) h = refl
digit_code (suc (suc (suc (suc (suc (suc (suc (suc (suc zero))))))))) h = refl
digit_code (suc (suc (suc (suc (suc (suc (suc (suc (suc (suc d)))))))))) h = absurd (omega arith)

abbrev AllDigits : String → Type 0
AllDigits [] = Unit
AllDigits (c ∷ s) = (is_digit (code c) ≡ true) × AllDigits s

-- A numeral: digits, at least one, that read as a number.
record Reads (n : ℕ) (s : String) : Type 0 where
  digits : AllDigits s
  first : begins_with_digit s ≡ true
  value : digits_from 0 s ≡ n

digit-is_digit : (d : ℕ) → d < 10 → is_digit (code (digit_char d)) ≡ true
unfolding is_digit
digit-is_digit d h = rw (digit_code d h) (ground arith)

digits_from-digit :
    (d v : ℕ) (s : String) → d < 10 → digits_from v (digit_char d ∷ s) ≡ digits_from (10 * v + d) s
unfolding digits_from
digits_from-digit d v s h =
    let e : code (digit_char d) - b'0' ≡ d = omega (arith, digit_code d h) in
    rw (digit-is_digit d h, e) refl

show_from-value :
    (fuel n : ℕ) (printed : String)
    → n < fuel
    → digits_from 0 (show_from fuel n printed) ≡ digits_from n printed
unfolding show_from
show_from-value zero n printed h = absurd (omega arith)
show_from-value (suc fuel) n printed h = elim (Bool-cases (ltb n 10)) [
  | inl small ↦
      rw small (
        digits_from-digit n 0 printed (ground arith)
        ∙ ap (λ k. digits_from k printed) (omega arith))
  | inr large ↦ rw large (
      show_from-value fuel (n / 10) _ (ground arith)
      ∙ digits_from-digit (n % 10) (n / 10) printed (omega arith)
      ∙ ap (λ k. digits_from k printed) (omega arith))
]

show_from-digits :
    (fuel n : ℕ) (printed : String)
    → n < fuel
    → AllDigits printed
    → AllDigits (show_from fuel n printed) × (begins_with_digit (show_from fuel n printed) ≡ true)
unfolding show_from begins_with_digit
show_from-digits zero n printed h d = absurd (omega arith)
show_from-digits (suc fuel) n printed h d = elim (Bool-cases (ltb n 10)) [
  | inl small ↦ let e = digit-is_digit n (ground arith) in rw small ((e, d), e)
  | inr large ↦
      rw large
        (show_from-digits fuel (n / 10) _ (ground arith) (digit-is_digit (n % 10) (omega arith), d))
]

show-Reads : (n : ℕ) → Reads n (show n)
unfolding show digits_from
show-Reads n = record {
  digits = (show_from-digits (suc n) n "" (omega arith) tt).0;
  first = (show_from-digits (suc n) n "" (omega arith) tt).1;
  value = show_from-value (suc n) n "" (omega arith);
}

pad-Reads : (n : ℕ) (s : String) → Reads n s → Reads n (pad_start_two s)
unfolding pad_start_two begins_with_digit is_digit digits_from
pad-Reads n [] r = cc (r.first)
pad-Reads n (c ∷ s) r = elim (Bool-cases (eqb (utf16_length (c ∷ s)) 1)) [
  | inl one ↦
      rw (one, cons-append, nil-append)
        (record { digits = (refl, r.digits); first = refl; value = r.value })
  | inr more ↦ rw more r
]

trim_start-digits : (s : String) → begins_with_digit s ≡ true → trim_start s ≡ s
unfolding trim_start begins_with_digit is_digit
trim_start-digits [] h = refl
trim_start-digits (c ∷ s) h = ground arith

parse_int-Reads : (n : ℕ) (s : String) → Reads n s → parse_int s ≡ some (pos n)
unfolding parse_int
parse_int-Reads n [] r = cc (r.first)
parse_int-Reads n (c ∷ s) r =
    rw (trim_start-digits (c ∷ s) r.first) (ground (arith, r.first, r.value))

digits-Free : (s : String) → AllDigits s → Free b':' s
unfolding is_digit
digits-Free [] h = tt
digits-Free (c ∷ s) (d, h) = (ground arith, digits-Free s h)

split_colon :
    (cur rest : String) → split_from b':' cur (":" ++ rest) ≡ L.◌∷◌ cur (split_from b':' "" rest)
unfolding split_from
split_colon cur rest = rw (cons-append, nil-append) refl

-- A text of digits, up to a colon.
split_part :
    (s rest : String)
    → AllDigits s
    → split_from b':' "" (s ++ (":" ++ rest)) ≡ L.◌∷◌ s (split_from b':' "" rest)
split_part s rest h =
    split_from-first b':' s rest (digits-Free s h) (":" ++ rest) (λ cur. split_colon cur rest)

split_last : (s : String) → AllDigits s → split_from b':' "" s ≡ L.◌∷◌ s L.[]
split_last s h = split_from-end b':' s (digits-Free s h)

split_parts :
    (a b c : String)
    → AllDigits a
    → AllDigits b
    → AllDigits c
    → split b':' (a ++ (":" ++ (b ++ (":" ++ c)))) ≡ L.◌∷◌ a (L.◌∷◌ b (L.◌∷◌ c L.[]))
unfolding split
split_parts a b c x y z =
    split_part a (b ++ (":" ++ c)) x
    ∙ ap (L.◌∷◌ a) (split_part b c y ∙ ap (L.◌∷◌ b) (split_last c z))

parse_duration-parts :
    (h m s : ℕ) (a b c : String)
    → Reads h a
    → Reads m b
    → Reads s c
    → parse_duration (a ++ (":" ++ (b ++ (":" ++ c)))) ≡ pos (3600 * h + 60 * m + s)
unfolding parse_duration combine
parse_duration-parts h m s a b c x y z =
    rw
      (
        split_parts a b c x.digits y.digits z.digits,
        parse_int-Reads h a x,
        parse_int-Reads m b y,
        parse_int-Reads s c z,
      )
      (ground arith)

-- The duration that the page shows reads back as the number of seconds, whatever it is: the hours
-- may have more than two digits.
pub parse_duration-format_timer : (n : ℕ) → parse_duration (format_timer (pos n)) ≡ pos n
unfolding format_timer
parse_duration-format_timer n =
    parse_duration-parts (n / 3600) (n % 3600 / 60) (n % 60) _ _ _
      (pad-Reads (n / 3600) _ (show-Reads (n / 3600)))
      (pad-Reads (n % 3600 / 60) _ (show-Reads (n % 3600 / 60)))
      (pad-Reads (n % 60) _ (show-Reads (n % 60)))
    ∙ ap pos (omega arith)
