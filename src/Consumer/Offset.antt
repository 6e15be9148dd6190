-- ===== src/Consumer/Offset.antt =====
-- The offset of a consumer as the store keeps it: `str(n)` and `int(raw)` of a natural number.
use ld1_execution_gap_xair.Base.{
  ℕ, zero, suc, ◌+◌, ◌-◌, ◌*◌, ◌≤◌, ◌≡◌, refl, ap, ◌∙◌, Option, none, some, [], ◌∷◌, ◌++◌, arith,
  ◌==◌, if◌then◌else◌,
}
use ld1_execution_gap_xair.Base.Int.{ℤ, pos, negsuc}
use ld1_execution_gap_xair.Base.Text.{Text, same_text_refl}
use ld1_execution_gap_xair.Base.Dict.{Dict, lookup, insert, lookup-insert}

-- the decimal digits of the next number, the last digit first
unfoldable pub increment : Text → Text
increment [] = b'1' ∷ []
increment (c ∷ cs) = let rest = increment cs in if c == b'9' then b'0' ∷ rest else suc c ∷ cs

unfoldable pub digits : ℕ → Text
digits zero = b'0' ∷ []
digits (suc n) = increment (digits n)

unfoldable pub reverse : Text → Text
reverse [] = []
reverse (c ∷ cs) = reverse cs ++ c ∷ []

-- `str(n)`
unfoldable pub str : ℕ → Text
str n = reverse (digits n)

-- `str` of an integer
unfoldable pub str_ℤ : ℤ → Text
str_ℤ (pos n) = str n
str_ℤ (negsuc n) = b'-' ∷ str (suc n)

-- `int(raw)` of a text of digits
unfoldable pub int_from : ℕ → Text → ℕ
int_from n [] = n
int_from n (c ∷ cs) = int_from (10 * n + (c - b'0')) cs

unfoldable pub int : Text → ℕ
int raw = int_from 0 raw

-- `int(raw) if raw else 0`
abbrev pub offset_of : Option Text → ℕ
offset_of none = 0
offset_of (some raw) = int raw

-- `offset`, under the key of the consumer
unfoldable pub offset : Text → Dict Text → ℕ
offset key kv = offset_of (lookup key kv)

-- the value of digits, the last one first
abbrev value : Text → ℕ
value [] = 0
value (c ∷ cs) = (c - b'0') + 10 * value cs

abbrev AreDigits : Text → Type 0
AreDigits [] = Unit
AreDigits (c ∷ cs) = (b'0' ≤ c) × (c ≤ b'9') × AreDigits cs

increment-AreDigits : (cs : Text) → AreDigits cs → AreDigits (increment cs)
unfolding increment
increment-AreDigits [] h = (omega arith, omega arith, tt)
increment-AreDigits (c ∷ cs) h = ground (arith, increment-AreDigits cs h.2)

value-increment : (cs : Text) → AreDigits cs → value (increment cs) ≡ suc (value cs)
unfolding increment
value-increment [] h = omega arith
value-increment (c ∷ cs) h = ground (arith, value-increment cs h.2)

digits-AreDigits : (n : ℕ) → AreDigits (digits n)
unfolding digits
digits-AreDigits zero = (omega arith, omega arith, tt)
digits-AreDigits (suc n) = increment-AreDigits (digits n) (digits-AreDigits n)

value-digits : (n : ℕ) → value (digits n) ≡ n
unfolding digits
value-digits zero = omega arith
value-digits (suc n) = value-increment (digits n) (digits-AreDigits n) ∙ ap suc (value-digits n)

int_from-append :
    (n : ℕ) (cs : Text) (c : ℕ) → int_from n (cs ++ c ∷ []) ≡ 10 * int_from n cs + (c - b'0')
unfolding int_from
int_from-append n [] c = refl
int_from-append n (d ∷ cs) c = int_from-append (10 * n + (d - b'0')) cs c

int-reverse : (cs : Text) → int_from 0 (reverse cs) ≡ value cs
unfolding reverse int_from
int-reverse [] = refl
int-reverse (c ∷ cs) = omega (arith, int_from-append 0 (reverse cs) c, int-reverse cs)

-- What `int` reads from a number that `str` wrote is that number.
pub int-str : (n : ℕ) → int (str n) ≡ n
unfolding int str
int-str n = int-reverse (digits n) ∙ value-digits n

-- An offset that was stored under a key is read back.
pub offset-insert : (key : Text) (n : ℕ) (kv : Dict Text) → offset key (insert key (str n) kv) ≡ n
unfolding offset
offset-insert key n kv = rw (lookup-insert key key (str n) kv, same_text_refl key) (int-str n)
