-- ===== src/Setup/Cluster/Decimal.antt =====
-- The digits of a port: their text is read as the number.
use Prim.Native.Char.{code}
use text.Mathlib.TextLemmas.{nil-append, cons-append}
use rancid_syncer.Base.{
  ℕ, zero, suc, ◌+◌, ◌-◌, ◌*◌, ◌/◌, ◌%◌, ◌<◌, ◌≡◌, refl, ap, ◌∙◌, String, ◌<>◌, arith, ltb, inl,
  inr, Bool-cases,
}
use rancid_syncer.Setup.Cluster.{digit, decimal_fuel, decimal}

-- The number that a text of digits stands for, after the digits of `acc`.
abbrev pub read_from : ℕ → String → ℕ
read_from acc String.[] = acc
read_from acc (String.◌∷◌ c s) = read_from (acc * 10 + (code c - 48)) s

read_from-append : (acc : ℕ) (s t : String) → read_from acc (s <> t) ≡ read_from (read_from acc s) t
read_from-append acc String.[] t = ap (read_from acc) (nil-append t)
read_from-append acc (String.◌∷◌ c s) t =
    ap (read_from acc) (cons-append c s t) ∙ read_from-append (acc * 10 + (code c - 48)) s t

read_from-digit : (acc n : ℕ) → n < 10 → read_from acc (digit n) ≡ acc * 10 + n
unfolding digit
read_from-digit acc zero h = refl
read_from-digit acc (suc zero) h = refl
read_from-digit acc (suc (suc zero)) h = refl
read_from-digit acc (suc (suc (suc zero))) h = refl
read_from-digit acc (suc (suc (suc (suc zero)))) h = refl
read_from-digit acc (suc (suc (suc (suc (suc zero))))) h = refl
read_from-digit acc (suc (suc (suc (suc (suc (suc zero)))))) h = refl
read_from-digit acc (suc (suc (suc (suc (suc (suc (suc zero))))))) h = refl
read_from-digit acc (suc (suc (suc (suc (suc (suc (suc (suc zero)))))))) h = refl
read_from-digit acc (suc (suc (suc (suc (suc (suc (suc (suc (suc zero))))))))) h = refl
read_from-digit acc (suc (suc (suc (suc (suc (suc (suc (suc (suc (suc n)))))))))) h =
    absurd (omega arith)

reads : (fuel n : ℕ) → n < fuel → read_from 0 (decimal_fuel fuel n) ≡ n
unfolding decimal_fuel
reads zero n h = absurd (omega arith)
reads (suc fuel) n h = elim (Bool-cases (ltb n 10)) [
  | inl small ↦ rw (small, decimal_fuel) (read_from-digit 0 n (ground arith) ∙ omega arith)
  | inr large ↦
      let rest = reads fuel (n / 10) (ground arith) in
      rw (large, decimal_fuel)
        (read_from-append 0 (decimal_fuel fuel (n / 10)) (digit (n % 10))
          ∙ ap (λ acc. read_from acc (digit (n % 10))) rest
          ∙ read_from-digit (n / 10) (n % 10) (omega arith)
          ∙ omega arith)
]

-- The text of a number is read as the number.
pub decimal-read_from : (n : ℕ) → read_from 0 (decimal n) ≡ n
unfolding decimal
decimal-read_from n = reads (suc n) n (omega arith)
